-- ===== src/Parser/Result.antt =====
-- include/calc/request_parser.hpp: the results of parsing.
use network_arc_rajasurya.Prelude.{ℕ, Bytes}
use network_arc_rajasurya.Request.{Request}

pub record ParseError : Type 0 where
  pub status : ℕ
  pub message : Bytes

-- `std::optional<ParseError>` beside an out parameter that is set when there is no error.
pub data Parsed {ℓ} (A : Type ℓ) : Type ℓ where
  ok : A → Parsed A
  err : ParseError → Parsed A

abbrev pub reject {ℓ} : {A : Type ℓ} → ℕ → Bytes → Parsed A
reject status message = err (record { status = status; message = message })

infixl 5 ◌>>=◌
abbrev pub ◌>>=◌ {ℓ κ} : {A : Type ℓ} {B : Type κ} → Parsed A → (A → Parsed B) → Parsed B
ok a >>= f = f a
err e >>= f = err e

-- `ParseResult`, with what each kind carries.
pub data ParseResult : Type 0 where
  incomplete : ParseResult
  complete : Request → ParseResult
  error : ParseError → ParseResult
