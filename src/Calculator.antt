-- ===== src/Calculator.antt =====
-- include/calc/calculator.hpp and src/calculator.cpp: 64-bit signed arithmetic.
pub mod Exact
pub mod RoundTrip
use network_arc_rajasurya.Prelude.{
  ℕ, suc, ◌+◌, ◌-◌, ◌*◌, ◌^◌, Bool, true, false, ◌&&◌, not, [], ◌∷◌, Option, none, some, Bytes,
  codes, equal, is_empty, front_is, all_of, drop, if◌then◌else◌, is_digit, to_string,
}
use network_arc_rajasurya.Prelude.Int.{ℤ, pos, negsuc, sub_ℕ, ◌+ℤ◌, ◌-ℤ◌, ◌*ℤ◌, ◌/ℤ◌, leb_ℤ}

pub data Operation : Type 0 where
  add subtract multiply divide : Operation

unfoldable pub operation_from_path : Bytes → Option Operation
operation_from_path path =
    if equal path (codes "/add")
    then some add
    else if equal path (codes "/sub")
    then some subtract
    else if equal path (codes "/mul")
    then some multiply
    else if equal path (codes "/div")
    then some divide
    else none

-- `std::numeric_limits<std::int64_t>`.
abbrev pub int64_min : ℤ
int64_min = negsuc (2 ^ 63 - 1)

abbrev pub int64_max : ℤ
int64_max = pos (2 ^ 63 - 1)

abbrev pub fits : ℤ → Bool
fits v = leb_ℤ int64_min v && leb_ℤ v int64_max

-- `IntParseStatus`, with the value that is set when it is `Ok`.
pub data IntParse : Type 0 where
  int_ok : ℤ → IntParse
  empty not_an_integer out_of_range : IntParse

-- The value of a text of digits, read from the left behind `acc`.
unfoldable pub decimal : ℕ → Bytes → ℕ
decimal acc [] = acc
decimal acc (c ∷ cs) = decimal (acc * 10 + (c - b'0')) cs

-- `std::from_chars` on a text that matches -?[0-9]+: the exact value, unless it does not fit.
unfoldable pub from_chars : Bytes → IntParse
unfolding decimal
from_chars text =
    let value =
      if front_is b'-' text then sub_ℕ 0 (decimal 0 (drop 1 text)) else pos (decimal 0 text) in
    if fits value then int_ok value else out_of_range

unfoldable pub parse_int64 : Bytes → IntParse
unfolding from_chars
parse_int64 text =
    let digits_start : ℕ = if front_is b'-' text then 1 else 0 in
    if is_empty text
    then empty
    else if is_empty (drop digits_start text)
    then not_an_integer
    else if not (all_of is_digit (drop digits_start text))
    then not_an_integer
    else from_chars text

-- `std::to_string` of a 64-bit signed value.
unfoldable pub to_string_ℤ : ℤ → Bytes
to_string_ℤ (pos n) = to_string n
to_string_ℤ (negsuc n) = b'-' ∷ to_string (suc n)

pub record CalcResult : Type 0 where
  pub ok : Bool
  pub value : ℤ
  pub error : Bytes

abbrev succeeds : ℤ → CalcResult
succeeds v = record { ok = true; value = v; error = [] }

abbrev fails_with : Bytes → CalcResult
fails_with message = record { ok = false; value = pos 0; error = message }

abbrev overflow_message : Bytes
overflow_message = codes "integer overflow: result does not fit in a signed 64-bit integer"

-- `__builtin_*_overflow` and the test of its result, where `exact` is the exact result.
unfoldable pub check_overflow : ℤ → CalcResult
check_overflow exact = if fits exact then succeeds exact else fails_with overflow_message

abbrev pub is_zero : ℤ → Bool
is_zero v = leb_ℤ v (pos 0) && leb_ℤ (pos 0) v

abbrev pub same_int : ℤ → ℤ → Bool
same_int a b = leb_ℤ a b && leb_ℤ b a

unfoldable pub calculate : Operation → ℤ → ℤ → CalcResult
unfolding check_overflow
calculate add a b = check_overflow (a +ℤ b)
calculate subtract a b = check_overflow (a -ℤ b)
calculate multiply a b = check_overflow (a *ℤ b)
calculate divide a b =
    if is_zero b
    then fails_with (codes "division by zero")
    else if same_int a int64_min && same_int b (negsuc 0)
    then fails_with overflow_message
    else succeeds (a /ℤ b)
