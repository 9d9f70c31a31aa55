-- ===== src/Router/Operands.antt =====
-- src/router.cpp: `parse_operand` and `parse_operands`.
use network_arc_rajasurya.Prelude.{
  Bool, true, false, ◌&&◌, not, List, [], ◌∷◌, ◌++◌, Option, none, some, Bytes, codes, equal,
  if◌then◌else◌,
}
use network_arc_rajasurya.Prelude.Int.{ℤ}
use network_arc_rajasurya.Text.{excerpt}
use network_arc_rajasurya.Query.{parse_query, is_ok}
use network_arc_rajasurya.Calculator.{
  IntParse, int_ok, empty, not_an_integer, out_of_range, parse_int64,
}

-- A value, or the message that `std::optional<std::string>` holds.
pub data Checked {ℓ} (A : Type ℓ) : Type ℓ where
  valid : A → Checked A
  invalid : Bytes → Checked A

infixl 5 ◌>>=◌
abbrev pub ◌>>=◌ {ℓ κ} : {A : Type ℓ} {B : Type κ} → Checked A → (A → Checked B) → Checked B
valid a >>= f = f a
invalid message >>= f = invalid message

-- The message for each status; `quoted` is "query parameter 'name'".
abbrev pub operand_of : Bytes → Bytes → IntParse → Checked ℤ
operand_of quoted text (int_ok value) = valid value
operand_of quoted text empty = invalid (quoted ++ codes " is empty")
operand_of quoted text not_an_integer =
    invalid (quoted ++ (codes " is not an integer: '" ++ (excerpt text ++ codes "'")))
operand_of quoted text out_of_range =
    invalid (quoted ++ codes " is out of range for a signed 64-bit integer")

unfoldable pub parse_operand : Bytes → Bytes → Checked ℤ
parse_operand name text =
    operand_of (codes "query parameter '" ++ (name ++ codes "'")) text (parse_int64 text)

-- `a_text` and `b_text`, null where no parameter of that name was met.
pub record Slots : Type 0 where
  pub a_text : Option Bytes
  pub b_text : Option Bytes

abbrev pub is_set : Option Bytes → Bool
is_set none = false
is_set (some text) = true

-- One parameter of the loop.
unfoldable pub fill_slot : Bytes → Bytes → Slots → Checked Slots
fill_slot name value s =
    if not (equal name (codes "a")) && not (equal name (codes "b"))
    then invalid (
        codes "unknown query parameter '" ++ (excerpt name ++ codes "'; only a and b are accepted"))
    else if is_set (if equal name (codes "a") then s.a_text else s.b_text)
    then invalid (codes "duplicate query parameter '" ++ (name ++ codes "'"))
    else if equal name (codes "a")
    then valid (record s { a_text = some value })
    else valid (record s { b_text = some value })

unfoldable pub fill_slots : List (Bytes × Bytes) → Slots → Checked Slots
unfolding fill_slot
fill_slots [] s = valid s
fill_slots ((name, value) ∷ ps) s = fill_slot name value s >>= fill_slots ps

-- The texts of both operands, each of which must be there.
abbrev pub both_texts : Option Bytes → Option Bytes → Checked (Bytes × Bytes)
both_texts none none = invalid (codes "missing query parameters 'a' and 'b'")
both_texts none (some b) = invalid (codes "missing query parameter 'a'")
both_texts (some a) none = invalid (codes "missing query parameter 'b'")
both_texts (some a) (some b) = valid (a, b)

unfoldable pub parse_operands : Bytes → Checked (ℤ × ℤ)
unfolding parse_operand fill_slots
parse_operands query =
    let parsed = parse_query query in
    if not (is_ok parsed) then invalid parsed.error else (do
      slots ← fill_slots parsed.parameters (record { a_text = none; b_text = none })
      texts ← both_texts slots.a_text slots.b_text
      a ← parse_operand (codes "a") texts.0
      b ← parse_operand (codes "b") texts.1
      valid (a, b))
