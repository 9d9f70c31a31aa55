-- ===== src/DemoClient/Numbers.antt =====
-- `std::stoi` and `std::stoul`, which tools/demo_client.cpp calls, by their documented results: blanks
-- and a sign are skipped, the longest run of digits is read; `none` is an exception.
use network_arc_rajasurya.Prelude.{
  ℕ, ◌-◌, ◌%◌, ◌^◌, ◌≡◌, ◌<◌, refl, ◌∙◌, Bool, true, false, ◌||◌, [], ◌∷◌, Option, none, some,
  Bytes, is_empty, front_is, drop, ltb, leb, within, ◌==◌, if◌then◌else◌, is_digit, to_string,
  all_of, arith,
}
use network_arc_rajasurya.Prelude.Int.{ℤ, pos, sub_ℕ}
use network_arc_rajasurya.Calculator.{decimal}
use network_arc_rajasurya.Calculator.RoundTrip.{to_string-Written}

abbrev is_space : ℕ → Bool
is_space c = c == b' ' || within 9 13 c

skip_spaces : Bytes → Bytes
skip_spaces [] = []
skip_spaces (c ∷ cs) = if is_space c then skip_spaces cs else c ∷ cs

leading_digits : Bytes → Bytes
unfolding is_digit
leading_digits [] = []
leading_digits (c ∷ cs) = if is_digit c then c ∷ leading_digits cs else []

-- Behind the blanks and the sign.
abbrev unsigned_digits : Bytes → Bytes
unsigned_digits text =
    leading_digits (if front_is b'-' text || front_is b'+' text then drop 1 text else text)

unfoldable pub stoul : Bytes → Option ℕ
unfolding skip_spaces leading_digits decimal
stoul text =
    let t = skip_spaces text in
    let digits = unsigned_digits t in
    let value = decimal 0 digits in
    if is_empty digits
    then none
    else if leb (2 ^ 64) value
    then none
    else some (if front_is b'-' t then (2 ^ 64 - value) % 2 ^ 64 else value)

-- An `int` has 32 bits.
unfoldable pub stoi : Bytes → Option ℤ
unfolding skip_spaces leading_digits decimal
stoi text =
    let t = skip_spaces text in
    let digits = unsigned_digits t in
    let value = decimal 0 digits in
    if is_empty digits
    then none
    else if front_is b'-' t
    then (if ltb (2 ^ 31) value then none else some (sub_ℕ 0 value))
    else if leb (2 ^ 31) value
    then none
    else some (pos value)

leading_digits-all : (text : Bytes) → all_of is_digit text ≡ true → leading_digits text ≡ text
unfolding leading_digits all_of is_digit
leading_digits-all [] h = refl
leading_digits-all (c ∷ cs) h = ground (arith, leading_digits-all cs)

-- A text of digits has no blank and no sign in front.
plain-digits :
    (text : Bytes)
    → all_of is_digit text ≡ true
    → (skip_spaces text ≡ text) × ((front_is b'-' text) ≡ false) × ((front_is b'+' text) ≡ false)
unfolding skip_spaces all_of is_digit
plain-digits [] h = (refl, refl, refl)
plain-digits (c ∷ cs) h = (ground arith, ground arith, ground arith)

pub stoul-to_string : (n : ℕ) → n < 2 ^ 64 → stoul (to_string n) ≡ some n
unfolding stoul
stoul-to_string n h =
    let w = to_string-Written n in
    let digits : all_of is_digit (to_string n) ≡ true = w.digits ∙ (unfold all_of in refl) in
    let value : decimal 0 (to_string n) ≡ n = w.value ∙ (unfold decimal in refl) in
    let (no_space, no_minus, no_plus) = plain-digits (to_string n) digits in
    rw (no_space, no_minus, no_plus, leading_digits-all (to_string n) digits, w.nonempty, value)
      (ground arith)

pub stoi-to_string : (n : ℕ) → n < 2 ^ 31 → stoi (to_string n) ≡ some (pos n)
unfolding stoi
stoi-to_string n h =
    let w = to_string-Written n in
    let digits : all_of is_digit (to_string n) ≡ true = w.digits ∙ (unfold all_of in refl) in
    let value : decimal 0 (to_string n) ≡ n = w.value ∙ (unfold decimal in refl) in
    let (no_space, no_minus, no_plus) = plain-digits (to_string n) digits in
    rw (no_space, no_minus, no_plus, leading_digits-all (to_string n) digits, w.nonempty, value)
      (ground arith)
