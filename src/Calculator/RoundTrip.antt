-- ===== src/Calculator/RoundTrip.antt =====
-- src/calculator.cpp: `parse_int64` reads back what `std::to_string` writes.
use network_arc_rajasurya.Prelude.{
  ℕ, zero, suc, ◌+◌, ◌/◌, ◌%◌, ◌<◌, ◌≡◌, refl, ap, ◌∙◌, true, false, [], ◌∷◌, ltb, arith, Bytes,
  is_empty, front_is, all_of, is_digit, to_string, digits_onto, either_case,
}
use network_arc_rajasurya.Prelude.Int.{ℤ, pos, negsuc, sub_ℕ}
use network_arc_rajasurya.Calculator.{fits, decimal, from_chars, int_ok, parse_int64, to_string_ℤ}

-- The digits of a number, in front of what is written already.
pub record Written (n : ℕ) (out text : Bytes) : Type 0 where
  pub value : decimal 0 text ≡ decimal n out
  pub digits : all_of is_digit text ≡ all_of is_digit out
  pub nonempty : is_empty text ≡ false

last_digit-Written :
    (n : ℕ) (out text : Bytes) → Written (n / 10) ((b'0' + n % 10) ∷ out) text → Written n out text
unfolding decimal all_of is_digit
last_digit-Written n out text w = record {
  value = w.value ∙ ap (λ k. decimal k out) (omega arith);
  digits = w.digits ∙ ground arith;
  nonempty = w.nonempty;
}

digits_onto-Written : (fuel n : ℕ) (out : Bytes) → n < fuel → Written n out (digits_onto fuel n out)
unfolding digits_onto
digits_onto-Written zero n out h = ground arith
digits_onto-Written (suc fuel) n out h =
    either_case (Written n out) (ltb n 10) _ _
      (λ small. record {
        value = unfold decimal in ap (λ k. decimal k out) (omega arith);
        digits = unfold all_of is_digit in ground arith;
        nonempty = refl;
      })
      (λ large.
        last_digit-Written n out _
          (digits_onto-Written fuel (n / 10) ((b'0' + n % 10) ∷ out) (ground arith)))

pub to_string-Written : (n : ℕ) → Written n [] (to_string n)
unfolding to_string
to_string-Written n = digits_onto-Written (suc n) n [] (omega arith)

no_sign : (text : Bytes) → all_of is_digit text ≡ true → front_is b'-' text ≡ false
unfolding all_of is_digit
no_sign [] h = refl
no_sign (c ∷ cs) h = ground arith

parse-digits :
    (n : ℕ) (text : Bytes)
    → Written n [] text
    → fits (pos n) ≡ true
    → parse_int64 text ≡ int_ok (pos n)
unfolding parse_int64 from_chars
parse-digits n text w f =
    let value : decimal 0 text ≡ n = w.value ∙ (unfold decimal in refl) in
    let digits : all_of is_digit text ≡ true = w.digits ∙ (unfold all_of in refl) in
    rw (no_sign text digits, w.nonempty, digits, value, f) refl

parse-minus :
    (n : ℕ) (text : Bytes)
    → Written (suc n) [] text
    → fits (negsuc n) ≡ true
    → parse_int64 (b'-' ∷ text) ≡ int_ok (negsuc n)
unfolding parse_int64 from_chars
parse-minus n text w f =
    let value : decimal 0 text ≡ suc n = w.value ∙ (unfold decimal in refl) in
    let digits : all_of is_digit text ≡ true = w.digits ∙ (unfold all_of in refl) in
    let whole : sub_ℕ 0 (suc n) ≡ negsuc n = ground arith in
    rw (w.nonempty, digits, value, whole, f) refl

-- A 64-bit value that `std::to_string` writes is read back by `parse_int64`.
pub parse_int64-to_string : (v : ℤ) → fits v ≡ true → parse_int64 (to_string_ℤ v) ≡ int_ok v
unfolding to_string_ℤ
parse_int64-to_string (pos n) f = parse-digits n (to_string n) (to_string-Written n) f
parse_int64-to_string (negsuc n) f = parse-minus n (to_string (suc n)) (to_string-Written (suc n)) f

digits-bytes : (text : Bytes) → all_of is_digit text ≡ true → all_of (λ b. ltb b 256) text ≡ true
unfolding all_of is_digit
digits-bytes [] h = refl
digits-bytes (c ∷ cs) h = ground (arith, digits-bytes cs)

to_string-digits : (n : ℕ) → all_of is_digit (to_string n) ≡ true
unfolding all_of
to_string-digits n = (to_string-Written n).digits

-- The digits and the sign are bytes.
pub to_string_ℤ-bytes : (v : ℤ) → all_of (λ b. ltb b 256) (to_string_ℤ v) ≡ true
unfolding to_string_ℤ all_of
to_string_ℤ-bytes (pos n) = digits-bytes (to_string n) (to_string-digits n)
to_string_ℤ-bytes (negsuc n) = digits-bytes (to_string (suc n)) (to_string-digits (suc n))
