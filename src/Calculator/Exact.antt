-- ===== src/Calculator/Exact.antt =====
-- src/calculator.cpp: `calculate` against exact integer arithmetic.
use native.Mathlib.Nat.{div-add-mod, mod-lt, div-le_self, div-lt_self, zero-div, div-zero, div-one}
use network_arc_rajasurya.Prelude.{
  ℕ, zero, suc, ◌+◌, ◌%◌, ◌<◌, ◌≡◌, refl, ap, ◌∙◌, ◌↔◌, true, false, ◌&&◌, arith, either_case,
}
use network_arc_rajasurya.Prelude.Int.{
  ℤ, pos, negsuc, sub_ℕ, ◌+ℤ◌, ◌-ℤ◌, ◌*ℤ◌, ◌/ℤ◌, pos_part, neg_part,
}
use network_arc_rajasurya.Calculator.{
  Operation, add, subtract, multiply, divide, fits, is_zero, same_int, int64_min, CalcResult,
  check_overflow, calculate,
}

abbrev pub magnitude : ℤ → ℕ
magnitude v = pos_part v + neg_part v

-- The remainder has the sign of the dividend, or is zero.
abbrev pub Follows : ℤ → ℤ → Type 0
Follows (pos m) r = neg_part r ≡ 0
Follows (negsuc m) r = pos_part r ≡ 0

-- `q` is the quotient that truncates toward zero.
pub record IsQuotient (a b q : ℤ) : Type 0 where
  pub remainder : ℤ
  pub whole : a ≡ q *ℤ b +ℤ remainder
  pub small : magnitude remainder < magnitude b
  pub sign : Follows a remainder

abbrev pub Exact : Operation → ℤ → ℤ → ℤ → Type 0
Exact add a b v = v ≡ a +ℤ b
Exact subtract a b v = v ≡ a -ℤ b
Exact multiply a b v = v ≡ a *ℤ b
Exact divide a b v = IsQuotient a b v

division_truncates : (a b : ℤ) → is_zero b ≡ false → IsQuotient a b (a /ℤ b)
unfolding ◌/ℤ◌ ◌*ℤ◌ ◌+ℤ◌
division_truncates (pos m) (pos n) h = record {
  remainder = pos (m % n);
  whole = ground (arith, div-add-mod m n, zero-div 0, zero-div n, div-zero m);
  small = ground (arith, mod-lt m {m = n} (ground arith));
  sign = refl;
}
division_truncates (pos m) (negsuc n) h = record {
  remainder = pos (m % suc n);
  whole = ground (arith, div-add-mod m (suc n), zero-div 0, zero-div (suc n), div-zero m);
  small = ground (arith, mod-lt m {m = suc n} (ground arith));
  sign = refl;
}
division_truncates (negsuc m) (pos n) h = record {
  remainder = sub_ℕ 0 (suc m % n);
  whole = ground (arith, div-add-mod (suc m) n, zero-div 0, zero-div n, div-zero (suc m));
  small = ground (arith, mod-lt (suc m) {m = n} (ground arith));
  sign = ground arith;
}
division_truncates (negsuc m) (negsuc n) h = record {
  remainder = sub_ℕ 0 (suc m % suc n);
  whole =
      ground (arith, div-add-mod (suc m) (suc n), zero-div 0, zero-div (suc n), div-zero (suc m));
  small = ground (arith, mod-lt (suc m) {m = suc n} (ground arith));
  sign = ground arith;
}

-- The only quotient of two 64-bit values that does not fit is the one that the code excludes.
quotient-fits :
    (a b : ℤ)
    → fits a ≡ true
    → (same_int a int64_min && same_int b (negsuc 0)) ≡ false
    → fits (a /ℤ b) ≡ true
unfolding ◌/ℤ◌
quotient-fits (pos m) (pos n) f h =
    ground (arith, div-le_self m n, zero-div 0, zero-div n, div-zero m)
quotient-fits (pos m) (negsuc n) f h =
    ground (arith, div-le_self m (suc n), zero-div 0, zero-div (suc n), div-zero m)
quotient-fits (negsuc m) (pos n) f h =
    ground (arith, div-le_self (suc m) n, zero-div 0, zero-div n, div-zero (suc m))
quotient-fits (negsuc m) (negsuc zero) f h =
    ground (arith, div-one (suc m), zero-div 0, zero-div 1, div-zero (suc m))
quotient-fits (negsuc m) (negsuc (suc n)) f h = ground (
  arith,
  div-lt_self {n = suc m} {k = suc (suc n)} (omega arith) (omega arith),
  zero-div 0,
  zero-div (suc (suc n)),
  div-zero (suc m),
)

-- What an operation that reports success must have found.
abbrev pub Answers : Operation → ℤ → ℤ → CalcResult → Type 0
Answers op a b r =
    (r.ok ≡ true → Exact op a b r.value × (fits r.value ≡ true))
    × (r.ok ≡ false → (v : ℤ) → Exact op a b v → fits v ≡ false)

check_overflow-Answers :
    (op : Operation) (a b exact : ℤ)
    → ((v : ℤ) → Exact op a b v ↔ (v ≡ exact))
    → Answers op a b (check_overflow exact)
unfolding check_overflow
check_overflow-Answers op a b exact same =
    either_case (Answers op a b) (fits exact) _ _
      (λ yes. ((λ _. ((same exact).1 refl, yes)), λ no. ground arith))
      (λ no. ((λ yes. ground arith), λ _ v e. ap fits ((same v).0 e) ∙ no))

no_quotient_by_zero : (a b v : ℤ) → is_zero b ≡ true → IsQuotient a b v → fits v ≡ false
no_quotient_by_zero a b v h q = ground (arith, q.small)

lowest-quotient :
    (a b v : ℤ)
    → (same_int a int64_min && same_int b (negsuc 0)) ≡ true
    → IsQuotient a b v
    → fits v ≡ false
unfolding ◌*ℤ◌ ◌+ℤ◌
lowest-quotient a b v h q = ground (arith, q.small, ap pos_part q.whole, ap neg_part q.whole)

-- Where the operands are 64-bit values, a success reports the exact result (of a division the
-- quotient that truncates toward zero), and it is a 64-bit value; an error is reported only if no
-- exact result is a 64-bit value.
pub calculate-Answers :
    (op : Operation) (a b : ℤ) → fits a ≡ true → fits b ≡ true → Answers op a b (calculate op a b)
unfolding calculate
calculate-Answers add a b fa fb = check_overflow-Answers add a b (a +ℤ b) (λ v. ((λ e. e), λ e. e))
calculate-Answers subtract a b fa fb =
    check_overflow-Answers subtract a b (a -ℤ b) (λ v. ((λ e. e), λ e. e))
calculate-Answers multiply a b fa fb =
    check_overflow-Answers multiply a b (a *ℤ b) (λ v. ((λ e. e), λ e. e))
calculate-Answers divide a b fa fb =
    either_case (Answers divide a b) (is_zero b) _ _
      (λ zero_b. ((λ yes. ground arith), λ _ v q. no_quotient_by_zero a b v zero_b q))
      (λ nonzero.
        either_case (Answers divide a b) (same_int a int64_min && same_int b (negsuc 0)) _ _
          (λ lowest. ((λ yes. ground arith), λ _ v q. lowest-quotient a b v lowest q))
          (λ other. (
            (λ _. (division_truncates a b nonzero, quotient-fits a b fa other)),
            λ no. ground arith,
          )))
