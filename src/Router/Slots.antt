-- ===== src/Router/Slots.antt =====
-- src/router.cpp: the queries that `parse_operands` accepts.
use network_arc_rajasurya.Prelude.{
  ◌≡◌, ◌⊎◌, inl, inr, refl, ap, subst, ◌∙◌, true, false, not, List, [], ◌∷◌, ◌++◌, Option, none,
  some, Bytes, codes, equal, arith, either_case, Bool-cases, ==_iff,
}
use network_arc_rajasurya.Prelude.Int.{ℤ}
use network_arc_rajasurya.Query.{parse_query, is_ok}
use network_arc_rajasurya.Calculator.{
  IntParse, int_ok, empty, not_an_integer, out_of_range, from_chars, parse_int64, fits,
}
use network_arc_rajasurya.Router.Operands.{
  Checked, valid, invalid, ◌>>=◌, operand_of, parse_operand, Slots, is_set, fill_slot, fill_slots,
  both_texts, parse_operands,
}

pub equal-eq : (xs ys : Bytes) → equal xs ys ≡ true → xs ≡ ys
unfolding equal
equal-eq [] [] h = refl
equal-eq [] (y ∷ ys) h = ground arith
equal-eq (x ∷ xs) [] h = ground arith
equal-eq (x ∷ xs) (y ∷ ys) h = ground (arith, equal-eq xs ys, ==_iff x y)

-- The list holds one parameter a and one parameter b, in either order, and nothing else.
abbrev pub AreOperands : List (Bytes × Bytes) → Bytes → Bytes → Type 0
AreOperands ps x y =
    (ps ≡ (codes "a", x) ∷ (codes "b", y) ∷ []) ⊎ (ps ≡ (codes "b", y) ∷ (codes "a", x) ∷ [])

-- What a parameter that is accepted adds.
abbrev Adds : Bytes → Bytes → Slots → Slots → Type 0
Adds name value s t =
    ((name ≡ codes "a") × (s.a_text ≡ none) × (t ≡ record s { a_text = some value }))
    ⊎ ((name ≡ codes "b") × (s.b_text ≡ none) × (t ≡ record s { b_text = some value }))

is_set-none : (o : Option Bytes) → is_set o ≡ false → o ≡ none
is_set-none none e = refl
is_set-none (some x) e = ground arith

fill_slot-Adds :
    (name value : Bytes) (s t : Slots) → fill_slot name value s ≡ valid t → Adds name value s t
unfolding fill_slot
fill_slot-Adds name value s t e = elim (Bool-cases (equal name (codes "a"))) [
  | inl a ↦ inl (equal-eq name (codes "a") a, ground (arith, is_set-none s.a_text), ground arith)
  | inr not_a ↦ elim (Bool-cases (equal name (codes "b"))) [
    | inl b ↦ inr (equal-eq name (codes "b") b, ground (arith, is_set-none s.b_text), ground arith)
    | inr not_b ↦ ground arith
  ]
]

abbrev slots : Option Bytes → Option Bytes → Slots
slots a b = record { a_text = a; b_text = b }

>>=-eq-valid {ℓ κ} :
    {A : Type ℓ} {B : Type κ} (m : Checked A) (f : A → Checked B) {b : B}
    → (m >>= f) ≡ valid b
    → (a : A) × (m ≡ valid a) × (f a ≡ valid b)
>>=-eq-valid (valid a) f e = (a, refl, e)
>>=-eq-valid (invalid message) f e = cc

-- The first parameter adds to the slots, and the rest goes on from there.
first_parameter :
    (name value : Bytes) (ps : List (Bytes × Bytes)) (s t : Slots)
    → fill_slots ((name, value) ∷ ps) s ≡ valid t
    → (u : Slots) × Adds name value s u × (fill_slots ps u ≡ valid t)
unfolding fill_slots
first_parameter name value ps s t e =
    let (u, added, later) = >>=-eq-valid (fill_slot name value s) (fill_slots ps) e in
    (u, fill_slot-Adds name value s u added, later)

module _ (x y : Bytes) where
  -- From `s` on, the parameters that lead to both slots filled.
  abbrev Fills : List (Bytes × Bytes) → Slots → Type 0
  Fills ps s = fill_slots ps s ≡ valid (slots (some x) (some y))

  full_slots :
      (ps : List (Bytes × Bytes)) (u v : Bytes)
      → Fills ps (slots (some u) (some v))
      → (ps ≡ []) × (u ≡ x) × (v ≡ y)
  full_slots [] u v e = unfold fill_slots in (refl, ground arith, ground arith)
  full_slots ((name, value) ∷ ps) u v e =
      let (s, added, later) = first_parameter name value ps _ _ e in
      elim added [
        | inl (is_a, free, filled) ↦ absurd (ground arith)
        | inr (is_b, free, filled) ↦ absurd (ground arith)
      ]

  b_missing :
      (ps : List (Bytes × Bytes)) (u : Bytes)
      → Fills ps (slots (some u) none)
      → (ps ≡ (codes "b", y) ∷ []) × (u ≡ x)
  b_missing [] u e = absurd (unfold fill_slots in ground arith)
  b_missing ((name, value) ∷ ps) u e =
      let (s, added, later) = first_parameter name value ps _ _ e in
      elim added [
        | inl (is_a, free, filled) ↦ absurd (ground arith)
        | inr (is_b, free, filled) ↦
            let (done, first, second) = full_slots ps u value (subst (Fills ps) filled later) in
            (rw (is_b, second, done) refl, first)
      ]

  a_missing :
      (ps : List (Bytes × Bytes)) (v : Bytes)
      → Fills ps (slots none (some v))
      → (ps ≡ (codes "a", x) ∷ []) × (v ≡ y)
  a_missing [] v e = absurd (unfold fill_slots in ground arith)
  a_missing ((name, value) ∷ ps) v e =
      let (s, added, later) = first_parameter name value ps _ _ e in
      elim added [
        | inl (is_a, free, filled) ↦
            let (done, first, second) = full_slots ps value v (subst (Fills ps) filled later) in
            (rw (is_a, first, done) refl, second)
        | inr (is_b, free, filled) ↦ absurd (ground arith)
      ]

  both_missing : (ps : List (Bytes × Bytes)) → Fills ps (slots none none) → AreOperands ps x y
  both_missing [] e = absurd (unfold fill_slots in ground arith)
  both_missing ((name, value) ∷ ps) e =
      let (s, added, later) = first_parameter name value ps _ _ e in
      elim added [
        | inl (is_a, free, filled) ↦
            let (rest, same) = b_missing ps value (subst (Fills ps) filled later) in
            inl (rw (is_a, same, rest) refl)
        | inr (is_b, free, filled) ↦
            let (rest, same) = a_missing ps value (subst (Fills ps) filled later) in
            inr (rw (is_b, same, rest) refl)
      ]

-- What the text of an operand must be.
abbrev pub IsOperand : Bytes → ℤ → Type 0
IsOperand text v = (parse_int64 text ≡ int_ok v) × (fits v ≡ true)

from_chars-fits : (text : Bytes) (v : ℤ) → from_chars text ≡ int_ok v → fits v ≡ true
unfolding from_chars
from_chars-fits text v e = ground arith

parse_int64-fits : (text : Bytes) (v : ℤ) → parse_int64 text ≡ int_ok v → fits v ≡ true
unfolding parse_int64
parse_int64-fits text v e = ground (arith, from_chars-fits text v)

parse_operand-IsOperand :
    (name text : Bytes) (v : ℤ) → parse_operand name text ≡ valid v → IsOperand text v
unfolding parse_operand
parse_operand-IsOperand name text v e =
    let h = found (codes "query parameter '" ++ (name ++ codes "'")) text (parse_int64 text) v e in
    (h, parse_int64-fits text v h)
  where
    found :
        (quoted text : Bytes) (p : IntParse) (v : ℤ)
        → operand_of quoted text p ≡ valid v
        → p ≡ int_ok v
    found quoted text (int_ok u) v e = cc
    found quoted text empty v e = cc
    found quoted text not_an_integer v e = cc
    found quoted text out_of_range v e = cc

-- The query is well formed and gives both operands, each once, and nothing else.
pub record Operands (query : Bytes) (a b : ℤ) : Type 0 where
  pub first : Bytes
  pub second : Bytes
  pub well_formed : is_ok (parse_query query) ≡ true
  pub parameters : AreOperands (parse_query query).parameters first second
  pub first_value : IsOperand first a
  pub second_value : IsOperand second b

both_texts-valid :
    (s : Slots) (x y : Bytes)
    → both_texts s.a_text s.b_text ≡ valid (x, y)
    → s ≡ slots (some x) (some y)
both_texts-valid s x y e = texts s.a_text s.b_text e
  where
    texts :
        (o p : Option Bytes) → both_texts o p ≡ valid (x, y) → slots o p ≡ slots (some x) (some y)
    texts none none e = cc
    texts none (some b) e = cc
    texts (some a) none e = cc
    texts (some a) (some b) e = cc

-- The chain behind the query.
abbrev read_parameters : List (Bytes × Bytes) → Checked (ℤ × ℤ)
read_parameters parameters = do
  slots ← fill_slots parameters (record { a_text = none; b_text = none })
  texts ← both_texts slots.a_text slots.b_text
  a ← parse_operand (codes "a") texts.0
  b ← parse_operand (codes "b") texts.1
  valid (a, b)

read_parameters-Operands :
    (query : Bytes) (a b : ℤ)
    → is_ok (parse_query query) ≡ true
    → read_parameters (parse_query query).parameters ≡ valid (a, b)
    → Operands query a b
read_parameters-Operands query a b ok e =
    let ps = (parse_query query).parameters in
    let (s, filled, e1) = >>=-eq-valid (fill_slots ps (slots none none)) _ e in
    let ((x, y), both, e2) = >>=-eq-valid (both_texts s.a_text s.b_text) _ e1 in
    let (u, first, e3) = >>=-eq-valid (parse_operand (codes "a") x) _ e2 in
    let (v, second, e4) = >>=-eq-valid (parse_operand (codes "b") y) _ e3 in
    let first_same : u ≡ a = cc in
    let second_same : v ≡ b = cc in
    record {
      first = x;
      second = y;
      well_formed = ok;
      parameters = both_missing x y ps (filled ∙ ap valid (both_texts-valid s x y both));
      first_value = subst (IsOperand x) first_same (parse_operand-IsOperand (codes "a") x u first);
      second_value =
          subst (IsOperand y) second_same (parse_operand-IsOperand (codes "b") y v second);
    }

pub parse_operands-Operands :
    (query : Bytes) (a b : ℤ) → parse_operands query ≡ valid (a, b) → Operands query a b
unfolding parse_operands
parse_operands-Operands query a b =
    either_case (λ r. r ≡ valid (a, b) → Operands query a b) (not (is_ok (parse_query query))) _ _
      (λ _ e. absurd (cc)) (λ ok e. read_parameters-Operands query a b (ground arith) e)
