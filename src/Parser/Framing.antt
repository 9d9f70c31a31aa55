-- ===== src/Parser/Framing.antt =====
-- What `find_end_of_head` and `skip_empty_lines_before_request` of src/request_parser.cpp look for,
-- said of the unread bytes alone, with no buffer and no position to resume from.
use mathlib.Core.Option
use network_arc_rajasurya.Prelude.{
  ℕ, zero, suc, ◌+◌, ◌-◌, ◌≤◌, ◌≡◌, refl, Bool, false, ◌&&◌, ◌||◌, not, [], ◌∷◌, ◌++◌, Option, none,
  some, append_assoc, append-nil, Bytes, lf, cr, front_is, drop, length, ◌==◌, if◌then◌else◌, arith,
}

-- The size of an empty line that the bytes begin with, or 0.
abbrev pub empty_line : Bytes → ℕ
empty_line [] = 0
empty_line (c ∷ cs) = if c == lf then 1 else if c == cr && front_is lf cs then 2 else 0

-- How many bytes of empty lines stand in front.
abbrev pub skipped : Bytes → ℕ
skipped [] = 0
skipped (c ∷ cs) = if c == lf || c == cr && front_is lf cs then suc (skipped cs) else 0

-- A line ends here and an empty line follows.
abbrev pub ends_head : ℕ → Bytes → Bool
ends_head c cs = c == lf && not (empty_line cs == 0)

-- The size of the head: up to and with the first empty line that follows a line's end.
unfoldable pub head_end : Bytes → Option ℕ
head_end [] = none
head_end (c ∷ cs) =
    if ends_head c cs then some (suc (empty_line cs)) else Option.map suc (head_end cs)

-- The head does not end at one of the first `k` bytes, whatever is received later.
abbrev pub IsClear : ℕ → Bytes → Type 0
IsClear zero xs = Unit {0}
IsClear (suc k) [] = ⊥
IsClear (suc k) (c ∷ cs) = ((later : Bytes) → ends_head c (cs ++ later) ≡ false) × IsClear k cs

pub IsClear-append : (k : ℕ) (xs later : Bytes) → IsClear k xs → IsClear k (xs ++ later)
IsClear-append zero xs later h = tt
IsClear-append (suc k) [] later h = absurd h
IsClear-append (suc k) (c ∷ cs) later h =
    (λ w. rw append_assoc (h.0 (later ++ w)), IsClear-append k cs later h.1)

pub IsClear-drop : (n k : ℕ) (xs : Bytes) → IsClear k xs → IsClear (k - n) (drop n xs)
IsClear-drop zero k xs h = let e : k - 0 ≡ k = omega arith in rw e h
IsClear-drop (suc n) zero xs h = let e : 0 - suc n ≡ 0 = omega arith in rw e tt
IsClear-drop (suc n) (suc k) [] h = absurd h
IsClear-drop (suc n) (suc k) (c ∷ cs) h =
    let e : suc k - suc n ≡ k - n = omega arith in rw e (IsClear-drop n k cs h.1)

pub IsClear-add :
    (i j k : ℕ) (xs : Bytes) → i + j ≡ k → IsClear i xs → IsClear j (drop i xs) → IsClear k xs
IsClear-add zero j k xs e h t = let e' : k ≡ j = omega arith in rw e' t
IsClear-add (suc i) j zero xs e h t = tt
IsClear-add (suc i) j (suc k) [] e h t = absurd h
IsClear-add (suc i) j (suc k) (c ∷ cs) e h t = (h.0, IsClear-add i j k cs (omega arith) h.1 t)

pub IsClear-le : (k : ℕ) (xs : Bytes) → IsClear k xs → k ≤ length xs
IsClear-le zero xs h = omega arith
IsClear-le (suc k) [] h = absurd h
IsClear-le (suc k) (c ∷ cs) h = omega (arith, IsClear-le k cs h.1)

-- The search may start behind the clear bytes.
pub head_end-clear :
    (k : ℕ) (xs : Bytes)
    → IsClear k xs
    → head_end xs ≡ Option.map (λ n. k + n) (head_end (drop k xs))
unfolding head_end
head_end-clear zero xs h = ground arith
head_end-clear (suc k) [] h = absurd h
head_end-clear (suc k) (c ∷ cs) h =
    rw (rw append-nil at (h.0 [])) (ground (arith, head_end-clear k cs h.1))

pub head_end-all_clear : (xs : Bytes) → IsClear (length xs) xs → head_end xs ≡ none
unfolding head_end
head_end-all_clear [] h = refl
head_end-all_clear (c ∷ cs) h =
    rw (rw append-nil at (h.0 [])) (ground (arith, head_end-all_clear cs h.1))

pub skipped-le : (xs : Bytes) → skipped xs ≤ length xs
skipped-le [] = omega arith
skipped-le (c ∷ cs) = ground (arith, skipped-le cs)

empty_line-le : (xs : Bytes) → empty_line xs ≤ length xs
empty_line-le [] = omega arith
empty_line-le (c ∷ []) = ground arith
empty_line-le (c ∷ d ∷ ds) = ground arith

-- A head is in the bytes, and holds a line's end and an empty line.
pub head_end_bounds : (xs : Bytes) (n : ℕ) → head_end xs ≡ some n → (n ≤ length xs) × (2 ≤ n)
unfolding head_end
head_end_bounds [] n h = cc
head_end_bounds (c ∷ cs) zero h = ground (arith, empty_line-le cs)
head_end_bounds (c ∷ cs) (suc n) h = ground (arith, empty_line-le cs, head_end_bounds cs n)
