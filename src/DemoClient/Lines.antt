-- ===== src/DemoClient/Lines.antt =====
-- tools/demo_client.cpp, `ResponseReader`: texts made of lines, and the searches through them.
use network_arc_rajasurya.Prelude.{
  lines_text, ℕ, suc, ◌+◌, ◌≡◌, ◌≤◌, refl, ap, ◌∙◌, Bool, true, false, ◌&&◌, not, inl, inr, List,
  [], ◌∷◌, ◌++◌, some, Bytes, cr, lf, is_empty, length, ◌==◌, all_of, length-append, append_assoc,
  Option-cases, arith,
}
use mathlib.Core.Option
use network_arc_rajasurya.DemoClient.Reader.{starts_with, find_text, crlf, blank_line}

abbrev pub not_cr : ℕ → Bool
not_cr c = not (c == cr)

-- No line is empty or holds a CR.
abbrev pub AreLines : List Bytes → Type 0
AreLines [] = Unit {0}
AreLines (l ∷ ls) = (is_empty l ≡ false) × (all_of not_cr l ≡ true) × AreLines ls

skip_one :
    (pattern : Bytes) (x : ℕ) (xs : Bytes)
    → (cr == x) ≡ false
    → find_text (cr ∷ pattern) (x ∷ xs) ≡ Option.map suc (find_text (cr ∷ pattern) xs)
unfolding find_text starts_with
skip_one pattern x xs h = rw h refl

-- A pattern that begins with CR is not found in a text without CR.
find_text-skip :
    (pattern xs ys : Bytes) (n : ℕ)
    → all_of not_cr xs ≡ true
    → find_text (cr ∷ pattern) ys ≡ some n
    → find_text (cr ∷ pattern) (xs ++ ys) ≡ some (length xs + n)
unfolding all_of
find_text-skip pattern [] ys n h e = e ∙ ap some (omega arith)
find_text-skip pattern (x ∷ xs) ys n h e =
    let (other, rest) = parts x xs h in
    skip_one pattern x (xs ++ ys) other
    ∙ rw (find_text-skip pattern xs ys n rest e) (ap some (omega arith))
  where
    parts :
        (x : ℕ) (xs : Bytes)
        → all_of not_cr (x ∷ xs) ≡ true
        → ((cr == x) ≡ false) × (all_of not_cr xs ≡ true)
    parts x xs h = (ground arith, ground arith)

pub find_crlf-line :
    (l ys : Bytes) → all_of not_cr l ≡ true → find_text crlf (l ++ cr ∷ lf ∷ ys) ≡ some (length l)
find_crlf-line l ys h =
    find_text-skip (lf ∷ []) l (cr ∷ lf ∷ ys) 0 h (unfold find_text starts_with in refl)
    ∙ ap some (omega arith)

-- One end of line is no blank line.
find_blank-next :
    (c : ℕ) (ys : Bytes) (n : ℕ)
    → (c == cr) ≡ false
    → find_text blank_line (c ∷ ys) ≡ some n
    → find_text blank_line (cr ∷ lf ∷ c ∷ ys) ≡ some (suc (suc n))
find_blank-next c ys n other e =
    let step : (find_text blank_line (cr ∷ lf ∷ c ∷ ys))
        ≡ Option.map suc (Option.map suc (find_text blank_line (c ∷ ys))) =
      unfold find_text starts_with in ground arith in
    step ∙ rw e refl

pub find_blank-lines :
    (c : ℕ) (cs : Bytes) (ls : List Bytes) (rest : Bytes)
    → all_of not_cr (c ∷ cs) ≡ true
    → AreLines ls
    → find_text blank_line ((c ∷ cs) ++ cr ∷ lf ∷ (lines_text ls ++ cr ∷ lf ∷ rest))
      ≡ some (length (c ∷ cs) + length (lines_text ls))
find_blank-lines c cs [] rest h a =
    find_text-skip (lf ∷ cr ∷ lf ∷ []) (c ∷ cs) (cr ∷ lf ∷ cr ∷ lf ∷ rest) 0 h
      (unfold find_text starts_with in refl)
find_blank-lines c cs ([] ∷ ls) rest h (e, _, _) = cc
find_blank-lines c cs ((d ∷ ds) ∷ ls) rest h (_, b, a) =
    let more = find_blank-lines d ds ls rest b a in
    let other : (d == cr) ≡ false = unfold all_of in ground arith in
    let here = find_blank-next d _ _ other more in
    rw append_assoc (
      find_text-skip (lf ∷ cr ∷ lf ∷ []) (c ∷ cs) _ _ h here
      ∙ ap some (omega (arith, length-append ds (cr ∷ lf ∷ lines_text ls))))

starts_with-length :
    (pattern xs : Bytes) → starts_with pattern xs ≡ true → length pattern ≤ length xs
unfolding starts_with
starts_with-length [] xs h = omega arith
starts_with-length (p ∷ ps) [] h = cc
starts_with-length (p ∷ ps) (x ∷ xs) h = ground (arith, starts_with-length ps xs)

starts_with-append :
    (pattern xs ys : Bytes)
    → length pattern ≤ length xs
    → starts_with pattern (xs ++ ys) ≡ starts_with pattern xs
unfolding starts_with
starts_with-append [] xs ys h = refl
starts_with-append (p ∷ ps) [] ys h = absurd (omega arith)
starts_with-append (p ∷ ps) (x ∷ xs) ys h =
    ap (λ b. (p == x) && b) (starts_with-append ps xs ys (omega arith))

pub find_text-bound :
    (pattern xs : Bytes) (n : ℕ) → find_text pattern xs ≡ some n → length pattern + n ≤ length xs
unfolding find_text
find_text-bound pattern [] n h = cc
find_text-bound pattern (x ∷ xs) n h = elim (Option-cases (find_text pattern xs)) [
  | inl e ↦ ground (arith, starts_with-length pattern (x ∷ xs))
  | inr (m, e) ↦ ground (arith, starts_with-length pattern (x ∷ xs), find_text-bound pattern xs m e)
]

-- What is found in a part is found in the whole.
pub find_text-append :
    (pattern xs ys : Bytes) (n : ℕ)
    → find_text pattern xs ≡ some n
    → find_text pattern (xs ++ ys) ≡ some n
unfolding find_text
find_text-append pattern [] ys n h = cc
find_text-append pattern (x ∷ xs) ys n h =
    let fits = find_text-bound pattern (x ∷ xs) n (unfold find_text in h) in
    let same = starts_with-append pattern (x ∷ xs) ys (omega arith) in
    elim (Option-cases (find_text pattern xs)) [
      | inl e ↦ ground arith
      | inr (m, e) ↦ ground (arith, find_text-append pattern xs ys m e)
    ]
