-- ===== src/Parser/Lines.antt =====
-- src/request_parser.cpp: the end of a head that is made of lines, and its lines.
use network_arc_rajasurya.Prelude.{
  ℕ, zero, suc, ◌+◌, ◌≤◌, ◌≡◌, refl, ap, ◌∙◌, Bool, true, false, ◌&&◌, not, List, [], ◌∷◌, ◌++◌,
  append_assoc, some, Bytes, cr, lf, is_empty, find, take, length, ◌==◌, all_of, length-append,
  lines_text, drop-line, arith,
}
use mathlib.Core.Option
use network_arc_rajasurya.Parser.Framing.{head_end, skipped}
use network_arc_rajasurya.Parser.Head.{strip_cr, collect_lines}

abbrev pub in_line : ℕ → Bool
in_line c = not (c == lf) && not (c == cr)

-- No line is empty or holds a byte of a line's end.
abbrev pub AreLines : List Bytes → Type 0
AreLines [] = Unit {0}
AreLines (l ∷ ls) = (is_empty l ≡ false) × (all_of in_line l ≡ true) × AreLines ls

first_in_line :
    (c : ℕ) (cs : Bytes)
    → all_of in_line (c ∷ cs) ≡ true
    → ((c == lf) ≡ false) × ((c == cr) ≡ false) × (all_of in_line cs ≡ true)
unfolding all_of
first_in_line c cs h = (ground arith, ground arith, ground arith)

head_end-skip :
    (l ys : Bytes) (n : ℕ)
    → all_of in_line l ≡ true
    → head_end ys ≡ some n
    → head_end (l ++ ys) ≡ some (length l + n)
unfolding head_end
head_end-skip [] ys n h e = e ∙ ap some (omega arith)
head_end-skip (c ∷ cs) ys n h e =
    let (other, _, rest) = first_in_line c cs h in
    rw (other, head_end-skip cs ys n rest e) (ap some (omega arith))

head_end-next :
    (c : ℕ) (ys : Bytes) (n : ℕ)
    → (c == lf) ≡ false
    → (c == cr) ≡ false
    → head_end (c ∷ ys) ≡ some n
    → head_end (cr ∷ lf ∷ c ∷ ys) ≡ some (suc (suc n))
head_end-next c ys n l r e =
    let step : head_end (cr ∷ lf ∷ c ∷ ys) ≡ Option.map suc (Option.map suc (head_end (c ∷ ys))) =
      unfold head_end in rw (l, r) refl in
    step ∙ rw e refl

pub head_end-lines :
    (c : ℕ) (cs : Bytes) (ls : List Bytes) (rest : Bytes)
    → all_of in_line (c ∷ cs) ≡ true
    → AreLines ls
    → head_end ((c ∷ cs) ++ cr ∷ lf ∷ (lines_text ls ++ cr ∷ lf ∷ rest))
      ≡ some (length (c ∷ cs) + (length (lines_text ls) + 4))
head_end-lines c cs [] rest h a =
    head_end-skip (c ∷ cs) (cr ∷ lf ∷ cr ∷ lf ∷ rest) 4 h (unfold head_end in refl)
head_end-lines c cs ([] ∷ ls) rest h (e, _, _) = cc
head_end-lines c cs ((d ∷ ds) ∷ ls) rest h (_, b, a) =
    let more = head_end-lines d ds ls rest b a in
    let (l, r, _) = first_in_line d ds b in
    rw append_assoc (
      head_end-skip (c ∷ cs) _ _ h (head_end-next d _ _ l r more)
      ∙ ap some (omega (arith, length-append ds (cr ∷ lf ∷ lines_text ls))))

-- The same, for a first line that is not taken apart.
pub head_end-text :
    (l : Bytes) (ls : List Bytes) (rest : Bytes)
    → AreLines (l ∷ ls)
    → head_end (l ++ cr ∷ lf ∷ (lines_text ls ++ cr ∷ lf ∷ rest))
      ≡ some (length l + (length (lines_text ls) + 4))
head_end-text [] ls rest (e, _, _) = cc
head_end-text (c ∷ cs) ls rest (_, h, a) = head_end-lines c cs ls rest h a

-- No empty line stands in front of a line.
pub skipped-line :
    (l more : Bytes) → is_empty l ≡ false → all_of in_line l ≡ true → skipped (l ++ more) ≡ 0
skipped-line [] more e h = cc
skipped-line (c ∷ cs) more e h =
    let (other, another, _) = first_in_line c cs h in rw (other, another) refl

find-lf-line :
    (l ys : Bytes) → all_of in_line l ≡ true → find lf (l ++ cr ∷ lf ∷ ys) ≡ some (suc (length l))
unfolding find
find-lf-line [] ys h = refl
find-lf-line (c ∷ cs) ys h =
    let (other, _, rest) = first_in_line c cs h in rw (other, find-lf-line cs ys rest) refl

upto-line : (l ys : Bytes) → take (suc (length l)) (l ++ cr ∷ lf ∷ ys) ≡ l ++ cr ∷ []
upto-line [] ys = refl
upto-line (c ∷ cs) ys = ap (λ t. c ∷ t) (upto-line cs ys)

strip_cr-line : (l : Bytes) → strip_cr (l ++ cr ∷ []) ≡ l
unfolding strip_cr
strip_cr-line [] = refl
strip_cr-line (c ∷ []) = refl
strip_cr-line (c ∷ d ∷ ds) = ap (λ t. c ∷ t) (strip_cr-line (d ∷ ds))

one_line :
    (fuel : ℕ) (head : Bytes) (c : ℕ) (cs text : Bytes)
    → all_of in_line (c ∷ cs) ≡ true
    → collect_lines (suc fuel) head ((c ∷ cs) ++ cr ∷ lf ∷ text)
      ≡ (c ∷ cs) ∷ collect_lines fuel head text
unfolding collect_lines
one_line fuel head c cs text h =
    rw (find-lf-line (c ∷ cs) text h, upto-line cs text, strip_cr-line (c ∷ cs), drop-line cs text)
      refl

-- The lines of a head, up to its blank line.
pub collect_lines-text :
    (fuel : ℕ) (head : Bytes) (ls : List Bytes)
    → AreLines ls
    → length (lines_text ls) + 2 ≤ fuel
    → collect_lines fuel head (lines_text ls ++ cr ∷ lf ∷ []) ≡ ls
collect_lines-text zero head ls a b = absurd (omega arith)
collect_lines-text (suc fuel) head [] a b = unfold collect_lines strip_cr find in refl
collect_lines-text (suc fuel) head ([] ∷ ls) (e, _, _) b = cc
collect_lines-text (suc fuel) head ((c ∷ cs) ∷ ls) (_, h, a) b =
    let text = lines_text ls ++ cr ∷ lf ∷ [] in
    let later =
      collect_lines-text fuel head ls a
        (omega (arith, length-append cs (cr ∷ lf ∷ lines_text ls))) in
    rw append_assoc (one_line fuel head c cs text h ∙ ap (λ t. (c ∷ cs) ∷ t) later)
