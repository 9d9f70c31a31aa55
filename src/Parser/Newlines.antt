-- ===== src/Parser/Newlines.antt =====
-- The loop of `find_end_of_head` of src/request_parser.cpp finds the end of the head, or a position
-- from which the search may resume.
use network_arc_rajasurya.Prelude.{
  ℕ, zero, suc, ◌+◌, ◌-◌, ◌≤◌, ◌<◌, ◌≡◌, ◌⊎◌, inl, inr, refl, sym, ap, subst, ◌∙◌, false, ◌&&◌,
  ◌||◌, [], ◌∷◌, ◌++◌, none, some, Bytes, lf, cr, front_is, find, find_from, drop, length, ◌==◌,
  if◌then◌else◌, arith, Bool-cases, Option-cases, length-drop, drop-drop, append-nil,
}
use network_arc_rajasurya.Parser.Framing.{
  ends_head, head_end, IsClear, head_end-clear, head_end-all_clear, IsClear-add,
}
use network_arc_rajasurya.Parser.Search.{byte_is-drop, drop-suc, look_ahead}
use network_arc_rajasurya.Parser.{HeadSearch, found_at, resume_at, search_loop}

find-none : (xs : Bytes) → find lf xs ≡ none → IsClear (length xs) xs
unfolding find
find-none [] h = tt
find-none (x ∷ xs) h = ((λ w. ground arith), find-none xs (ground arith))

find-some :
    (xs : Bytes) (i : ℕ) → find lf xs ≡ some i → (r : Bytes) × IsClear i xs × (drop i xs ≡ lf ∷ r)
unfolding find
find-some [] i h = cc
find-some (x ∷ xs) zero h = (xs, tt, ground arith)
find-some (x ∷ xs) (suc i) h =
    let (r, clear, rest) = find-some xs i (ground arith) in (r, ((λ w. ground arith), clear), rest)

-- The part of the loop behind a newline, on the bytes that follow it.
abbrev decide_newline : ℕ → Bytes → HeadSearch → HeadSearch
decide_newline newline r later =
    if front_is lf r
    then found_at (newline + 2)
    else if front_is cr r && front_is lf (drop 1 r)
    then found_at (newline + 3)
    else if length r == 0 || length r == 1 && front_is cr r
    then resume_at newline
    else later

search_loop-newline :
    (fuel : ℕ) (buffer : Bytes) (pos newline : ℕ) (r : Bytes)
    → find_from lf pos buffer ≡ some newline
    → drop newline buffer ≡ lf ∷ r
    → search_loop (suc fuel) buffer pos
      ≡ decide_newline newline r (search_loop fuel buffer (suc newline))
unfolding search_loop
search_loop-newline fuel buffer pos newline r f e =
    rw (f, search_loop)
      (ground (
        arith,
        look_ahead buffer (suc newline) lf,
        byte_is-drop buffer (suc newline) cr,
        look_ahead buffer (suc newline + 1) lf,
        drop-suc buffer newline e,
        drop-drop (suc newline) 1 (suc newline + 1) buffer refl,
        ap (front_is lf) (drop-suc buffer newline e),
        ap (front_is cr) (drop-suc buffer newline e),
        ap (drop 1) (drop-suc buffer newline e),
        length-drop newline buffer,
        ap length e,
      ))

-- The outcome on the bytes `xs` that stand at `pos`.
abbrev pub Finds : Bytes → ℕ → HeadSearch → Type 0
Finds xs pos s =
    ((n : ℕ) × (head_end xs ≡ some n) × (s ≡ found_at (pos + n)))
    ⊎ ((q : ℕ) × (head_end xs ≡ none) × (s ≡ resume_at q) × (pos ≤ q) × IsClear (q - pos) xs)

pub Finds-of_eq :
    (xs : Bytes) (pos : ℕ) (s t : HeadSearch) → t ≡ s → Finds xs pos s → Finds xs pos t
Finds-of_eq xs pos s t e h = subst (Finds xs pos) (sym e) h

Finds-later :
    (newline : ℕ) (r : Bytes) (later : HeadSearch)
    → ((w : Bytes) → ends_head lf (r ++ w) ≡ false)
    → Finds r (suc newline) later
    → Finds (lf ∷ r) newline later
unfolding head_end
Finds-later newline r later no_end (inl (n, e, s)) =
    inl (suc n, ground (arith, no_end [], append-nil r), s ∙ ap found_at (omega arith))
Finds-later newline r later no_end (inr (q, e, s, le, clear)) =
    let sum : q - newline ≡ suc (q - suc newline) = omega arith in
    inr (q, ground (arith, no_end [], append-nil r), s, omega arith, rw sum (no_end, clear))

Finds-resume :
    (newline : ℕ) (xs : Bytes) → head_end xs ≡ none → Finds xs newline (resume_at newline)
Finds-resume newline xs e =
    let here : newline - newline ≡ 0 = omega arith in
    inr (newline, e, refl, omega arith, rw here tt)

decide_newline-Finds :
    (newline : ℕ) (r : Bytes) (later : HeadSearch)
    → Finds r (suc newline) later
    → Finds (lf ∷ r) newline (decide_newline newline r later)
unfolding head_end
decide_newline-Finds newline [] later h = Finds-resume newline _ (unfold head_end in refl)
decide_newline-Finds newline (d ∷ []) later h = elim (Bool-cases (d == lf)) [
  | inl is_lf ↦ inl (2, ground arith, ground arith)
  | inr not_lf ↦ elim (Bool-cases (d == cr)) [
    | inl is_cr ↦
        Finds-of_eq _ _ (resume_at newline) _ (ground arith)
          (Finds-resume newline (lf ∷ d ∷ []) (ground arith))
    | inr not_cr ↦
        Finds-of_eq _ _ later _ (ground arith)
          (Finds-later newline (d ∷ []) later (λ w. ground arith) h)
  ]
]
decide_newline-Finds newline (d ∷ e ∷ es) later h = elim (Bool-cases (d == lf)) [
  | inl is_lf ↦ inl (2, ground arith, ground arith)
  | inr not_lf ↦ elim (Bool-cases (d == cr && e == lf)) [
    | inl crlf ↦ inl (3, ground arith, ground arith)
    | inr other ↦
        Finds-of_eq _ _ later _ (ground arith)
          (Finds-later newline (d ∷ e ∷ es) later (λ w. ground arith) h)
  ]
]

find_from-none : (pos : ℕ) (xs : Bytes) → find_from lf pos xs ≡ none → find lf (drop pos xs) ≡ none
unfolding find_from
find_from-none pos xs h = ground arith

find_from-some :
    (pos : ℕ) (xs : Bytes) (newline : ℕ)
    → find_from lf pos xs ≡ some newline
    → (i : ℕ) × (find lf (drop pos xs) ≡ some i) × (newline ≡ pos + i)
unfolding find_from
find_from-some pos xs newline h = ground arith

pub Finds-clear :
    (i pos newline : ℕ) (xs : Bytes) (s : HeadSearch)
    → newline ≡ pos + i
    → IsClear i xs
    → Finds (drop i xs) newline s
    → Finds xs pos s
Finds-clear i pos newline xs s e clear (inl (n, h, t)) =
    inl (i + n, ground (arith, head_end-clear i xs clear), t ∙ ap found_at (omega arith))
Finds-clear i pos newline xs s e clear (inr (q, h, t, le, rest)) = inr (
  q,
  ground (arith, head_end-clear i xs clear),
  t,
  omega arith,
  IsClear-add i (q - newline) (q - pos) xs (omega arith) clear rest,
)

-- From `pos` on, with a round for each byte that is left and one more.
pub search_loop-Finds :
    (fuel : ℕ) (buffer : Bytes) (pos : ℕ)
    → pos ≤ length buffer
    → length buffer - pos < fuel
    → Finds (drop pos buffer) pos (search_loop fuel buffer pos)
search_loop-Finds zero buffer pos h f = absurd (omega arith)
search_loop-Finds (suc fuel) buffer pos h f = elim (Option-cases (find_from lf pos buffer)) [
  | inl e ↦
      let clear = find-none (drop pos buffer) (find_from-none pos buffer e) in
      let whole : length buffer - pos ≡ length (drop pos buffer) = sym (length-drop pos buffer) in
      Finds-of_eq _ _ (resume_at (length buffer)) _
        (unfold search_loop in (rw (e, search_loop) refl))
        (inr (length buffer, head_end-all_clear (drop pos buffer) clear, refl, h, rw whole clear))
  | inr (newline, e) ↦
      let (i, g, at) = find_from-some pos buffer newline e in
      let (r, clear, rest) = find-some (drop pos buffer) i g in
      let here : drop newline buffer ≡ lf ∷ r =
        sym (drop-drop pos i newline buffer (sym at)) ∙ rest in
      let next_line = drop-suc buffer newline here in
      let in_buffer : newline < length buffer =
        ground (arith, length-drop newline buffer, ap length here) in
      let later = search_loop fuel buffer (suc newline) in
      let later_Finds = search_loop-Finds fuel buffer (suc newline) (omega arith) (omega arith) in
      let decided =
        decide_newline-Finds newline r later
          (subst (λ t. Finds t (suc newline) later) next_line later_Finds) in
      Finds-of_eq _ _ _ _ (search_loop-newline fuel buffer pos newline r e here) (
        Finds-clear i pos newline (drop pos buffer) _ at clear
          (subst (λ t. Finds t newline (decide_newline newline r later)) (sym rest) decided))
]
