-- ===== src/Parser/Growth.antt =====
-- What bytes that arrive later change: nothing of a request that is complete, nor of an error.
use network_arc_rajasurya.Prelude.{
  ℕ, zero, suc, ◌+◌, ◌≤◌, ◌<◌, ◌≡◌, ◌≢◌, inl, inr, refl, sym, ap, subst, ◌∙◌, Bool, true, false, [],
  ◌∷◌, ◌++◌, Option, none, some, Bytes, lf, front_is, drop, length, ltb, if◌then◌else◌, arith,
  Bool-cases, Option-cases, drop-drop, drop-append, take-append, length-append,
}
use network_arc_rajasurya.Request.{Request}
use network_arc_rajasurya.Parser.Result.{Parsed, ok, err, ParseResult, incomplete, complete, error}
use network_arc_rajasurya.Parser.Framing.{
  empty_line, skipped, head_end, head_end_bounds, skipped-le,
}
use network_arc_rajasurya.Parser.Stream.{
  Stream, receive_in, receive, after_body, whole_request, give_up, read_body, accept_head,
  read_head, skip_empty_lines, next_of, next_request,
}
use network_arc_rajasurya.Parser.{State, head, body, failed}

front_is-append : (c : ℕ) (xs w : Bytes) → front_is c xs ≡ true → front_is c (xs ++ w) ≡ true
front_is-append c [] w h = cc
front_is-append c (x ∷ xs) w h = h

empty_line-append : (xs w : Bytes) → empty_line xs ≢ 0 → empty_line (xs ++ w) ≡ empty_line xs
empty_line-append [] w h = absurd (h refl)
empty_line-append (c ∷ cs) w h = ground (arith, front_is-append lf cs w)

-- An empty line that is only seen later ends behind what there was.
empty_line-later :
    (xs w : Bytes) → empty_line xs ≡ 0 → empty_line (xs ++ w) ≢ 0 → length xs < empty_line (xs ++ w)
empty_line-later [] w h k = omega arith
empty_line-later (c ∷ []) w h k = ground arith
empty_line-later (c ∷ d ∷ ds) w h k = ground arith

skipped-append :
    (xs w : Bytes) → skipped (xs ++ w) ≡ skipped xs + skipped (drop (skipped xs) xs ++ w)
skipped-append [] w = omega arith
skipped-append (c ∷ cs) w = ground (arith, skipped-append cs w, front_is-append lf cs w)

skipped-drop : (xs : Bytes) → skipped (drop (skipped xs) xs) ≡ 0
skipped-drop [] = refl
skipped-drop (c ∷ cs) = ground (arith, skipped-drop cs)

skipped_settled : (xs w : Bytes) → 2 ≤ length xs → skipped xs ≡ 0 → skipped (xs ++ w) ≡ 0
skipped_settled [] w h e = absurd (omega arith)
skipped_settled (c ∷ []) w h e = absurd (omega arith)
skipped_settled (c ∷ d ∷ ds) w h e = ground arith

head_end-append : (xs w : Bytes) (n : ℕ) → head_end xs ≡ some n → head_end (xs ++ w) ≡ some n
unfolding head_end
head_end-append [] w n h = cc
head_end-append (c ∷ cs) w zero h = ground arith
head_end-append (c ∷ cs) w (suc n) h =
    ground (arith, empty_line-append cs w, head_end-append cs w n)

head_end-later :
    (xs w : Bytes) (n : ℕ) → head_end xs ≡ none → head_end (xs ++ w) ≡ some n → length xs < n
unfolding head_end
head_end-later [] w n h k = omega (arith, head_end_bounds w n k)
head_end-later (c ∷ cs) w zero h k = ground arith
head_end-later (c ∷ cs) w (suc n) h k = ground (arith, empty_line-later cs w, head_end-later cs w n)

-- The stream `s` with more bytes behind the unread ones, in a state that still reads.
abbrev more : Stream → Bytes → Stream
more s w = record s { unread = s.unread ++ w }

-- What a result becomes when `w` arrives before the call instead of after it.
abbrev pub Grows : Bytes → Stream × ParseResult → Stream × ParseResult → Type 0
Grows w (t, incomplete) after = after ≡ next_request (receive t w)
Grows w (t, complete r) after = after ≡ (receive t w, complete r)
Grows w (t, error e) after = after ≡ (t, error e)

receive_body : (s : Stream) (w : Bytes) → s.state ≡ body → receive s w ≡ more s w
unfolding receive_in
receive_body s w h = ground arith

next_body_state : (s : Stream) → s.state ≡ body → next_request s ≡ read_body s
unfolding next_of
next_body_state s h = ground arith

either-Grows :
    (w : Bytes) (b : Bool) (x y x' y' : Stream × ParseResult)
    → Grows w x x'
    → Grows w y y'
    → Grows w (if b then x else y) (if b then x' else y')
either-Grows w true x y x' y' h k = h
either-Grows w false x y x' y' h k = k

read_body-Grows :
    (s : Stream) (w : Bytes) → s.state ≡ body → Grows w (read_body s) (read_body (more s w))
read_body-Grows s w h = elim (Bool-cases (ltb (length s.unread) s.body_length)) [
  | inl short ↦
      let result : read_body s ≡ (s, incomplete) = unfold read_body in ground arith in
      subst (λ r. Grows w r (read_body (more s w))) (sym result)
        (sym (ap next_request (receive_body s w h) ∙ next_body_state (more s w) h))
  | inr enough ↦
      let result : read_body s ≡ (after_body s, complete (whole_request s)) =
        unfold read_body in ground arith in
      subst (λ r. Grows w r (read_body (more s w))) (sym result)
        (unfold read_body receive_in in
          ground (
            arith,
            length-append s.unread w,
            take-append s.body_length s.unread w,
            drop-append s.body_length s.unread w,
          ))
]

give_up-Grows :
    (s : Stream) (w : Bytes) (status : ℕ) (message : Bytes)
    → Grows w (give_up s status message) (give_up (more s w) status message)
unfolding give_up
give_up-Grows s w status message = refl

accept_head-Grows :
    (s : Stream) (w : Bytes) (n : ℕ) (r : Parsed (Request × ℕ))
    → n ≤ length s.unread
    → Grows w (accept_head s n r) (accept_head (more s w) n r)
unfolding accept_head
accept_head-Grows s w n (err e) h = give_up-Grows s w e.status e.message
accept_head-Grows s w n (ok (request, body_length)) h =
    rw (drop-append n s.unread w h) (read_body-Grows _ w refl)

read_head-Grows :
    (s : Stream) (w : Bytes) (n : ℕ)
    → n ≤ length s.unread
    → Grows w (read_head s (some n)) (read_head (more s w) (some n))
unfolding read_head
read_head-Grows s w n h = rw (take-append n s.unread w h) (
    either-Grows w (ltb s.limits.max_header_bytes n) _ _ _ _ (give_up-Grows s w 431 _)
      (accept_head-Grows s w n _ h))

-- With no end of the head in sight, more bytes make no end within the limit.
read_head-give_up :
    (s : Stream) (w : Bytes)
    → s.limits.max_header_bytes < length s.unread
    → head_end s.unread ≡ none
    → read_head (more s w) (head_end (s.unread ++ w)) ≡ read_head s none
unfolding read_head give_up
read_head-give_up s w h e = elim (Option-cases (head_end (s.unread ++ w))) [
  | inl later_none ↦ rw later_none (ground (arith, length-append s.unread w))
  | inr (n, later) ↦ rw later (ground (arith, head_end-later s.unread w n e later))
]

-- The empty lines may be skipped in two turns.
skip-more :
    (s : Stream) (w : Bytes)
    → skip_empty_lines (more s w) ≡ skip_empty_lines (more (skip_empty_lines s) w)
skip-more s w =
    let a = skipped s.unread in
    let b = skipped (drop a s.unread ++ w) in
    let sum : skipped (s.unread ++ w) ≡ a + b = skipped-append s.unread w in
    let rest : drop (a + b) (s.unread ++ w) ≡ drop b (drop a s.unread ++ w) =
      sym (drop-drop a b (a + b) (s.unread ++ w) refl)
      ∙ ap (drop b) (drop-append a s.unread w (skipped-le s.unread)) in
    rw sum (rw rest (ground arith))

-- Nothing is skipped behind two bytes that stay.
skip_settled :
    (s : Stream) (w : Bytes)
    → 2 ≤ length (skip_empty_lines s).unread
    → skip_empty_lines (more (skip_empty_lines s) w) ≡ more (skip_empty_lines s) w
skip_settled s w h =
    rw (skipped_settled (skip_empty_lines s).unread w h (skipped-drop s.unread)) (ground arith)

abbrev read_from : Stream → Stream × ParseResult
read_from t = read_head t (head_end t.unread)

read_head_over :
    (t : Stream) (w : Bytes) (after : Stream × ParseResult)
    → t.limits.max_header_bytes < length t.unread
    → after ≡ read_head t none
    → Grows w (read_head t none) after
unfolding read_head give_up
read_head_over t w after long h =
    let over : ltb t.limits.max_header_bytes (length t.unread) ≡ true = ground arith in
    rw over (rw over at h)

read_from-Grows :
    (t : Stream) (w : Bytes) (e : Option ℕ)
    → 1 ≤ t.limits.max_header_bytes
    → t.state ≡ head
    → head_end t.unread ≡ e
    → (2 ≤ length t.unread → skip_empty_lines (more t w) ≡ more t w)
    → Grows w (read_head t e) (read_from (skip_empty_lines (more t w)))
read_from-Grows t w (some n) l st h settle =
    let (le, two) = head_end_bounds t.unread n h in
    subst (λ x. Grows w (read_head t (some n)) (read_from x)) (sym (settle (omega arith)))
      (subst (λ e. Grows w (read_head t (some n)) (read_head (more t w) e))
        (sym (head_end-append t.unread w n h)) (read_head-Grows t w n le))
read_from-Grows t w none l st h settle =
    elim (Bool-cases (ltb t.limits.max_header_bytes (length t.unread))) [
      | inl over ↦
          let long : t.limits.max_header_bytes < length t.unread = ground arith in
          read_head_over t w _ long
            (ap read_from (settle (omega arith)) ∙ read_head-give_up t w long h)
      | inr under ↦
          let result : read_head t none ≡ (t, incomplete) = unfold read_head in ground arith in
          subst (λ r. Grows w r (read_from (skip_empty_lines (more t w)))) (sym result)
            (unfold next_of receive_in in ground arith)
    ]

pub receive_in-state : (st : State) (s : Stream) (w : Bytes) → (receive_in st s w).state ≡ s.state
unfolding receive_in
receive_in-state head s w = refl
receive_in-state body s w = refl
receive_in-state failed s w = refl

next_of-Grows :
    (st : State) (s : Stream) (w : Bytes)
    → 1 ≤ s.limits.max_header_bytes
    → s.state ≡ st
    → Grows w (next_of st s) (next_of st (receive_in st s w))
unfolding next_of receive_in
next_of-Grows failed s w l h = refl
next_of-Grows head s w l h =
    subst (λ x. Grows w (read_from (skip_empty_lines s)) (read_from x)) (sym (skip-more s w))
      (read_from-Grows (skip_empty_lines s) w _ l h refl (skip_settled s w))
next_of-Grows body s w l h = read_body-Grows s w h

-- A call that returns a request or an error returns the same when more bytes have arrived, which
-- then wait behind the request; one that returns nothing can be skipped.
pub next_request-Grows :
    (s : Stream) (w : Bytes)
    → 1 ≤ s.limits.max_header_bytes
    → Grows w (next_request s) (next_request (receive s w))
next_request-Grows s w l =
    subst (λ st. Grows w (next_request s) (next_of st (receive s w)))
      (sym (receive_in-state s.state s w)) (next_of-Grows s.state s w l refl)
