-- ===== src/Parser/Measure.antt =====
-- A call of `next` of src/request_parser.cpp never adds work, and each request that it returns takes
-- some away.
use network_arc_rajasurya.Prelude.{
  ℕ, ◌+◌, ◌≤◌, ◌≡◌, refl, sym, subst, Option, none, some, length, arith, length-drop, either_branch,
}
use network_arc_rajasurya.Request.{Request}
use network_arc_rajasurya.Parser.Result.{Parsed, ok, err, incomplete}
use network_arc_rajasurya.Parser.Framing.{head_end, head_end_bounds, skipped}
use network_arc_rajasurya.Parser.Stream.{
  Stream, view, give_up, read_body, accept_head, read_head, skip_empty_lines, next_of,
}
use network_arc_rajasurya.Parser.Validity.{IsValid}
use network_arc_rajasurya.Parser.Refinement.{viewed, next-view}
use network_arc_rajasurya.Parser.Yields.{measure, Leaves, next_request-Leaves}
use network_arc_rajasurya.Parser.{State, head, body, failed, RequestParser, next, head_too_large}

read_body-measure :
    (s : Stream) (m : ℕ) → length s.unread + 1 ≤ m → measure s ≤ m → measure (read_body s).0 ≤ m
unfolding read_body
read_body-measure s m h k = ground (arith, length-drop s.body_length s.unread)

accept_head-measure :
    (s : Stream) (n m : ℕ) (r : Parsed (Request × ℕ))
    → 1 ≤ n
    → n ≤ length s.unread
    → length s.unread ≤ m
    → measure (accept_head s n r).0 ≤ m
unfolding accept_head give_up
accept_head-measure s n m (err e) one le h = omega arith
accept_head-measure s n m (ok (request, k)) one le h =
    read_body-measure _ m (omega (arith, length-drop n s.unread))
      (omega (arith, length-drop n s.unread))

read_head-measure :
    (s : Stream) (m : ℕ) (e : Option ℕ)
    → head_end s.unread ≡ e
    → s.state ≡ head
    → length s.unread ≤ m
    → measure (read_head s e).0 ≤ m
unfolding read_head give_up
read_head-measure s m none e st h =
    either_branch (λ r. measure r.0 ≤ m) _ (give_up s 431 (head_too_large s.limits)) (s, incomplete)
      (omega arith) (rw st (omega arith))
read_head-measure s m (some n) e st h =
    let (le, two) = head_end_bounds s.unread n e in
    either_branch (λ r. measure r.0 ≤ m) _ (give_up s 431 (head_too_large s.limits)) _ (omega arith)
      (accept_head-measure s n m _ (omega arith) le h)

next_of-measure : (st : State) (s : Stream) → s.state ≡ st → measure (next_of st s).0 ≤ measure s
unfolding next_of
next_of-measure failed s h = omega arith
next_of-measure head s h =
    read_head-measure (skip_empty_lines s) (measure s) _ refl h
      (omega (arith, length-drop (skipped s.unread) s.unread))
next_of-measure body s h = read_body-measure s (measure s) (rw h (omega arith)) (omega arith)

pub next-measure : (p : RequestParser) → IsValid p → measure (view (next p).0) ≤ measure (view p)
next-measure p v =
    subst (λ r. measure r.0 ≤ measure (view p)) (sym (next-view p v))
      (next_of-measure p.state (view p) refl)

pub next-Leaves : (p : RequestParser) → IsValid p → Leaves (view p) (viewed (next p))
next-Leaves p v = subst (Leaves (view p)) (sym (next-view p v)) (next_request-Leaves (view p))
