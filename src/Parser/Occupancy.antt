-- ===== src/Parser/Occupancy.antt =====
-- How much of src/request_parser.cpp's buffer is occupied: reads add what they bring, and `next`
-- adds nothing.
use network_arc_rajasurya.Prelude.{
  ℕ, ◌+◌, ◌≤◌, ◌≡◌, refl, sym, subst, Option, none, some, Bytes, length, arith, length-drop,
  length-append, either_branch,
}
use network_arc_rajasurya.Request.{Request}
use network_arc_rajasurya.Parser.Result.{Parsed, ok, err, ParseResult, incomplete, complete, error}
use network_arc_rajasurya.Parser.Framing.{skipped}
use network_arc_rajasurya.Parser.Stream.{
  Stream, view, receive_in, give_up, read_body, accept_head, read_head, skip_empty_lines, next_of,
}
use network_arc_rajasurya.Parser.Validity.{IsValid, feed-view}
use network_arc_rajasurya.Parser.Refinement.{viewed, next-view}
use network_arc_rajasurya.Parser.Bounds.{BodyLe, Starves, next_request-Starves}
use network_arc_rajasurya.Parser.{State, head, body, failed, RequestParser, feed, next}

-- The limits stay, and no more is unread than before.
abbrev pub Shrinks : Stream → Stream × ParseResult → Type 0
Shrinks s r = (r.0.limits ≡ s.limits) × (length r.0.unread ≤ length s.unread)

read_body-Shrinks :
    (s t : Stream)
    → t.limits ≡ s.limits
    → length t.unread ≤ length s.unread
    → Shrinks s (read_body t)
unfolding read_body
read_body-Shrinks s t l le = ground (arith, length-drop t.body_length t.unread)

accept_head-Shrinks :
    (s t : Stream) (n : ℕ) (r : Parsed (Request × ℕ))
    → t.limits ≡ s.limits
    → length t.unread ≤ length s.unread
    → Shrinks s (accept_head t n r)
unfolding accept_head give_up
accept_head-Shrinks s t n (err e) l le = (l, omega arith)
accept_head-Shrinks s t n (ok (request, k)) l le =
    read_body-Shrinks s _ l (omega (arith, length-drop n t.unread))

read_head-Shrinks :
    (s t : Stream) (e : Option ℕ)
    → t.limits ≡ s.limits
    → length t.unread ≤ length s.unread
    → Shrinks s (read_head t e)
unfolding read_head give_up
read_head-Shrinks s t none l le = ground arith
read_head-Shrinks s t (some n) l le =
    either_branch (Shrinks s) _ (give_up t 431 _) _ (l, omega arith)
      (accept_head-Shrinks s t n _ l le)

next_of-Shrinks : (st : State) (s : Stream) → Shrinks s (next_of st s)
unfolding next_of
next_of-Shrinks failed s = (refl, omega arith)
next_of-Shrinks head s =
    read_head-Shrinks s (skip_empty_lines s) _ refl
      (omega (arith, length-drop (skipped s.unread) s.unread))
next_of-Shrinks body s = read_body-Shrinks s s refl (omega arith)

-- `next` keeps the limits and never occupies more than before.
pub next-Shrinks : (p : RequestParser) → IsValid p → Shrinks (view p) (viewed (next p))
next-Shrinks p v = subst (Shrinks (view p)) (sym (next-view p v)) (next_of-Shrinks p.state (view p))

receive-Adds :
    (st : State) (s : Stream) (bytes : Bytes)
    → ((receive_in st s bytes).limits ≡ s.limits)
      × (length (receive_in st s bytes).unread ≤ length s.unread + length bytes)
unfolding receive_in
receive-Adds failed s bytes = (refl, omega arith)
receive-Adds head s bytes = (refl, omega (arith, length-append s.unread bytes))
receive-Adds body s bytes = (refl, omega (arith, length-append s.unread bytes))

-- `feed` occupies no more than what it is given besides.
pub feed-Adds :
    (p : RequestParser) (bytes : Bytes)
    → IsValid p
    → ((feed p bytes).limits ≡ p.limits)
      × (length (view (feed p bytes)).unread ≤ length (view p).unread + length bytes)
feed-Adds p bytes v =
    subst (λ t. (t.limits ≡ p.limits) × (length t.unread ≤ length (view p).unread + length bytes))
      (sym (feed-view p bytes v)) (receive-Adds p.state (view p) bytes)

-- On a valid parser whose awaited body is within its limit: where `next` returns nothing, this still
-- holds and the unread bytes are within the limit of a head or below that of a body; where it returns
-- a request, it waits for the next head; where it returns an error, it has failed for good.
pub next-Starves : (p : RequestParser) → IsValid p → BodyLe (view p) → Starves (viewed (next p))
next-Starves p v h = subst Starves (sym (next-view p v)) (next_request-Starves (view p) h)

-- In each case the awaited body is within its limit.
pub Starves-BodyLe : (s : Stream) (r : ParseResult) → Starves (s, r) → BodyLe s
Starves-BodyLe s incomplete h = h.0
Starves-BodyLe s (complete r) h = λ e. ground arith
Starves-BodyLe s (error x) h = λ e. ground arith

receive-BodyLe :
    (st : State) (s : Stream) (bytes : Bytes) → BodyLe s → BodyLe (receive_in st s bytes)
unfolding receive_in
receive-BodyLe failed s bytes h = h
receive-BodyLe head s bytes h = h
receive-BodyLe body s bytes h = h

pub feed-BodyLe :
    (p : RequestParser) (bytes : Bytes) → IsValid p → BodyLe (view p) → BodyLe (view (feed p bytes))
feed-BodyLe p bytes v h =
    subst BodyLe (sym (feed-view p bytes v)) (receive-BodyLe p.state (view p) bytes h)
