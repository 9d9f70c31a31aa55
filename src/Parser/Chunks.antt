-- ===== src/Parser/Chunks.antt =====
-- The requests that the parser of src/request_parser.cpp delivers do not depend on how the bytes of
-- the stream were grouped into reads.
use mathlib.Core.Option
use network_arc_rajasurya.Prelude.{
  ℕ, zero, suc, ◌+◌, ◌≤◌, ◌<◌, ◌≡◌, refl, sym, ap, subst, ◌∙◌, List, [], ◌∷◌, ◌++◌, Option, some,
  Bytes, arith, length-drop, append-nil, append_assoc, concat,
}
use network_arc_rajasurya.Config.{Limits}
use network_arc_rajasurya.Request.{Request}
use network_arc_rajasurya.Parser.Result.{ParseResult, incomplete, complete, error}
use network_arc_rajasurya.Parser.Stream.{Stream, view, receive_in, receive, next_of, next_request}
use network_arc_rajasurya.Parser.Validity.{IsValid, feed-view, feed-IsValid}
use network_arc_rajasurya.Parser.Refinement.{viewed, next-view, next-IsValid, new_parser-IsValid}
use network_arc_rajasurya.Parser.Delivery.{Delivery, prepend, drain, drain_all, deliver}
use network_arc_rajasurya.Parser.Growth.{receive_in-state}
use network_arc_rajasurya.Parser.Yields.{
  measure, next_request-Leaves, Yields, ends, gives, Yields-resume, Yields-error, Yields-failed,
  Yields-unique, Yields-limits, Yields-IsFinal,
}
use network_arc_rajasurya.Parser.{
  State, head, body, failed, RequestParser, buffered_bytes, new_parser, feed, next,
}

-- `drain` returned `d` from `p`, and the abstract parser says the same.
record Drained (p : RequestParser) (out : Option Delivery) : Type 0 where
  delivery : Delivery
  returned : out ≡ some delivery
  yields : Yields (view delivery.parser) delivery.last (view p) delivery.requests
  valid : IsValid delivery.parser

drain_step-Drained :
    (fuel : ℕ) (p : RequestParser)
    → IsValid p
    → measure (view p) < suc fuel
    → ((q : RequestParser) → IsValid q → measure (view q) < fuel → Drained q (drain fuel q))
    → (r : RequestParser × ParseResult) → next p ≡ r
    → Drained p (drain (suc fuel) p)
unfolding drain
drain_step-Drained fuel p v h later (q, incomplete) e = record {
  delivery = record { requests = []; last = incomplete; parser = q };
  returned = ground arith;
  yields = ends (sym (next-view p v) ∙ ap viewed e) tt;
  valid = rw e at (next-IsValid p v);
}
drain_step-Drained fuel p v h later (q, error x) e = record {
  delivery = record { requests = []; last = error x; parser = q };
  returned = ground arith;
  yields = ends (sym (next-view p v) ∙ ap viewed e) tt;
  valid = rw e at (next-IsValid p v);
}
drain_step-Drained fuel p v h later (q, complete r) e =
    let step : next_request (view p) ≡ (view q, complete r) = sym (next-view p v) ∙ ap viewed e in
    let (_, st, less) = rw step at (next_request-Leaves (view p)) in
    let falls : measure (view q) < fuel = ground arith in
    let rest = later q (rw e at (next-IsValid p v)) falls in
    record {
      delivery = prepend (r ∷ []) rest.delivery;
      returned = ground (arith, rest.returned);
      yields = gives step rest.yields;
      valid = rest.valid;
    }

drain-Drained :
    (fuel : ℕ) (p : RequestParser) → IsValid p → measure (view p) < fuel → Drained p (drain fuel p)
drain-Drained zero p v h = absurd (omega arith)
drain-Drained (suc fuel) p v h = drain_step-Drained fuel p v h (drain-Drained fuel) (next p) refl

drain_all-Drained : (p : RequestParser) → IsValid p → Drained p (drain_all p)
unfolding drain_all
drain_all-Drained p v =
    drain-Drained (buffered_bytes p + 2) p v (ground (arith, length-drop p.start p.buffer))

receive_in-nil : (st : State) (s : Stream) → receive_in st s [] ≡ s
unfolding receive_in
receive_in-nil head s = ground (arith, append-nil s.unread)
receive_in-nil body s = ground (arith, append-nil s.unread)
receive_in-nil failed s = refl

receive_in-limits : (st : State) (s : Stream) (w : Bytes) → (receive_in st s w).limits ≡ s.limits
unfolding receive_in
receive_in-limits head s w = refl
receive_in-limits body s w = refl
receive_in-limits failed s w = refl

receive_in-append :
    (st : State) (s : Stream) (v w : Bytes)
    → receive_in st (receive_in st s v) w ≡ receive_in st s (v ++ w)
unfolding receive_in
receive_in-append head s v w = ground (arith, append_assoc s.unread v w)
receive_in-append body s v w = ground (arith, append_assoc s.unread v w)
receive_in-append failed s v w = refl

receive-append : (s : Stream) (v w : Bytes) → receive (receive s v) w ≡ receive s (v ++ w)
receive-append s v w =
    ap (λ st. receive_in st (receive s v) w) (receive_in-state s.state s v)
    ∙ receive_in-append s.state s v w

receive_failed : (s : Stream) (w : Bytes) → s.state ≡ failed → receive s w ≡ s
unfolding receive_in
receive_failed s w h = ground arith

next_failed_stream : (s : Stream) → s.state ≡ failed → next_request s ≡ (s, error s.error)
unfolding next_of
next_failed_stream s h = ground arith

-- What is delivered once the first calls have ended with `last`.
resume :
    (last : ParseResult) {s t end : Stream} {final : ParseResult} {rs more : List Request}
    (w : Bytes)
    → 1 ≤ s.limits.max_header_bytes
    → Yields t last s rs
    → Yields end final (receive t w) more
    → Yields end final (receive s w) (rs ++ more)
resume incomplete w l y z = Yields-resume w l y z
resume (complete r) w l y z = absurd (Yields-IsFinal y)
resume (error e) {s} {t} {end} {final} {rs} {more} w l y z =
    let (st, kept) = Yields-failed y in
    let stays : Yields t (error e) (receive t w) [] =
      ends
        (ap next_request (receive_failed t w st)
          ∙ next_failed_stream t st
          ∙ ap (λ x. (t, error x)) kept)
        tt in
    let (a, b, c) = Yields-unique stays z in
    let kept_error = Yields-error w l y in
    subst (λ x. Yields x final (receive s w) (rs ++ more)) a
      (subst (λ x. Yields t x (receive s w) (rs ++ more)) b
        (subst (λ x. Yields t (error e) (receive s w) (rs ++ x)) c
          (subst (Yields t (error e) (receive s w)) (sym (append-nil rs)) kept_error)))

deliver-Drained :
    (p : RequestParser) (pieces : List Bytes)
    → IsValid p
    → 1 ≤ p.limits.max_header_bytes
    → (d : Delivery) × (deliver p pieces ≡ some d)
      × Yields (view d.parser) d.last (receive (view p) (concat pieces)) d.requests
unfolding deliver Option.bind
deliver-Drained p [] v l =
    let d = drain_all-Drained p v in
    (d.delivery, d.returned, rw (receive_in-nil p.state (view p)) d.yields)
deliver-Drained p (piece ∷ pieces) v l =
    let d = drain_all-Drained p v in
    let q = feed d.delivery.parser piece in
    let fed = feed-view d.delivery.parser piece d.valid in
    let limits : q.limits ≡ p.limits =
      ap (λ s. s.limits) fed
      ∙ receive_in-limits d.delivery.parser.state (view d.delivery.parser) piece
      ∙ Yields-limits d.yields in
    let (d', returned, yields) =
      deliver-Drained q pieces (feed-IsValid d.delivery.parser piece d.valid) (rw limits l) in
    let same : receive (view q) (concat pieces)
        ≡ receive (view d.delivery.parser) (piece ++ concat pieces) =
      ap (λ s. receive s (concat pieces)) fed
      ∙ receive-append (view d.delivery.parser) piece (concat pieces) in
    (
      prepend d.delivery.requests d',
      rw d.returned (ap (Option.map (prepend d.delivery.requests)) returned),
      resume d.delivery.last (piece ++ concat pieces) l d.yields
          (subst (λ s. Yields (view d'.parser) d'.last s d'.requests) same yields),
    )

-- What a delivery shows: the requests and how they ended.
abbrev pub outcome : Option Delivery → Option (List Request × ParseResult)
outcome = Option.map λ d. (d.requests, d.last)

-- However the bytes of a stream are grouped into reads, the parser delivers the same requests and
-- ends with the same result as for the stream in one read, and the calls come to an end, provided that
-- the limit on the head is at least one byte.
pub deliver-concat :
    (limits : Limits) (pieces : List Bytes)
    → 1 ≤ limits.max_header_bytes
    → (r : List Request × ParseResult) × (outcome (deliver (new_parser limits) pieces) ≡ some r)
      × (outcome (deliver (new_parser limits) (concat pieces ∷ [])) ≡ some r)
deliver-concat limits pieces l =
    let start = new_parser limits in
    let valid = new_parser-IsValid limits in
    let l' : 1 ≤ start.limits.max_header_bytes = unfold new_parser in l in
    let (d, returned, yields) = deliver-Drained start pieces valid l' in
    let (d', returned', yields') = deliver-Drained start (concat pieces ∷ []) valid l' in
    let one : concat (concat pieces ∷ []) ≡ concat pieces = append-nil (concat pieces) in
    let (_, last, requests) = Yields-unique yields (
      subst (λ w. Yields (view d'.parser) d'.last (receive (view start) w) d'.requests) one
        yields') in
    (
      (d.requests, d.last),
      ap outcome returned,
      ap outcome returned' ∙ ap some (sym (λ i. (requests i, last i))),
    )
