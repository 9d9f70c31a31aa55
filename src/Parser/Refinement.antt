-- ===== src/Parser/Refinement.antt =====
-- The parser of src/request_parser.cpp, with its buffer, positions and resumed search, does what the
-- abstract parser on the unread bytes does.
use network_arc_rajasurya.Prelude.{
  ℕ, ◌+◌, ◌-◌, ◌^◌, ◌≤◌, ◌<◌, ◌≡◌, inl, inr, refl, ap, ◌∙◌, Option, Bytes, drop, take, length, ltb,
  arith, Bool-cases, either_branch, length-drop, drop-drop,
}
use network_arc_rajasurya.Config.{Limits}
use network_arc_rajasurya.Request.{Request}
use network_arc_rajasurya.Parser.Result.{Parsed, ok, err, ParseResult}
use network_arc_rajasurya.Parser.Head.{parse_head}
use network_arc_rajasurya.Parser.Framing.{head_end, head_end_bounds}
use network_arc_rajasurya.Parser.Validity.{
  IsValid, Search, found, missing, consume-view, consume-IsValid, skip-view, skip-IsValid,
  find_end_of_head-Search,
}
use network_arc_rajasurya.Parser.Stream.{
  Stream, view, give_up, read_body, accept_head, read_head, next_of, next_request,
}
use network_arc_rajasurya.Parser.{
  State, head, body, failed, RequestParser, new_parser, buffered_bytes, consume,
  skip_empty_lines_before_request, find_end_of_head, fail, next_body, take_head, next_head, next_in,
  next,
}

-- A result of the parser beside one of the abstract parser.
abbrev pub viewed : RequestParser × ParseResult → Stream × ParseResult
viewed r = (view r.0, r.1)

next_body-view : (p : RequestParser) → viewed (next_body p) ≡ read_body (view p)
unfolding next_body read_body consume
next_body-view p = ground (
  arith,
  length-drop p.start p.buffer,
  drop-drop p.start p.body_length (p.start + p.body_length) p.buffer refl,
)

take_head-view :
    (p : RequestParser) (n : ℕ) (r : Parsed (Request × ℕ))
    → viewed (take_head p n r) ≡ accept_head (view p) n r
unfolding take_head accept_head fail give_up
take_head-view p n (err e) = refl
take_head-view p n (ok (request, body_length)) =
    next_body-view _ ∙ ap read_body (ground (arith, consume-view p n))

next_head-view :
    (p : RequestParser) (r : RequestParser × Option ℕ)
    → Search p r
    → viewed (next_head r) ≡ read_head (view p) (head_end (drop p.start p.buffer))
unfolding next_head read_head fail give_up
next_head-view p r (found n e h) =
    let size : p.start + n - p.start ≡ n = omega arith in
    rw (h, e)
      (rw size
        (ground (arith, take_head-view p n (parse_head p.limits (take n (drop p.start p.buffer))))))
next_head-view p r (missing q e h v) = rw (h, e) (ground (arith, length-drop p.start p.buffer))

skipped-Search :
    (p : RequestParser)
    → IsValid p
    → Search
        (skip_empty_lines_before_request p)
        (find_end_of_head (skip_empty_lines_before_request p))
skipped-Search p v = find_end_of_head-Search _ (skip-IsValid p v)

next_in-view :
    (s : State) (p : RequestParser) → IsValid p → viewed (next_in s p) ≡ next_of s (view p)
unfolding next_in next_of
next_in-view failed p v = refl
next_in-view head p v =
    next_head-view _ _ (skipped-Search p v)
    ∙ ap (λ s. read_head s (head_end s.unread)) (skip-view p v)
next_in-view body p v = next_body-view p

-- On a valid parser, `next` returns what the abstract parser on the unread bytes returns, and leaves
-- what it leaves.
pub next-view : (p : RequestParser) → IsValid p → viewed (next p) ≡ next_request (view p)
next-view p = next_in-view p.state p

fail-IsValid :
    (p : RequestParser) (status : ℕ) (message : Bytes)
    → p.stream_offset < 2 ^ 64
    → IsValid (fail p status message).0
unfolding fail
fail-IsValid p status message o = omega arith

next_body-IsValid : (p : RequestParser) → IsValid p → IsValid (next_body p).0
unfolding next_body
next_body-IsValid p v = elim (Bool-cases (ltb (buffered_bytes p) p.body_length)) [
  | inl short ↦ rw short v
  | inr enough ↦
      let w = consume-IsValid p p.body_length (ground (arith, length-drop p.start p.buffer)) v in
      rw enough (record {
        start_le = w.start_le;
        scan_le = w.scan_le;
        offset_lt = w.offset_lt;
        clear = w.clear;
      })
]

take_head-IsValid :
    (p : RequestParser) (n : ℕ) (r : Parsed (Request × ℕ))
    → n ≤ length (drop p.start p.buffer)
    → IsValid p
    → IsValid (take_head p n r).0
unfolding take_head
take_head-IsValid p n (err e) h v = fail-IsValid p e.status e.message v.offset_lt
take_head-IsValid p n (ok (request, body_length)) h v =
    let w = consume-IsValid p n h v in
    next_body-IsValid _ (record {
      start_le = w.start_le;
      scan_le = w.scan_le;
      offset_lt = w.offset_lt;
      clear = w.clear;
    })

next_head-IsValid :
    (p : RequestParser) (r : RequestParser × Option ℕ)
    → IsValid p
    → Search p r
    → IsValid (next_head r).0
unfolding next_head
next_head-IsValid p r v (found n e h) =
    let size : p.start + n - p.start ≡ n = omega arith in
    let taken =
      take_head-IsValid p n (parse_head p.limits (take n (drop p.start p.buffer)))
        (head_end_bounds _ n e).0 v in
    rw h (
      rw size (
        either_branch (λ (r : RequestParser × ParseResult). IsValid r.0) _ _ _
          (fail-IsValid p _ _ v.offset_lt) taken))
next_head-IsValid p r v (missing q e h w) = rw h (
    either_branch (λ (r : RequestParser × ParseResult). IsValid r.0) _ _ _
      (fail-IsValid _ _ _ w.offset_lt) w)

next_in-IsValid : (s : State) (p : RequestParser) → IsValid p → IsValid (next_in s p).0
unfolding next_in
next_in-IsValid failed p v = v
next_in-IsValid head p v = next_head-IsValid _ _ (skip-IsValid p v) (skipped-Search p v)
next_in-IsValid body p v = next_body-IsValid p v

-- `next` keeps a parser valid: its positions in order and in the buffer, and no head ends before the
-- place from which the search goes on.
pub next-IsValid : (p : RequestParser) → IsValid p → IsValid (next p).0
next-IsValid p = next_in-IsValid p.state p

pub new_parser-IsValid : (limits : Limits) → IsValid (new_parser limits)
unfolding new_parser
new_parser-IsValid limits = omega arith
