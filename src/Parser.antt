-- ===== src/Parser.antt =====
-- include/calc/request_parser.hpp and src/request_parser.cpp: the incremental parser.
-- An index into the buffer is at most its size, which a C++ string bounds far below 2^64.
pub mod Result
pub mod RequestLine
pub mod HeaderLine
pub mod BodyLength
pub mod Head
pub mod Framing
pub mod Stream
pub mod Search
pub mod Newlines
pub mod Validity
pub mod Refinement
pub mod Growth
pub mod Delivery
pub mod Yields
pub mod Chunks
pub mod Bounds
pub mod Occupancy
pub mod Measure
pub mod Lines
pub mod Fields
pub mod Payload
pub mod RoundTrip
use network_arc_rajasurya.Prelude.{
  ℕ, zero, suc, ◌+◌, ◌-◌, ◌/◌, max, Bool, true, false, ◌&&◌, ◌||◌, not, [], ◌++◌, Option, none,
  some, Bytes, codes, lf, cr, byte_is, find_from, substr, drop, length, ltb, leb, ◌==◌,
  if◌then◌else◌, u64, to_string,
}
use network_arc_rajasurya.Config.{Limits}
use network_arc_rajasurya.Request.{Request, empty_request}
use Result.{ParseError, ok, err, Parsed, ParseResult, incomplete, complete, error}
use Head.{parse_head}

pub data State : Type 0 where
  head body failed : State

pub record RequestParser : Type 0 where
  pub limits : Limits
  pub state : State
  pub buffer : Bytes
  pub start : ℕ
  pub scan_from : ℕ
  pub stream_offset : ℕ
  pub pending : Request
  pub body_length : ℕ
  pub error : ParseError

-- The constructor.
unfoldable pub new_parser : Limits → RequestParser
new_parser limits = record {
  limits = limits;
  state = head;
  buffer = [];
  start = 0;
  scan_from = 0;
  stream_offset = 0;
  pending = empty_request;
  body_length = 0;
  error = record { status = 400; message = [] };
}

abbrev pub buffered_bytes : RequestParser → ℕ
buffered_bytes p = length p.buffer - p.start

abbrev is_body : State → Bool
is_body head = false
is_body body = true
is_body failed = false

unfoldable pub has_partial_request : RequestParser → Bool
has_partial_request p = is_body p.state || ltb 0 (buffered_bytes p)

unfoldable pub compact : RequestParser → RequestParser
compact p =
    if p.start == length p.buffer
    then record p { buffer = []; start = 0; scan_from = 0 }
    else if ltb 0 p.start && leb (length p.buffer / 2) p.start
    then record p { buffer = drop p.start p.buffer; start = 0; scan_from = p.scan_from - p.start }
    else p

abbrev append_bytes : RequestParser → Bytes → RequestParser
append_bytes p bytes = record p { buffer = p.buffer ++ bytes }

unfoldable pub feed_in : State → RequestParser → Bytes → RequestParser
feed_in failed p bytes = p
feed_in head p bytes = append_bytes (compact p) bytes
feed_in body p bytes = append_bytes (compact p) bytes

abbrev pub feed : RequestParser → Bytes → RequestParser
feed p bytes = feed_in p.state p bytes

unfoldable pub consume : RequestParser → ℕ → RequestParser
consume p count = record p {
  start = p.start + count;
  stream_offset = u64 (p.stream_offset + count);
  scan_from = max p.scan_from (p.start + count);
}

-- The loop of `skip_empty_lines_before_request`.
unfoldable pub skip_loop : ℕ → RequestParser → RequestParser
skip_loop zero p = p
skip_loop (suc fuel) p =
    let after_lf = skip_loop fuel (consume p 1) in
    let after_crlf = skip_loop fuel (consume p 2) in
    if not (ltb p.start (length p.buffer))
    then p
    else if byte_is p.buffer p.start lf
    then after_lf
    else if byte_is p.buffer p.start cr
        && ltb (p.start + 1) (length p.buffer)
        && byte_is p.buffer (p.start + 1) lf
    then after_crlf
    else p

-- Each round consumes a byte, so as many rounds as there are buffered bytes are enough.
unfoldable pub skip_empty_lines_before_request : RequestParser → RequestParser
skip_empty_lines_before_request p = skip_loop (buffered_bytes p) p

-- How the search for the blank line ends: the index one past it, or where to resume.
pub data HeadSearch : Type 0 where
  found_at : ℕ → HeadSearch
  resume_at : ℕ → HeadSearch

-- The loop of `find_end_of_head`. Each round moves `pos` on, at most to the end of the buffer.
unfoldable pub search_loop : ℕ → Bytes → ℕ → HeadSearch
search_loop zero buffer pos = resume_at pos
search_loop (suc fuel) buffer pos = elim (find_from lf pos buffer) [
  | none ↦ resume_at (length buffer)
  | some newline ↦
      let next_line = suc newline in
      let later = search_loop fuel buffer next_line in
      if ltb next_line (length buffer) && byte_is buffer next_line lf
      then found_at (next_line + 1)
      else if ltb (next_line + 1) (length buffer)
          && byte_is buffer next_line cr
          && byte_is buffer (next_line + 1) lf
      then found_at (next_line + 2)
      else if next_line == length buffer
          || next_line + 1 == length buffer && byte_is buffer next_line cr
      then resume_at newline
      else later
]

-- The parser with its new `scan_from`, and the index.
abbrev pub note_search : RequestParser → HeadSearch → RequestParser × Option ℕ
note_search p (found_at end) = (p, some end)
note_search p (resume_at pos) = (record p { scan_from = pos }, none)

unfoldable pub find_end_of_head : RequestParser → RequestParser × Option ℕ
find_end_of_head p =
    note_search p (search_loop (suc (length p.buffer)) p.buffer (max p.scan_from p.start))

-- `next` on a failed parser.
abbrev pub next_failed : RequestParser → RequestParser × ParseResult
next_failed p = (p, error p.error)

unfoldable pub fail : RequestParser → ℕ → Bytes → RequestParser × ParseResult
fail p status message = next_failed (record p {
  state = failed;
  error = record { status = status; message = message };
  buffer = [];
  start = 0;
  scan_from = 0;
})

-- `next` from `State::Body` on.
unfoldable pub next_body : RequestParser → RequestParser × ParseResult
next_body p =
    if ltb (buffered_bytes p) p.body_length
    then (p, incomplete)
    else (let q = consume p p.body_length in
        (
          record q { state = head; pending = empty_request },
          complete (record p.pending {
            body = substr p.start p.body_length p.buffer;
            stream_end = q.stream_offset;
          }),
        ))

abbrev pub head_too_large : Limits → Bytes
head_too_large limits =
    codes "request head exceeds " ++ (to_string limits.max_header_bytes ++ codes " bytes")

-- `next` on the outcome of `parse_head` for a head of that size.
unfoldable pub take_head : RequestParser → ℕ → Parsed (Request × ℕ) → RequestParser × ParseResult
take_head p head_size (err e) = fail p e.status e.message
take_head p head_size (ok (request, body_length)) = next_body (record (consume p head_size) {
  pending = record request { stream_begin = p.stream_offset; head_bytes = head_size };
  body_length = body_length;
  state = body;
})

-- `next` on the outcome of `find_end_of_head`.
unfoldable pub next_head : RequestParser × Option ℕ → RequestParser × ParseResult
next_head (p, none) =
    if ltb p.limits.max_header_bytes (buffered_bytes p)
    then fail p 431 (head_too_large p.limits)
    else (p, incomplete)
next_head (p, some head_end) =
    let head_size : ℕ = head_end - p.start in
    if ltb p.limits.max_header_bytes head_size
    then fail p 431 (head_too_large p.limits)
    else take_head p head_size (parse_head p.limits (substr p.start head_size p.buffer))

unfoldable pub next_in : State → RequestParser → RequestParser × ParseResult
next_in failed p = next_failed p
next_in head p = next_head (find_end_of_head (skip_empty_lines_before_request p))
next_in body p = next_body p

abbrev pub next : RequestParser → RequestParser × ParseResult
next p = next_in p.state p
