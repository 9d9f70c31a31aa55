-- ===== src/Parser/Stream.antt =====
-- The abstract parser: src/request_parser.cpp seen as a machine on the unread bytes.
use network_arc_rajasurya.Prelude.{
  ℕ, ◌+◌, [], ◌++◌, Option, none, some, Bytes, take, drop, length, ltb, if◌then◌else◌, u64,
}
use network_arc_rajasurya.Config.{Limits}
use network_arc_rajasurya.Request.{Request, empty_request}
use network_arc_rajasurya.Parser.Result.{
  ParseError, Parsed, ok, err, ParseResult, incomplete, complete, error,
}
use network_arc_rajasurya.Parser.Head.{parse_head}
use network_arc_rajasurya.Parser.Framing.{skipped, head_end}
use network_arc_rajasurya.Parser.{State, head, body, failed, RequestParser, head_too_large}

pub record Stream : Type 0 where
  pub limits : Limits
  pub state : State
  pub unread : Bytes
  pub offset : ℕ
  pub pending : Request
  pub body_length : ℕ
  pub error : ParseError

-- What a parser has not consumed yet, with no buffer behind it.
abbrev pub view : RequestParser → Stream
view p = record {
  limits = p.limits;
  state = p.state;
  unread = drop p.start p.buffer;
  offset = p.stream_offset;
  pending = p.pending;
  body_length = p.body_length;
  error = p.error;
}

unfoldable pub receive_in : State → Stream → Bytes → Stream
receive_in failed s bytes = s
receive_in head s bytes = record s { unread = s.unread ++ bytes }
receive_in body s bytes = record s { unread = s.unread ++ bytes }

abbrev pub receive : Stream → Bytes → Stream
receive s bytes = receive_in s.state s bytes

abbrev pub advance_by : ℕ → Stream → Stream
advance_by n s = record s { unread = drop n s.unread; offset = u64 (s.offset + n) }

unfoldable pub give_up : Stream → ℕ → Bytes → Stream × ParseResult
give_up s status message =
    let e : ParseError = record { status = status; message = message } in
    (record s { state = failed; error = e; unread = [] }, error e)

-- The stream behind the body, and the request with its body.
abbrev pub after_body : Stream → Stream
after_body s = record (advance_by s.body_length s) { state = head; pending = empty_request }

abbrev pub whole_request : Stream → Request
whole_request s = record s.pending {
  body = take s.body_length s.unread;
  stream_end = u64 (s.offset + s.body_length);
}

unfoldable pub read_body : Stream → Stream × ParseResult
read_body s =
    if ltb (length s.unread) s.body_length
    then (s, incomplete)
    else (after_body s, complete (whole_request s))

unfoldable pub accept_head : Stream → ℕ → Parsed (Request × ℕ) → Stream × ParseResult
accept_head s size (err e) = give_up s e.status e.message
accept_head s size (ok (request, body_length)) = read_body (record (advance_by size s) {
  pending = record request { stream_begin = s.offset; head_bytes = size };
  body_length = body_length;
  state = body;
})

unfoldable pub read_head : Stream → Option ℕ → Stream × ParseResult
read_head s none =
    if ltb s.limits.max_header_bytes (length s.unread)
    then give_up s 431 (head_too_large s.limits)
    else (s, incomplete)
read_head s (some size) =
    if ltb s.limits.max_header_bytes size
    then give_up s 431 (head_too_large s.limits)
    else accept_head s size (parse_head s.limits (take size s.unread))

abbrev pub skip_empty_lines : Stream → Stream
skip_empty_lines s = advance_by (skipped s.unread) s

unfoldable pub next_of : State → Stream → Stream × ParseResult
next_of failed s = (s, error s.error)
next_of head s = (let t = skip_empty_lines s in read_head t (head_end t.unread))
next_of body s = read_body s

abbrev pub next_request : Stream → Stream × ParseResult
next_request s = next_of s.state s
