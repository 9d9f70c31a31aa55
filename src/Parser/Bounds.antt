-- ===== src/Parser/Bounds.antt =====
-- The size of what the parser of src/request_parser.cpp waits for: a body within its limit, and
-- never more than one request.
use network_arc_rajasurya.Prelude.{
  ℕ, ◌≤◌, ◌<◌, ◌≡◌, ◌⊎◌, refl, false, List, [], ◌∷◌, Option, none, some, Bytes, length, arith,
  either_case, either_branch,
}
use network_arc_rajasurya.Config.{Limits}
use network_arc_rajasurya.Request.{Request, Header, empty_request}
use network_arc_rajasurya.Parser.Result.{
  Parsed, ok, err, ParseResult, incomplete, complete, error, reject, ◌>>=◌,
}
use network_arc_rajasurya.Parser.BodyLength.{
  Framing, Digits, add_digit, read_digits, parse_length, decide_body_length, determine_body_length,
  scan_framing,
}
use network_arc_rajasurya.Parser.RequestLine.{parse_request_line}
use network_arc_rajasurya.Parser.Head.{parse_header_lines, parse_lines, parse_head}
use network_arc_rajasurya.Parser.Stream.{
  Stream, give_up, read_body, accept_head, read_head, skip_empty_lines, next_of, next_request,
}
use network_arc_rajasurya.Parser.{State, head, body, failed}

-- A value that is not too large is within the limit.
abbrev Within : ℕ → Digits → Type 0
Within limit d = d.too_large ≡ false → d.value ≤ limit

add_digit-Within : (limit c : ℕ) (d : Digits) → Within limit d → Within limit (add_digit limit c d)
unfolding add_digit
add_digit-Within limit c d h k = ground arith

read_digits-Within :
    (limit : ℕ) (text : Bytes) (d e : Digits)
    → Within limit d
    → read_digits limit text d ≡ some e
    → Within limit e
unfolding read_digits
read_digits-Within limit [] d e h r = ground (arith, h)
read_digits-Within limit (c ∷ cs) d e h r =
    read_digits-Within limit cs (add_digit limit c d) e (add_digit-Within limit c d h)
      (ground arith)

-- A length that is returned is within the limit.
abbrev pub ReturnsLe : ℕ → Parsed ℕ → Type 0
ReturnsLe limit (ok n) = n ≤ limit
ReturnsLe limit (err e) = Unit {0}

parse_length-ReturnsLe : (limit : ℕ) (text : Bytes) → ReturnsLe limit (parse_length limit text)
unfolding parse_length
parse_length-ReturnsLe limit text = by_digits (read_digits limit text start) refl
  where
    start : Digits
    start = record { value = 0; too_large = false }

    by_digits :
        (r : Option Digits)
        → read_digits limit text start ≡ r
        → ReturnsLe limit (parse_length limit text)
    by_digits none e = rw (e, parse_length) tt
    by_digits (some d) e =
        rw (e, parse_length)
          (either_case (ReturnsLe limit) d.too_large _ _ (λ _. tt)
            (read_digits-Within limit text start d (λ _. omega arith) e))

decide-ReturnsLe : (limit : ℕ) (f : Framing) → ReturnsLe limit (decide_body_length limit f)
unfolding decide_body_length
decide-ReturnsLe limit f = ground (arith, parse_length-ReturnsLe limit f.length_text)

pub determine_body_length-ReturnsLe :
    (headers : List Header) (limit : ℕ) → ReturnsLe limit (determine_body_length headers limit)
unfolding determine_body_length
determine_body_length-ReturnsLe headers limit = decide-ReturnsLe limit (
    scan_framing headers
      (record { length_headers = 0; length_text = []; has_transfer_encoding = false }))

-- The same of the head that carries it.
abbrev pub HeadLe : ℕ → Parsed (Request × ℕ) → Type 0
HeadLe limit (ok r) = r.1 ≤ limit
HeadLe limit (err e) = Unit {0}

with_length-HeadLe :
    (limit : ℕ) (request : Request) (n : Parsed ℕ)
    → ReturnsLe limit n
    → HeadLe limit (n >>= λ k. ok (request, k))
with_length-HeadLe limit request (ok n) h = h
with_length-HeadLe limit request (err e) h = tt

fields-HeadLe :
    (limit : ℕ) (request : Request) (headers : Parsed (List Header))
    → HeadLe limit (
        headers >>= λ hs.
        determine_body_length hs limit >>= λ k. ok (record request { headers = hs }, k))
fields-HeadLe limit request (ok hs) =
    with_length-HeadLe limit _ _ (determine_body_length-ReturnsLe hs limit)
fields-HeadLe limit request (err e) = tt

request-HeadLe :
    (limits : Limits) (request : Parsed Request) (lines : List Bytes)
    → HeadLe limits.max_body_bytes (
        request >>= λ r. parse_header_lines lines [] >>= λ hs.
        determine_body_length hs limits.max_body_bytes >>= λ k. ok (record r { headers = hs }, k))
request-HeadLe limits (ok r) lines = fields-HeadLe limits.max_body_bytes r _
request-HeadLe limits (err e) lines = tt

parse_lines-HeadLe :
    (limits : Limits) (lines : List Bytes) → HeadLe limits.max_body_bytes (parse_lines limits lines)
unfolding parse_lines
parse_lines-HeadLe limits [] = tt
parse_lines-HeadLe limits (line ∷ lines) =
    either_branch (HeadLe limits.max_body_bytes) _ (reject 431 _) _ tt
      (request-HeadLe limits (parse_request_line line empty_request) lines)

pub parse_head-HeadLe :
    (limits : Limits) (bytes : Bytes) → HeadLe limits.max_body_bytes (parse_head limits bytes)
unfolding parse_head
parse_head-HeadLe limits bytes = parse_lines-HeadLe limits _

-- A body that is awaited is within its limit.
abbrev pub BodyLe : Stream → Type 0
BodyLe s = s.state ≡ body → s.body_length ≤ s.limits.max_body_bytes

-- After a call that returns nothing the stream holds a part of a head, or of a body.
abbrev pub Starves : Stream × ParseResult → Type 0
Starves (t, incomplete) =
    BodyLe t
    × ((length t.unread ≤ t.limits.max_header_bytes) ⊎ (length t.unread < t.limits.max_body_bytes))
Starves (t, complete r) = t.state ≡ head
Starves (t, error e) = t.state ≡ failed

read_body-Starves : (s : Stream) → s.body_length ≤ s.limits.max_body_bytes → Starves (read_body s)
unfolding read_body
read_body-Starves s h = ground arith

accept_head-Starves :
    (s : Stream) (n : ℕ) (r : Parsed (Request × ℕ))
    → HeadLe s.limits.max_body_bytes r
    → Starves (accept_head s n r)
unfolding accept_head give_up
accept_head-Starves s n (err e) h = refl
accept_head-Starves s n (ok (request, k)) h = read_body-Starves _ h

read_head-Starves : (s : Stream) (e : Option ℕ) → s.state ≡ head → Starves (read_head s e)
unfolding read_head give_up
read_head-Starves s none h = ground arith
read_head-Starves s (some n) h =
    either_branch Starves _ (give_up s 431 _) _ refl
      (accept_head-Starves s n _ (parse_head-HeadLe s.limits _))

next_of-Starves : (st : State) (s : Stream) → s.state ≡ st → BodyLe s → Starves (next_of st s)
unfolding next_of
next_of-Starves failed s e h = e
next_of-Starves head s e h = read_head-Starves (skip_empty_lines s) _ e
next_of-Starves body s e h = read_body-Starves s (h e)

pub next_request-Starves : (s : Stream) → BodyLe s → Starves (next_request s)
next_request-Starves s = next_of-Starves s.state s refl
