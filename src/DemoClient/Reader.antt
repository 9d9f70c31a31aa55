-- ===== src/DemoClient/Reader.antt =====
-- tools/demo_client.cpp: `HttpResponse` and `ResponseReader`, which cuts responses off the stream of
-- bytes. A blocking `recv` returns the bytes of an answer; where no answer is left it waits.
use network_arc_rajasurya.Prelude.{
  ℕ, zero, suc, ◌+◌, Bool, true, false, ◌&&◌, not, List, [], ◌∷◌, ◌++◌, Option, none, some, Bytes,
  codes, cr, lf, equal, is_empty, find, upto, take, drop, substr, length, ltb, u64, ◌==◌,
  if◌then◌else◌,
}
use network_arc_rajasurya.Prelude.Int.{ℤ}
use network_arc_rajasurya.Text.{iequals}
use network_arc_rajasurya.Connection.Socket.{
  RecvAnswer, arrives, recv_fails, eintr, eagain, other_error,
}
use network_arc_rajasurya.DemoClient.Numbers.{stoi, stoul}
use mathlib.Core.Option

pub record Field : Type 0 where
  pub key : Bytes
  pub value : Bytes

pub record HttpResponse : Type 0 where
  pub status : ℤ
  pub reason : Bytes
  pub headers : List Field
  pub body : Bytes
  pub raw : Bytes

-- The lengths agree and `strncasecmp` returns 0, which for the names asked for (they hold no NUL) is
-- equality up to the case of ASCII letters.
unfoldable pub first_value : Bytes → List Field → Bytes
first_value name [] = []
first_value name (f ∷ fs) = if iequals f.key name then f.value else first_value name fs

abbrev pub response_header : HttpResponse → Bytes → Bytes
response_header r name = first_value name r.headers

-- What a read ends in: a response with the buffer and the answers left, an exception, or a `recv`
-- that never returns.
pub data Read : Type 0 where
  got : HttpResponse → Bytes → List RecvAnswer → Read
  threw : Read
  waits : Read

pub data Filled : Type 0 where
  full : Bytes → List RecvAnswer → Filled
  fill_threw : Filled
  fill_waits : Filled

-- `sizeof chunk`.
abbrev pub chunk_bytes : ℕ
chunk_bytes = 4096

-- `while (more) fill();`, where `fill` retries an interrupted `recv`. A call gives a chunk at most.
unfoldable pub fill_while : (Bytes → Bool) → List RecvAnswer → Bytes → Filled
fill_while more [] buffer = if more buffer then fill_waits else full buffer []
fill_while more (recv_fails eintr ∷ answers) buffer =
    let rest = fill_while more answers buffer in
    if more buffer then rest else full buffer (recv_fails eintr ∷ answers)
fill_while more (recv_fails eagain ∷ answers) buffer =
    if more buffer then fill_threw else full buffer (recv_fails eagain ∷ answers)
fill_while more (recv_fails (other_error n) ∷ answers) buffer =
    if more buffer then fill_threw else full buffer (recv_fails (other_error n) ∷ answers)
fill_while more (arrives [] ∷ answers) buffer =
    if more buffer then fill_threw else full buffer (arrives [] ∷ answers)
fill_while more (arrives (x ∷ xs) ∷ answers) buffer =
    let rest = fill_while more answers (buffer ++ take chunk_bytes (x ∷ xs)) in
    if more buffer then rest else full buffer (arrives (x ∷ xs) ∷ answers)

unfoldable pub starts_with : Bytes → Bytes → Bool
starts_with [] ys = true
starts_with (x ∷ xs) [] = false
starts_with (x ∷ xs) (y ∷ ys) = x == y && starts_with xs ys

-- `text.find(pattern)`, for a pattern that is not empty.
unfoldable pub find_text : Bytes → Bytes → Option ℕ
unfolding starts_with
find_text pattern [] = none
find_text pattern (x ∷ xs) =
    if starts_with pattern (x ∷ xs) then some 0 else Option.map suc (find_text pattern xs)

abbrev pub crlf : Bytes
crlf = cr ∷ lf ∷ []

-- CR LF CR LF
abbrev pub blank_line : Bytes
blank_line = cr ∷ lf ∷ cr ∷ lf ∷ []

abbrev pub is_none : Option ℕ → Bool
is_none none = true
is_none (some n) = false

-- `value.erase(0, value.find_first_not_of(' '))`
unfoldable pub strip_spaces : Bytes → Bytes
strip_spaces [] = []
strip_spaces (c ∷ cs) = if c == b' ' then strip_spaces cs else c ∷ cs

-- `line.substr(colon + 1)`: without a colon, `npos + 1` is 0.
abbrev pub behind_colon : Option ℕ → Bytes → Bytes
behind_colon none line = line
behind_colon (some n) line = drop (suc n) line

abbrev pub parse_field : Bytes → Field
parse_field line =
    let colon = find b':' line in
    record { key = upto colon line; value = strip_spaces (behind_colon colon line) }

-- Behind a line and its CR LF. The head ends in CR LF, so every line has one.
abbrev pub behind_line : Option ℕ → Bytes → Bytes
behind_line none text = []
behind_line (some n) text = drop (suc (suc n)) text

-- `while (pos < head.size())`, on the text from `pos` on. A round takes at least two bytes away, so
-- fuel of the length of the text is enough.
unfoldable pub parse_fields : ℕ → Bytes → List Field
parse_fields zero text = []
parse_fields (suc fuel) [] = []
parse_fields (suc fuel) (c ∷ cs) =
    let line_end = find_text crlf (c ∷ cs) in
    parse_field (upto line_end (c ∷ cs)) ∷ parse_fields fuel (behind_line line_end (c ∷ cs))

pub record StatusLine : Type 0 where
  pub code : ℤ
  pub phrase : Bytes

-- The text of the number: between the two spaces, or to the end where there is one only.
abbrev pub code_text : ℕ → Option ℕ → Bytes → Bytes
code_text sp1 none line = drop (suc sp1) line
code_text sp1 (some n) line = upto (some n) (drop (suc sp1) line)

abbrev pub phrase_text : ℕ → Option ℕ → Bytes → Bytes
phrase_text sp1 none line = []
phrase_text sp1 (some n) line = drop (suc n) (drop (suc sp1) line)

-- `sp2` counts from behind the first space. `none` is an exception.
abbrev pub parse_code : Option ℕ → Bytes → Option StatusLine
parse_code none line = none
parse_code (some sp1) line =
    let sp2 = find b' ' (drop (suc sp1) line) in
    if not (equal (take 5 line) (codes "HTTP/"))
    then none
    else Option.map (λ n. record { code = n; phrase = phrase_text sp1 sp2 line })
        (stoi (code_text sp1 sp2 line))

unfoldable pub parse_status : Bytes → Option StatusLine
parse_status line = parse_code (find b' ' line) line

-- The body is cut off the buffer and removed; the end of the response is a `std::size_t`.
abbrev pub cut_body : StatusLine → List Field → ℕ → ℕ → Filled → Read
cut_body s fields head_end body_length fill_threw = threw
cut_body s fields head_end body_length fill_waits = waits
cut_body s fields head_end body_length (full buffer answers) =
    let end = u64 (head_end + body_length) in
    got
      (record {
        status = s.code;
        reason = s.phrase;
        headers = fields;
        body = substr head_end body_length buffer;
        raw = take end buffer;
      })
      (drop end buffer) answers

-- The body is awaited.
unfoldable pub take_body : StatusLine → List Field → ℕ → ℕ → List RecvAnswer → Bytes → Read
take_body s fields head_end body_length answers buffer =
    cut_body s fields head_end body_length
      (fill_while (λ b. ltb (length b) (u64 (head_end + body_length))) answers buffer)

-- The length of the body, where the status line is well formed.
abbrev pub with_length :
    Bytes → List Field → Option StatusLine → Option (StatusLine × List Field × ℕ)
with_length length_text fields none = none
with_length length_text fields (some s) =
    if is_empty length_text then none else Option.map (λ n. (s, fields, n)) (stoul length_text)

-- The head, of which the search has found the blank line, with the last header's CR LF, parsed.
unfoldable pub read_head : ℕ → Bytes → Option (StatusLine × List Field × ℕ)
unfolding parse_status parse_fields
read_head found buffer =
    let head = take (found + 2) buffer in
    let status_line_end = find_text crlf head in
    let fields = parse_fields (length head) (behind_line status_line_end head) in
    with_length (first_value (codes "Content-Length") fields) fields
      (parse_status (upto status_line_end head))

-- `head_end` is the end of the head's blank line.
unfoldable pub read_body : ℕ → Option (StatusLine × List Field × ℕ) → List RecvAnswer → Bytes → Read
unfolding take_body
read_body head_end none answers buffer = threw
read_body head_end (some (s, fields, body_length)) answers buffer =
    take_body s fields head_end body_length answers buffer

-- `found` is where the blank line begins.
abbrev pub read_found : Option ℕ → List RecvAnswer → Bytes → Read
read_found none answers buffer = waits
read_found (some n) answers buffer = read_body (n + 4) (read_head n buffer) answers buffer

abbrev pub read_filled : Filled → Read
read_filled fill_threw = threw
read_filled fill_waits = waits
read_filled (full buffer answers) = read_found (find_text blank_line buffer) answers buffer

-- `read_one`
unfoldable pub read_one : List RecvAnswer → Bytes → Read
unfolding read_head read_body
read_one answers buffer =
    read_filled (fill_while (λ b. is_none (find_text blank_line b)) answers buffer)
