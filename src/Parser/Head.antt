-- ===== src/Parser/Head.antt =====
-- src/request_parser.cpp: `RequestParser::parse_head`.
use network_arc_rajasurya.Prelude.{
  ℕ, zero, suc, List, [], ◌∷◌, ◌++◌, Option, none, some, Bytes, codes, lf, cr, is_empty, find, upto,
  drop, length, ltb, ◌==◌, if◌then◌else◌, to_string,
}
use network_arc_rajasurya.Config.{Limits}
use network_arc_rajasurya.Request.{Header, Request, empty_request}
use network_arc_rajasurya.Parser.Result.{Parsed, ok, reject, ◌>>=◌}
use network_arc_rajasurya.Parser.RequestLine.{parse_request_line}
use network_arc_rajasurya.Parser.HeaderLine.{parse_header_line}
use network_arc_rajasurya.Parser.BodyLength.{determine_body_length}

-- `remove_suffix(1)` if the last byte is '\r'.
unfoldable pub strip_cr : Bytes → Bytes
strip_cr [] = []
strip_cr (c ∷ []) = if c == cr then [] else c ∷ []
strip_cr (c ∷ d ∷ ds) = c ∷ strip_cr (d ∷ ds)

-- `pos = newline + 1`: with no newline left, `npos + 1` is 0 and the loop would start over.
abbrev pub next_pos : Bytes → Option ℕ → Bytes → Bytes
next_pos head none rest = head
next_pos head (some newline) rest = drop (suc newline) rest

-- The loop that collects the lines, on `rest`, the head from `pos` on. Each round takes at least
-- the newline away, so fuel of the length of the head is enough.
unfoldable pub collect_lines : ℕ → Bytes → Bytes → List Bytes
unfolding strip_cr
collect_lines zero head rest = []
collect_lines (suc fuel) head [] = []
collect_lines (suc fuel) head (c ∷ cs) =
    let newline = find lf (c ∷ cs) in
    let line = strip_cr (upto newline (c ∷ cs)) in
    let lines = collect_lines fuel head (next_pos head newline (c ∷ cs)) in
    if is_empty line then [] else line ∷ lines

unfoldable pub parse_header_lines : List Bytes → List Header → Parsed (List Header)
parse_header_lines [] headers = ok headers
parse_header_lines (line ∷ lines) headers =
    parse_header_line line headers >>= parse_header_lines lines

-- What follows on the lines: the request without its body, and the length of the body.
unfoldable pub parse_lines : Limits → List Bytes → Parsed (Request × ℕ)
unfolding parse_header_lines
parse_lines limits [] = reject 400 (codes "malformed request: missing request line")
parse_lines limits (line ∷ lines) =
    if ltb limits.max_header_count (length lines)
    then reject 431
        (codes "too many header fields (limit " ++ (to_string limits.max_header_count ++ codes ")"))
    else do
      request ← parse_request_line line empty_request
      headers ← parse_header_lines lines []
      body_length ← determine_body_length headers limits.max_body_bytes
      ok (record request { headers = headers }, body_length)

unfoldable pub parse_head : Limits → Bytes → Parsed (Request × ℕ)
unfolding collect_lines parse_lines
parse_head limits head = parse_lines limits (collect_lines (length head) head head)
