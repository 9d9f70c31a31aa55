-- ===== src/Parser/BodyLength.antt =====
-- src/request_parser.cpp: `determine_body_length`.
use network_arc_rajasurya.Prelude.{
  ℕ, ◌+◌, ◌-◌, ◌*◌, Bool, true, false, ◌&&◌, not, List, [], ◌∷◌, ◌++◌, Option, none, some, Bytes,
  codes, is_empty, ltb, ◌==◌, if◌then◌else◌, u64, is_digit, to_string,
}
use network_arc_rajasurya.Request.{Header}
use network_arc_rajasurya.Text.{iequals, excerpt}
use network_arc_rajasurya.Parser.Result.{Parsed, ok, reject}

-- What the loop over the headers finds.
pub record Framing : Type 0 where
  pub length_headers : ℕ
  pub length_text : Bytes
  pub has_transfer_encoding : Bool

unfoldable pub note_framing : Header → Framing → Framing
note_framing h f =
    if iequals h.name (codes "Content-Length")
    then record f { length_headers = f.length_headers + 1; length_text = h.value }
    else if iequals h.name (codes "Transfer-Encoding")
    then record f { has_transfer_encoding = true }
    else f

unfoldable pub scan_framing : List Header → Framing → Framing
unfolding note_framing
scan_framing [] f = f
scan_framing (h ∷ hs) f = scan_framing hs (note_framing h f)

-- The variables of the loop over the digits.
pub record Digits : Type 0 where
  pub value : ℕ
  pub too_large : Bool

-- One digit: nothing is added once the limit is passed.
unfoldable pub add_digit : ℕ → ℕ → Digits → Digits
add_digit max_body_bytes c d =
    if d.too_large
    then d
    else (let value = u64 (d.value * 10 + (c - b'0')) in
        record { value = value; too_large = ltb max_body_bytes value })

-- `none` where the loop meets a byte that is no digit.
unfoldable pub read_digits : ℕ → Bytes → Digits → Option Digits
unfolding add_digit
read_digits max_body_bytes [] d = some d
read_digits max_body_bytes (c ∷ cs) d =
    if not (is_digit c) then none else read_digits max_body_bytes cs (add_digit max_body_bytes c d)

unfoldable pub parse_length : ℕ → Bytes → Parsed ℕ
unfolding read_digits
parse_length max_body_bytes text =
    elim (read_digits max_body_bytes text (record { value = 0; too_large = false })) [
      | none ↦ reject 400 (
          codes "invalid Content-Length '"
          ++ (excerpt text ++ codes "': must be a non-negative decimal integer"))
      | some d ↦
          if d.too_large
          then reject 413 (
              codes "Content-Length exceeds the "
              ++ (to_string max_body_bytes ++ codes "-byte body limit"))
          else ok d.value
    ]

unfoldable pub decide_body_length : ℕ → Framing → Parsed ℕ
unfolding parse_length
decide_body_length max_body_bytes f =
    if f.has_transfer_encoding && ltb 0 f.length_headers
    then reject 400
        (codes "both Transfer-Encoding and Content-Length present: ambiguous message framing")
    else if f.has_transfer_encoding
    then reject 501 (codes "Transfer-Encoding is not supported; send the body with Content-Length")
    else if ltb 1 f.length_headers
    then reject 400 (codes "multiple Content-Length headers: ambiguous message framing")
    else if f.length_headers == 0
    then ok 0
    else if is_empty f.length_text
    then reject 400 (codes "empty Content-Length")
    else parse_length max_body_bytes f.length_text

unfoldable pub determine_body_length : List Header → ℕ → Parsed ℕ
unfolding scan_framing decide_body_length
determine_body_length headers max_body_bytes = decide_body_length max_body_bytes (
    scan_framing headers
      (record { length_headers = 0; length_text = []; has_transfer_encoding = false }))
