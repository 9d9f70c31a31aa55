-- ===== src/Parser/HeaderLine.antt =====
-- src/request_parser.cpp: `parse_header_line`.
use network_arc_rajasurya.Prelude.{
  ℕ, suc, Bool, ◌&&◌, ◌||◌, not, List, [], ◌∷◌, ◌++◌, none, some, Bytes, codes, front_is, find,
  all_of, take, drop, ltb, ◌==◌, if◌then◌else◌,
}
use network_arc_rajasurya.Request.{Header}
use network_arc_rajasurya.Text.{excerpt, trim_whitespace}
use network_arc_rajasurya.Parser.Result.{Parsed, ok, reject}
use network_arc_rajasurya.Parser.RequestLine.{is_token}

-- The bytes that the loop over the value lets pass.
abbrev pub is_value_char : ℕ → Bool
is_value_char byte = not (ltb byte 0x20 && not (byte == b'\t') || byte == 0x7F)

unfoldable pub check_field : Bytes → Bytes → List Header → Parsed (List Header)
unfolding is_token
check_field name value headers =
    if not (is_token name)
    then reject 400
        (codes "malformed header line: invalid header name '" ++ (excerpt name ++ codes "'"))
    else if not (all_of is_value_char value)
    then reject 400 (
        codes "malformed header line: control character in value of '"
        ++ (excerpt name ++ codes "'"))
    else ok (headers ++ record { name = name; value = value } ∷ [])

unfoldable pub parse_header_line : Bytes → List Header → Parsed (List Header)
unfolding check_field
parse_header_line line headers =
    if front_is b' ' line || front_is b'\t' line
    then reject 400 (codes "obsolete header line folding is not supported")
    else elim (find b':' line) [
      | none ↦
          reject 400 (codes "malformed header line '" ++ (excerpt line ++ codes "': missing ':'"))
      | some colon ↦ check_field (take colon line) (trim_whitespace (drop (suc colon) line)) headers
    ]
