-- ===== src/Parser/RequestLine.antt =====
-- src/request_parser.cpp: `parse_request_line` and its character classes.
use network_arc_rajasurya.Prelude.{
  ℕ, suc, ◌-◌, Bool, false, ◌&&◌, ◌||◌, not, ◌++◌, none, some, Bytes, codes, equal, is_empty,
  front_is, byte_is, find, find_from, substr, all_of, length, take, drop, leb, within, ◌==◌,
  if◌then◌else◌, is_digit, get_elem?,
}
use network_arc_rajasurya.Request.{Request, http10, http11}
use network_arc_rajasurya.Text.{excerpt}
use network_arc_rajasurya.Parser.Result.{Parsed, ok, reject}

unfoldable pub is_token_char : ℕ → Bool
is_token_char c =
    within b'a' b'z' c
    || within b'A' b'Z' c
    || within b'0' b'9' c
    || c == b'!'
    || c == b'#'
    || c == b'$'
    || c == b'%'
    || c == b'&'
    || c == b'\''
    || c == b'*'
    || c == b'+'
    || c == b'-'
    || c == b'.'
    || c == b'^'
    || c == b'_'
    || c == b'`'
    || c == b'|'
    || c == b'~'

unfoldable pub is_token : Bytes → Bool
unfolding is_token_char all_of
is_token text = not (is_empty text) && all_of is_token_char text

-- The bytes that the loop over the target lets pass.
abbrev pub is_target_char : ℕ → Bool
is_target_char byte = not (leb byte 0x20 || leb 0x7F byte)

-- `is_digit(text[i])`, where the length has been tested.
abbrev pub digit_at : Bytes → ℕ → Bool
digit_at text i = elim (get_elem? text i) [ none ↦ false | some c ↦ is_digit c ]

unfoldable pub is_http_version : Bytes → Bool
unfolding equal
is_http_version version =
    length version == 8
    && equal (take 5 version) (codes "HTTP/")
    && digit_at version 5
    && byte_is version 6 b'.'
    && digit_at version 7

-- The checks on the three parts of the line.
unfoldable pub check_parts : Bytes → Bytes → Bytes → Request → Parsed Request
unfolding is_token is_http_version
check_parts method target version request =
    if not (is_token method)
    then reject 400
        (codes "malformed request line: invalid method '" ++ (excerpt method ++ codes "'"))
    else if is_empty target || not (front_is b'/' target)
    then reject 400 (
        codes "malformed request line: target must start with '/', got '"
        ++ (excerpt target ++ codes "'"))
    else if not (all_of is_target_char target)
    then reject 400 (codes "malformed request line: invalid character in request target")
    else if not (is_http_version version)
    then reject 400
        (codes "malformed request line: invalid HTTP version '" ++ (excerpt version ++ codes "'"))
    else if not (byte_is version 5 b'1')
    then reject 505 (
        codes "HTTP version " ++ (version ++ codes " is not supported; use HTTP/1.1 (or HTTP/1.0)"))
    else ok (record request {
      method = method;
      target = target;
      version = if byte_is version 7 b'0' then http10 else http11;
    })

abbrev malformed_line : Bytes → Parsed Request
malformed_line line = reject 400 (
    codes "malformed request line '"
    ++ (excerpt line ++ codes "': expected exactly 'METHOD /target HTTP/1.1'"))

-- The text up to the first space, between the first two and behind the second; a third is refused.
unfoldable pub parse_request_line : Bytes → Request → Parsed Request
unfolding check_parts
parse_request_line line request = elim (find b' ' line) [
  | none ↦ malformed_line line
  | some first_space ↦ elim (find_from b' ' (suc first_space) line) [
    | none ↦ malformed_line line
    | some second_space ↦ elim (find_from b' ' (suc second_space) line) [
      | some third_space ↦ malformed_line line
      | none ↦
          check_parts (take first_space line)
            (substr (suc first_space) (second_space - first_space - 1) line)
            (drop (suc second_space) line) request
    ]
  ]
]
