-- ===== src/Router/Host.antt =====
-- src/router.cpp: `is_valid_host`.
use network_arc_rajasurya.Prelude.{
  ℕ, suc, ◌-◌, Bool, false, ◌||◌, not, Option, none, some, Bytes, [], is_empty, front_is, find,
  upto, substr, all_of, drop, within, ◌==◌, if◌then◌else◌,
}

abbrev pub is_ascii_digit : ℕ → Bool
is_ascii_digit = within b'0' b'9'

abbrev pub is_ascii_alnum : ℕ → Bool
is_ascii_alnum c = is_ascii_digit c || within b'a' b'z' c || within b'A' b'Z' c

abbrev pub is_ascii_hex : ℕ → Bool
is_ascii_hex c = is_ascii_digit c || within b'a' b'f' c || within b'A' b'F' c

abbrev is_address_char : ℕ → Bool
is_address_char c = is_ascii_hex c || c == b':' || c == b'.'

abbrev is_name_char : ℕ → Bool
is_name_char c = is_ascii_alnum c || c == b'-' || c == b'.' || c == b'_' || c == b'~'

-- The loop over the port, which every accepted host reaches.
abbrev is_port : Bytes → Bool
is_port port = all_of is_ascii_digit port

-- Behind the bracket: nothing, or a colon and the port.
abbrev is_bracket_rest : Bytes → Bool
is_bracket_rest rest =
    if is_empty rest
    then is_port []
    else if not (front_is b':' rest)
    then false
    else is_port (drop 1 rest)

unfoldable pub is_bracketed_host : Bytes → Bool
is_bracketed_host host = elim (find b']' host) [
  | none ↦ false
  | some close ↦
      if close == 1
      then false
      else if not (all_of is_address_char (substr 1 (close - 1) host))
      then false
      else is_bracket_rest (drop (suc close) host)
]

abbrev port_behind : Option ℕ → Bytes → Bytes
port_behind none host = []
port_behind (some colon) host = drop (suc colon) host

unfoldable pub is_named_host : Bytes → Bool
is_named_host host =
    let colon = find b':' host in
    let name = upto colon host in
    if is_empty name
    then false
    else if not (all_of is_name_char name)
    then false
    else is_port (port_behind colon host)

unfoldable pub is_valid_host : Bytes → Bool
unfolding is_bracketed_host is_named_host
is_valid_host host =
    if is_empty host
    then false
    else if front_is b'[' host
    then is_bracketed_host host
    else is_named_host host
