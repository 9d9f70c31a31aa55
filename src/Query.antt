-- ===== src/Query.antt =====
-- include/calc/query.hpp and src/query.cpp: percent escapes and query strings.
pub mod Escapes
pub mod RoundTrip
use mathlib.Core.Option
use network_arc_rajasurya.Prelude.{
  ℕ, zero, suc, ◌+◌, ◌-◌, ◌*◌, Bool, List, [], ◌∷◌, ◌++◌, Option, none, some, Bytes, codes,
  is_empty, find, upto, take, drop, length, within, ◌==◌, if◌then◌else◌,
}
use network_arc_rajasurya.Text.{excerpt}

-- `none` stands for -1.
unfoldable pub hex_value : ℕ → Option ℕ
hex_value c =
    if within b'0' b'9' c
    then some (c - b'0')
    else if within b'a' b'f' c
    then some (c - b'a' + 10)
    else if within b'A' b'F' c
    then some (c - b'A' + 10)
    else none

-- A decoded escape in front of the rest.
abbrev put_escape : Option ℕ → Option ℕ → Option Bytes → Option Bytes
put_escape (some high) (some low) rest = Option.map (◌∷◌ (high * 16 + low)) rest
put_escape (some high) none rest = none
put_escape none low rest = none

unfoldable pub percent_decode : Bytes → Option Bytes
unfolding hex_value
percent_decode [] = some []
percent_decode (c ∷ []) = if c == b'%' then none else some (c ∷ [])
percent_decode (c ∷ d ∷ []) =
    if c == b'%' then none else Option.map (◌∷◌ c) (percent_decode (d ∷ []))
percent_decode (c ∷ d ∷ e ∷ rest) =
    let escape = put_escape (hex_value d) (hex_value e) (percent_decode rest) in
    let plain = Option.map (◌∷◌ c) (percent_decode (d ∷ e ∷ rest)) in
    if c == b'%' then escape else plain

pub record QueryParseResult : Type 0 where
  pub parameters : List (Bytes × Bytes)
  pub error : Bytes

abbrev pub is_ok : QueryParseResult → Bool
is_ok r = is_empty r.error

abbrev fails : List (Bytes × Bytes) → Bytes → QueryParseResult
fails parameters message = record { parameters = parameters; error = message }

-- One segment: its parameter, or the message of its error.
pub data Segment : Type 0 where
  parameter : Bytes → Bytes → Segment
  malformed : Bytes → Segment

-- On the decoded name and value of the segment.
abbrev decoded : Bytes → Option Bytes → Option Bytes → Segment
decoded segment (some name) (some value) = parameter name value
decoded segment (some name) none =
    malformed (
      codes "malformed query string: invalid percent-escape in '" ++ (excerpt segment ++ codes "'"))
decoded segment none value =
    malformed (
      codes "malformed query string: invalid percent-escape in '" ++ (excerpt segment ++ codes "'"))

unfoldable pub parse_segment : Bytes → Segment
parse_segment segment =
    if is_empty segment
    then malformed (codes "malformed query string: empty parameter (stray '&')")
    else elim (find b'=' segment) [
      | none ↦ malformed (
          codes "malformed query string: parameter '"
          ++ (excerpt segment ++ codes "' has no value (expected name=value)"))
      | some eq ↦
          decoded segment (percent_decode (take eq segment))
            (percent_decode (drop (suc eq) segment))
    ]

-- The loop over the segments. Each round takes an '&' away, so fuel of one more than the length of
-- the query is enough.
unfoldable pub parse_segments : ℕ → Bytes → List (Bytes × Bytes) → QueryParseResult
parse_segments zero query parameters = fails parameters []
parse_segments (suc fuel) query parameters =
    let amp = find b'&' query in
    elim (parse_segment (upto amp query)) [
      | malformed message ↦ fails parameters message
      | parameter name value ↦
          let found = parameters ++ (name, value) ∷ [] in
          elim amp [
            | none ↦ fails found []
            | some a ↦ parse_segments fuel (drop (suc a) query) found
          ]
    ]

unfoldable pub parse_query : Bytes → QueryParseResult
unfolding parse_segments
parse_query query =
    if is_empty query then fails [] [] else parse_segments (suc (length query)) query []
