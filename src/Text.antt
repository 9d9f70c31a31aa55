-- ===== src/Text.antt =====
-- src/text.cpp: the text helpers.
use network_arc_rajasurya.Prelude.{
  ℕ, zero, suc, ◌+◌, ◌-◌, Bool, true, false, ◌&&◌, ◌||◌, not, [], ◌∷◌, ◌++◌, Bytes, codes, length,
  ltb, leb, within, ◌==◌, if◌then◌else◌,
}

unfoldable pub to_lower_ascii : ℕ → ℕ
to_lower_ascii c = if within b'A' b'Z' c then c - b'A' + b'a' else c

-- The loop of `iequals`, over texts of one length.
unfoldable pub iequals_loop : Bytes → Bytes → Bool
iequals_loop [] b = true
iequals_loop (x ∷ a) [] = true
iequals_loop (x ∷ a) (y ∷ b) =
    if not (to_lower_ascii x == to_lower_ascii y) then false else iequals_loop a b

unfoldable pub iequals : Bytes → Bytes → Bool
unfolding iequals_loop to_lower_ascii
iequals a b = if not (length a == length b) then false else iequals_loop a b

abbrev pub is_blank : ℕ → Bool
is_blank c = c == b' ' || c == b'\t'

-- The first loop of `trim_whitespace`: `remove_prefix(1)` while the front is blank.
unfoldable pub trim_front : Bytes → Bytes
trim_front [] = []
trim_front (c ∷ cs) = if is_blank c then trim_front cs else c ∷ cs

keep_unless_blank : ℕ → Bytes → Bytes
keep_unless_blank c [] = if is_blank c then [] else c ∷ []
keep_unless_blank c (d ∷ ds) = c ∷ d ∷ ds

-- The second loop, `remove_suffix(1)` while the back is blank: a byte goes when it is blank and
-- all behind it goes too.
unfoldable pub trim_back : Bytes → Bytes
unfolding keep_unless_blank
trim_back [] = []
trim_back (c ∷ cs) = keep_unless_blank c (trim_back cs)

unfoldable pub trim_whitespace : Bytes → Bytes
unfolding trim_front trim_back
trim_whitespace text = trim_back (trim_front text)

-- The loop of `excerpt`: at most `max_length` bytes, the unprintable ones as '?'.
unfoldable pub excerpt_loop : ℕ → Bytes → Bytes
excerpt_loop n [] = []
excerpt_loop zero (c ∷ cs) = []
excerpt_loop (suc n) (c ∷ cs) = (if leb 0x20 c && ltb c 0x7F then c else b'?') ∷ excerpt_loop n cs

unfoldable pub excerpt_to : ℕ → Bytes → Bytes
unfolding excerpt_loop
excerpt_to max_length text =
    excerpt_loop max_length text ++ (if ltb max_length (length text) then codes "..." else [])

-- The default argument of `excerpt`.
unfoldable pub excerpt : Bytes → Bytes
unfolding excerpt_to
excerpt = excerpt_to 40
