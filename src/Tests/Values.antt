-- ===== src/Tests/Values.antt =====
-- The theorems on numbers and query strings, applied to small values.
use network_arc_rajasurya.Prelude.{ℕ, ◌≡◌, ◌||◌, ◌==◌, refl, Bool, [], ◌∷◌, all_of, some}
use network_arc_rajasurya.Prelude.Int.{negsuc}
use network_arc_rajasurya.Calculator.{
  divide, calculate, int_ok, parse_int64, to_string_ℤ, int64_min,
}
use network_arc_rajasurya.Calculator.Exact.{Answers, calculate-Answers}
use network_arc_rajasurya.Calculator.RoundTrip.{parse_int64-to_string}
use network_arc_rajasurya.Query.{parse_query, percent_decode}
use network_arc_rajasurya.Query.Escapes.{encode, percent_decode-encode}
use network_arc_rajasurya.Query.RoundTrip.{Escapes, print_query, parse_query-print}

calculate-Answers_example :
    Answers divide int64_min (negsuc 0) (calculate divide int64_min (negsuc 0))
calculate-Answers_example = calculate-Answers divide int64_min (negsuc 0) refl refl

parse_int64-to_string_example : parse_int64 (to_string_ℤ int64_min) ≡ int_ok int64_min
parse_int64-to_string_example = parse_int64-to_string int64_min refl

abbrev pub separators : ℕ → Bool
separators b = b == b'%' || b == b'=' || b == b'&'

percent_decode-encode_example :
    percent_decode (encode separators (b'5' ∷ b'%' ∷ 255 ∷ [])) ≡ some (b'5' ∷ b'%' ∷ 255 ∷ [])
unfolding all_of
percent_decode-encode_example = percent_decode-encode separators (b'5' ∷ b'%' ∷ 255 ∷ []) refl refl

pub separators-Escapes : Escapes separators
separators-Escapes = record { percent = refl; equals = refl; ampersand = refl }

parse_query-print_example :
    parse_query (print_query separators (b'a' ∷ [], b'1' ∷ b'=' ∷ []) ((b'b' ∷ [], []) ∷ []))
    ≡ record { parameters = (b'a' ∷ [], b'1' ∷ b'=' ∷ []) ∷ (b'b' ∷ [], []) ∷ []; error = [] }
unfolding all_of
parse_query-print_example =
    parse_query-print separators separators-Escapes (b'a' ∷ [], b'1' ∷ b'=' ∷ [])
      ((b'b' ∷ [], []) ∷ []) (refl, refl, (refl, refl, tt))
