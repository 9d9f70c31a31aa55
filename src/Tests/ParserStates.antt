-- ===== src/Tests/ParserStates.antt =====
-- The theorems on one call of the parser, applied to a stream that holds a whole request.
use network_arc_rajasurya.Prelude.{◌≡◌, arith}
use network_arc_rajasurya.Config.{default_limits}
use network_arc_rajasurya.Parser.Stream.{view, next_request}
use network_arc_rajasurya.Parser.Validity.{IsValid, feed-IsValid}
use network_arc_rajasurya.Parser.Refinement.{viewed, next-view, next-IsValid, new_parser-IsValid}
use network_arc_rajasurya.Parser.Bounds.{BodyLe, Starves}
use network_arc_rajasurya.Parser.Occupancy.{next-Starves}
use network_arc_rajasurya.Parser.{RequestParser, new_parser, feed, feed_in, compact, next}
use network_arc_rajasurya.Tests.ParserRuns.{two_requests}

abbrev fed : RequestParser
fed = feed (new_parser default_limits) two_requests

fed-IsValid : IsValid fed
fed-IsValid =
    feed-IsValid (new_parser default_limits) two_requests (new_parser-IsValid default_limits)

fed-BodyLe : BodyLe (view fed)
unfolding feed_in compact new_parser
fed-BodyLe = λ _. omega arith

next-view_example : viewed (next fed) ≡ next_request (view fed)
next-view_example = next-view fed fed-IsValid

next-IsValid_example : IsValid (next fed).0
next-IsValid_example = next-IsValid fed fed-IsValid

next-Starves_example : Starves (viewed (next fed))
next-Starves_example = next-Starves fed fed-IsValid fed-BodyLe
