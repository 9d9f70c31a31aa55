-- ===== src/Tests/ParserRuns.antt =====
-- The parser on small streams.
use network_arc_rajasurya.Prelude.{
  ◌≡◌, refl, [], ◌∷◌, Bytes, codes, equal, find, find_from, all_of, is_digit, some, List, arith,
  concat,
}
use network_arc_rajasurya.Config.{default_limits}
use network_arc_rajasurya.Text.{iequals, trim_whitespace, excerpt}
use network_arc_rajasurya.Request.{Request, http11}
use network_arc_rajasurya.Parser.Result.{ParseResult, complete}
use network_arc_rajasurya.Parser.RequestLine.{parse_request_line}
use network_arc_rajasurya.Parser.HeaderLine.{parse_header_line}
use network_arc_rajasurya.Parser.BodyLength.{determine_body_length}
use network_arc_rajasurya.Parser.Head.{parse_head}
use network_arc_rajasurya.Parser.Delivery.{deliver}
use network_arc_rajasurya.Parser.Chunks.{outcome, deliver-concat}
use network_arc_rajasurya.Parser.{
  new_parser, feed, feed_in, next, next_in, compact, skip_empty_lines_before_request, skip_loop,
  consume, find_end_of_head, search_loop, next_head, take_head, next_body,
}

abbrev pub two_requests : Bytes
two_requests = codes "\r\nPOST /add?a=1 HTTP/1.1\r\nHost: x \r\ncontent-length: 2\r\n\r\nhiGET"

abbrev first_request : Request
first_request = record {
  method = codes "POST";
  target = codes "/add?a=1";
  version = http11;
  headers =
      record { name = codes "Host"; value = codes "x" }
      ∷ record { name = codes "content-length"; value = codes "2" }
      ∷ [];
  body = codes "hi";
  stream_begin = 2;
  stream_end = 59;
  head_bytes = 55;
}

parse_two_requests :
    (next (feed (new_parser default_limits) two_requests)).1 ≡ complete first_request
unfolding next_in feed_in compact skip_empty_lines_before_request skip_loop consume find_end_of_head
    search_loop next_head take_head next_body new_parser parse_head codes iequals trim_whitespace
    excerpt parse_request_line parse_header_line determine_body_length equal find find_from all_of
    is_digit
parse_two_requests = refl

-- The stream of `two_requests`, in three reads.
abbrev pieces : List Bytes
pieces =
    codes "\r"
    ∷ codes "\nPOST /add?a=1 HTTP/1.1\r\nHost: x \r\nconte"
    ∷ codes "nt-length: 2\r\n\r\nhiGET"
    ∷ []

deliver-concat_example :
    (r : List Request × ParseResult) × (outcome (deliver (new_parser default_limits) pieces)
      ≡ some r)
    × (outcome (deliver (new_parser default_limits) (concat pieces ∷ [])) ≡ some r)
deliver-concat_example = deliver-concat default_limits pieces (omega arith)
