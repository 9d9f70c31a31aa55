-- ===== src/Tests/Messages.antt =====
-- The theorems on printed messages, applied to a question and to a message with a body.
use network_arc_rajasurya.Prelude.{
  ◌≡◌, refl, true, [], ◌∷◌, ◌++◌, some, codes, find, all_of, to_string, arith,
}
use network_arc_rajasurya.Prelude.Int.{pos}
use network_arc_rajasurya.Text.{iequals, trim_whitespace}
use network_arc_rajasurya.Config.{default_config}
use network_arc_rajasurya.Request.{Request, http11}
use network_arc_rajasurya.Calculator.{add, to_string_ℤ}
use network_arc_rajasurya.Query.Escapes.{encode}
use network_arc_rajasurya.Router.{handle_request}
use network_arc_rajasurya.Router.Report.{Reports}
use network_arc_rajasurya.Router.Host.{is_valid_host, is_named_host, is_bracketed_host}
use network_arc_rajasurya.Router.Printed.{question, next-question}
use network_arc_rajasurya.Parser.Result.{complete}
use network_arc_rajasurya.Parser.RequestLine.{is_token}
use network_arc_rajasurya.Parser.Stream.{view}
use network_arc_rajasurya.Parser.Refinement.{viewed, new_parser-IsValid}
use network_arc_rajasurya.Parser.RoundTrip.{
  Message, print_message, IsPrintable, request_of, behind_message, next-print,
}
use network_arc_rajasurya.Parser.{RequestParser, new_parser, feed, next}
use network_arc_rajasurya.Tests.Values.{separators, separators-Escapes}

abbrev posted : Message
posted = record {
  method = codes "POST";
  target = codes "/add";
  version = http11;
  fields = record { name = codes "Host"; value = codes "localhost" } ∷ [];
  payload = some (codes "a=2&b=3");
}

abbrev fresh_parser : RequestParser
fresh_parser = new_parser default_config.limits

posted-IsPrintable : IsPrintable default_config.limits posted
unfolding codes all_of is_token iequals trim_whitespace to_string
posted-IsPrintable = record {
  line = record { is_method = refl; has_slash = refl; is_target = refl };
  headers = (record { is_name = refl; is_value = refl; is_trimmed = refl }, tt);
  unframed = (refl, refl, tt);
  few = omega arith;
  short = omega arith;
  body_le = omega arith;
  body_lt = omega arith;
}

next-print_example :
    viewed (next (feed fresh_parser (print_message posted ++ codes "GET /")))
    ≡ (behind_message posted (view fresh_parser) (codes "GET /"), complete (request_of posted 0))
unfolding new_parser
next-print_example =
    next-print fresh_parser posted (codes "GET /") (new_parser-IsValid default_config.limits) refl
      refl posted-IsPrintable

abbrev sum : Message
sum = question separators add (pos 2) (pos 3) (codes "localhost:8080")

sum-IsPrintable : IsPrintable default_config.limits sum
unfolding codes all_of is_token iequals trim_whitespace to_string to_string_ℤ encode
sum-IsPrintable = record {
  line = record { is_method = refl; has_slash = refl; is_target = refl };
  headers = (record { is_name = refl; is_value = refl; is_trimmed = refl }, tt);
  unframed = (refl, refl, tt);
  few = omega arith;
  short = omega arith;
  body_le = omega arith;
  body_lt = omega arith;
}

host_is_valid : is_valid_host (codes "localhost:8080") ≡ true
unfolding is_valid_host is_named_host is_bracketed_host codes find all_of
host_is_valid = refl

next-question_example :
    (request : Request) × ((next (feed fresh_parser (print_message sum ++ codes "GET /"))).1
      ≡ complete request)
    × Reports add (pos 2) (pos 3) (handle_request request)
unfolding new_parser
next-question_example =
    next-question separators-Escapes fresh_parser add (pos 2) (pos 3) (codes "localhost:8080")
      (codes "GET /") (new_parser-IsValid default_config.limits) refl refl sum-IsPrintable
      host_is_valid refl refl
