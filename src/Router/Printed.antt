-- ===== src/Router/Printed.antt =====
-- src/request_parser.cpp with src/router.cpp: the bytes of a request, parsed and answered.
use network_arc_rajasurya.Prelude.{
  ℕ, ◌≡◌, refl, ap, Bool, true, [], ◌∷◌, ◌++◌, none, Bytes, codes, drop,
}
use network_arc_rajasurya.Prelude.Int.{ℤ}
use network_arc_rajasurya.Text.{iequals}
use network_arc_rajasurya.Request.{http11, Request, header_in, header_count_in}
use network_arc_rajasurya.Calculator.{Operation, fits}
use network_arc_rajasurya.Query.RoundTrip.{Escapes}
use network_arc_rajasurya.Parser.Result.{complete}
use network_arc_rajasurya.Parser.Validity.{IsValid}
use network_arc_rajasurya.Parser.RoundTrip.{
  Message, print_message, IsPrintable, request_of, next-print,
}
use network_arc_rajasurya.Parser.{RequestParser, head, feed, next}
use network_arc_rajasurya.Router.Host.{is_valid_host}
use network_arc_rajasurya.Router.EndToEnd.{path_of, operands_query, Asks, handle_request-Asks}
use network_arc_rajasurya.Router.Report.{Reports}
use network_arc_rajasurya.Router.{handle_request}

-- The message that asks for an operation on two numbers.
abbrev pub question : (ℕ → Bool) → Operation → ℤ → ℤ → Bytes → Message
question reserved op a b host = record {
  method = codes "GET";
  target = path_of op ++ b'?' ∷ operands_query reserved a b;
  version = http11;
  fields = record { name = codes "Host"; value = host } ∷ [];
  payload = none;
}

question-Asks :
    (reserved : ℕ → Bool) (op : Operation) (a b : ℤ) (host : Bytes) (offset : ℕ)
    → is_valid_host host ≡ true
    → Asks reserved op a b (request_of (question reserved op a b host) offset)
unfolding header_in header_count_in iequals codes
question-Asks reserved op a b host offset v = record {
  host = host;
  one_host = refl;
  has_host = refl;
  valid_host = v;
  is_get = refl;
  target = refl;
}

-- Between requests, the parser that is fed a question about two 64-bit numbers, within its limits and
-- with a valid host, and any bytes behind it returns a request that the router answers with 200 and
-- the digits of the exact result, where that is a 64-bit value, and otherwise with 400 and one of two
-- messages, division by zero or integer overflow.
pub next-question :
    {reserved : ℕ → Bool} (escapes : Escapes reserved) (p : RequestParser) (op : Operation)
    (a b : ℤ) (host rest : Bytes)
    → IsValid p
    → p.state ≡ head
    → drop p.start p.buffer ≡ []
    → IsPrintable p.limits (question reserved op a b host)
    → is_valid_host host ≡ true
    → fits a ≡ true
    → fits b ≡ true
    → (request : Request) × ((next
          (feed p (print_message (question reserved op a b host) ++ rest))).1
        ≡ complete request)
      × Reports op a b (handle_request request)
next-question {reserved} escapes p op a b host rest v between nothing printable valid fa fb =
    let m = question reserved op a b host in
    let parsed = next-print p m rest v between nothing printable in
    let asks = question-Asks reserved op a b host p.stream_offset valid in
    (
      request_of m p.stream_offset,
      ap (λ r. r.1) parsed,
      handle_request-Asks escapes op a b (request_of m p.stream_offset) fa fb asks,
    )
