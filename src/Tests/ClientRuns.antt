-- ===== src/Tests/ClientRuns.antt =====
-- The theorems on the router and on the client, applied to requests and responses of the demonstration.
use network_arc_rajasurya.Prelude.{
  ◌≡◌, refl, ap, find, all_of, List, [], ◌∷◌, ◌++◌, map, none, some, Bytes, codes, true, false,
  to_string, arith,
}
use network_arc_rajasurya.Prelude.Int.{pos, negsuc, ◌+ℤ◌}
use network_arc_rajasurya.Request.{Request, http11, header_in, header_count_in}
use network_arc_rajasurya.Text.{iequals}
use network_arc_rajasurya.Query.Escapes.{encode}
use network_arc_rajasurya.Response.{
  Response, text_response, serialize, serialize_head, header_lines, reason_phrase,
}
use network_arc_rajasurya.Calculator.{add, to_string_ℤ}
use network_arc_rajasurya.Router.Report.{Reports, reports_result, reports_reason}
use network_arc_rajasurya.Router.{handle_request}
use network_arc_rajasurya.Connection.Output.{numbered}
use network_arc_rajasurya.Router.Host.{is_valid_host, is_named_host, is_bracketed_host}
use network_arc_rajasurya.Router.EndToEnd.{Asks, handle_request-Asks}
use network_arc_rajasurya.Router.Soundness.{
  HasHost, Earned, handle_request-Earned, Plain, handle_request-Plain,
}
use network_arc_rajasurya.Connection.Socket.{
  SendAnswer, room_for, send_fails, RecvAnswer, arrives, recv_fails, eintr,
}
use network_arc_rajasurya.Connection.Order.{numbered_bytes}
use network_arc_rajasurya.DemoClient.{Exchange, same_connection}
use network_arc_rajasurya.DemoClient.Session.{Channel, receive_all, requests_of, exchange_all}
use network_arc_rajasurya.DemoClient.Sockets.{
  Peer, peers, connect_once, Accounts, connect_once-Accounts, Sends, send_all, all_sent,
  send_all-Sends,
}
use network_arc_rajasurya.DemoClient.Table.{pad, IsCell, pad-IsCell}
use network_arc_rajasurya.DemoClient.Wire.{Ends, Answered, exchange_all-Answered}
use network_arc_rajasurya.DemoClient.Reader.{read_one}
use network_arc_rajasurya.DemoClient.Filling.{Delivers, arriving}
use network_arc_rajasurya.DemoClient.Texts.{received}
use network_arc_rajasurya.DemoClient.RoundTrip.{IsRead, read_one-serialize}
use network_arc_rajasurya.DemoClient.Pipeline.{
  AreBare, numbered_all, AllReadable, IsReceived, receive_all-same_connection,
}
use network_arc_rajasurya.Tests.Values.{separators, separators-Escapes}

abbrev addition : Request
addition = record {
  method = codes "GET";
  target = codes "/add?a=2&b=3";
  version = http11;
  headers = record { name = codes "Host"; value = codes "localhost:8080" } ∷ [];
  body = [];
  stream_begin = 0;
  stream_end = 0;
  head_bytes = 0;
}

addition-Asks : Asks separators add (pos 2) (pos 3) addition
unfolding header_count_in header_in iequals codes is_valid_host is_named_host is_bracketed_host
    all_of find encode to_string_ℤ to_string
addition-Asks = record {
  host = codes "localhost:8080";
  one_host = refl;
  has_host = refl;
  valid_host = refl;
  is_get = refl;
  target = refl;
}

handle_request-Asks_example : Reports add (pos 2) (pos 3) (handle_request addition)
handle_request-Asks_example =
    handle_request-Asks separators-Escapes add (pos 2) (pos 3) addition refl refl addition-Asks

addition-Reports : Reports add (pos 2) (pos 3) (handle_request addition)
addition-Reports =
    handle_request-Asks separators-Escapes add (pos 2) (pos 3) addition refl refl addition-Asks

addition_succeeds : (handle_request addition).status ≡ 200
unfolding ◌+ℤ◌
addition_succeeds = elim addition-Reports [
  | reports_result v exact in_range ok body ↦ ok
  | reports_reason none_fits bad body ↦ absurd (let h = none_fits (pos 5) refl in cc)
]

handle_request-Earned_example : HasHost addition × Earned addition (handle_request addition)
handle_request-Earned_example = handle_request-Earned addition addition_succeeds

handle_request-Plain_example : Plain (handle_request addition)
handle_request-Plain_example = handle_request-Plain addition

abbrev two_answers : List Response
two_answers = text_response 200 (codes "5") ∷ text_response 400 (codes "division by zero") ∷ []

-- The bytes come one by one, each behind an interruption.
in_pieces : Bytes → List RecvAnswer
in_pieces [] = []
in_pieces (b ∷ bs) = recv_fails eintr ∷ arrives (b ∷ []) ∷ in_pieces bs

in_pieces-Delivers : (bytes : Bytes) → Delivers (in_pieces bytes)
unfolding in_pieces
in_pieces-Delivers [] = tt
in_pieces-Delivers (b ∷ bs) = (omega arith, in_pieces-Delivers bs)

arriving-in_pieces : (bytes : Bytes) → arriving (in_pieces bytes) ≡ bytes
unfolding in_pieces
arriving-in_pieces [] = refl
arriving-in_pieces (b ∷ bs) = ap (λ t. b ∷ t) (arriving-in_pieces bs)

two_answers-AllReadable : AllReadable (numbered_all 7 0 two_answers)
unfolding serialize serialize_head header_lines reason_phrase numbered text_response codes find
    all_of to_string
two_answers-AllReadable = (
  record {
    sends_body = refl;
    status_int = omega arith;
    total = omega arith;
    plain = (
      record { no_colon = refl; key_line = refl; value_line = refl; no_space = refl },
      (record { no_colon = refl; key_line = refl; value_line = refl; no_space = refl }, tt),
    );
  },
  (
    record {
      sends_body = refl;
      status_int = omega arith;
      total = omega arith;
      plain = (
        record { no_colon = refl; key_line = refl; value_line = refl; no_space = refl },
        (record { no_colon = refl; key_line = refl; value_line = refl; no_space = refl }, tt),
      );
    },
    tt,
  ),
)

two_answers-AreBare : AreBare two_answers
unfolding text_response header_in
two_answers-AreBare = (refl, refl, (refl, refl, tt))

abbrev first_answer : Response
first_answer = numbered 7 1 (text_response 200 (codes "5"))

abbrev its_stream : Bytes
its_stream = serialize first_answer ++ codes "HTTP"

read_one-serialize_example :
    IsRead (read_one (in_pieces its_stream) []) (received first_answer) (codes "HTTP")
read_one-serialize_example =
    read_one-serialize first_answer (in_pieces its_stream) [] (codes "HTTP")
      two_answers-AllReadable.0 (in_pieces-Delivers its_stream) (arriving-in_pieces its_stream)

abbrev pipeline : Bytes
pipeline = numbered_bytes 7 0 two_answers ++ []

abbrev channel : Channel
channel = record { sends = []; recvs = in_pieces pipeline; wire = []; buffer = [] }

receive_all-same_connection_example :
    IsReceived (receive_all 2 channel) (map received (numbered_all 7 0 two_answers)) channel []
    × (same_connection (to_string 7) 0 (map received (numbered_all 7 0 two_answers)) ≡ true)
receive_all-same_connection_example =
    receive_all-same_connection 7 two_answers channel [] two_answers-AllReadable two_answers-AreBare
      (omega arith) (in_pieces-Delivers pipeline) (arriving-in_pieces pipeline)

abbrev text : Bytes
text = codes "GET /add"

abbrev answers : List SendAnswer
answers = room_for 3 ∷ send_fails eintr ∷ room_for 100 ∷ []

send_all-Sends_example : Sends text (send_all text answers [])
send_all-Sends_example = send_all-Sends text answers [] text refl

text_is_sent : send_all text answers [] ≡ all_sent text []
unfolding send_all codes
text_is_sent = refl

-- The first socket is not made, and the second is refused.
abbrev offered : List Peer
offered =
    record { socket_fd = negsuc 0; connect_errno = none }
    ∷ record { socket_fd = pos 3; connect_errno = some 111 }
    ∷ record { socket_fd = pos 3; connect_errno = none }
    ∷ []

connect_once-Accounts_example :
    Accounts offered
      (connect_once to_string to_string (codes "localhost") (codes "80") (peers offered))
connect_once-Accounts_example =
    connect_once-Accounts to_string to_string (codes "localhost") (codes "80") offered

pad-IsCell_example : IsCell (codes "division by zero") 9 (pad (codes "division by zero") 9)
pad-IsCell_example = pad-IsCell (codes "division by zero") 9 (omega arith) (omega arith)

abbrev one_exchange : List Exchange
one_exchange =
    record {
      label = codes "GET /add";
      request = text;
      expected_status = 200;
      expected_body = codes "5\n";
    }
    ∷ []

abbrev talking : Channel
talking = record { sends = answers; recvs = in_pieces its_stream; wire = []; buffer = [] }

exchange_all-Answered_example :
    Ends (Answered talking (requests_of one_exchange) 1) (exchange_all false one_exchange talking)
exchange_all-Answered_example = exchange_all-Answered false one_exchange talking

-- A column of width 3 has no space behind a text of three bytes.
narrow_cell : pad (codes "100") 3 ≡ codes "100"
unfolding pad codes
narrow_cell = refl
