-- ===== src/Tests/ConnectionRuns.antt =====
-- The theorems on whole histories of a connection, applied to one that serves two requests.
use network_arc_rajasurya.Prelude.{
  arith, ◌≡◌, ◌≤◌, refl, List, [], ◌∷◌, Option, some, codes, true, false,
}
use network_arc_rajasurya.Config.{default_config, max_request_bytes}
use network_arc_rajasurya.Request.{Request}
use network_arc_rajasurya.Response.{Response}
use network_arc_rajasurya.Router.{handle_request}
use network_arc_rajasurya.Parser.{buffered_bytes}
use network_arc_rajasurya.Connection.Socket.{
  Socket, eintr, arrives, recv_fails, room_for, send_fails,
}
use network_arc_rajasurya.Connection.State.{Connection, new_connection}
use network_arc_rajasurya.Connection.Order.{written, numbered_bytes, last_number, run-in_order}
use network_arc_rajasurya.Connection.Teardown.{Tidy, run-Tidy}
use network_arc_rajasurya.Connection.Rounds.{IsRoomy}
use network_arc_rajasurya.Connection.Waits.{Waits}
use network_arc_rajasurya.Connection.Liveness.{run-Waits}
use network_arc_rajasurya.Connection.Buffer.{run-buffered_bytes}
use network_arc_rajasurya.Connection.{Event, polled, expired, run}

abbrev pub calculator : Request → Option Response
calculator request = some (handle_request request)

-- The second request comes in two parts, and the first `send` takes a part of the response.
abbrev pub socket : Socket
socket = record {
  recvs =
      arrives (codes "GET /add?a=2&b=3 HTTP/1.1\r\nHost: x\r\n\r\nGET /div?a=1")
      ∷ recv_fails eintr
      ∷ arrives (codes "&b=0 HTTP/1.1\r\nHost: x\r\nConnection: close\r\n\r\n")
      ∷ [];
  sends = room_for 20 ∷ send_fails eintr ∷ room_for 1000 ∷ room_for 1000 ∷ [];
  shutdown_succeeds = true;
  wire = [];
  fin_queued = false;
  descriptor_open = true;
}

abbrev events : List Event
events =
    polled
      (record {
        pollin = true;
        pollout = false;
        pollhup = false;
        pollerr = false;
        pollnval = false;
      })
      5
    ∷ polled
        (record {
          pollin = true;
          pollout = false;
          pollhup = false;
          pollerr = false;
          pollnval = false;
        })
        9
    ∷ expired 3000
    ∷ []

abbrev served : Connection
served = run calculator (new_connection socket 7 default_config 0) events

run-in_order_example :
    (rs : List Response) × (written served ≡ numbered_bytes 7 0 rs)
    × (served.stats.requests ≡ last_number 0 rs)
run-in_order_example = run-in_order calculator socket 7 0 default_config events refl

run-buffered_bytes_example : buffered_bytes served.parser ≤ max_request_bytes default_config.limits
run-buffered_bytes_example = run-buffered_bytes calculator socket 7 0 default_config events

pub default-IsRoomy : IsRoomy default_config
default-IsRoomy = record { room = omega arith; body_room = omega arith; output_room = omega arith }

run-Waits_example : Waits served
run-Waits_example = run-Waits calculator socket 7 0 default_config events default-IsRoomy

run-Tidy_example : Tidy served
run-Tidy_example = run-Tidy calculator socket 7 0 default_config events refl refl
