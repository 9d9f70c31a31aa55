-- ===== src/Tests/ServerRuns.antt =====
-- The theorems on the server's loop, its sockets and its options, applied to small histories.
use network_arc_rajasurya.Prelude.{
  ℕ, ◌+◌, ◌*◌, ◌/◌, ◌^◌, ◌≡◌, ◌≤◌, ◌<◌, refl, Bool, true, false, List, [], ◌∷◌, ◌++◌, none, some,
  Bytes, codes, leb, length, equal, if◌then◌else◌, to_string, all_of, is_digit, arith,
}
use network_arc_rajasurya.Prelude.Int.{pos}
use network_arc_rajasurya.Config.{ServerConfig, default_config, max_request_bytes, notice}
use network_arc_rajasurya.FileDescriptor.{
  destroy, reset_object, release_object, act, Action, construct, move_construct, move_assign,
  release_at, reset_at, act_all, no_owners, destroy_all,
}
use network_arc_rajasurya.FileDescriptor.Ownership.{count, destroy_all-closes}
use network_arc_rajasurya.SocketUtils.{Candidate, candidates, create_listening_socket}
use network_arc_rajasurya.SocketUtils.Listening.{Explains, create-Explains}
use network_arc_rajasurya.Server.{
  Server, PollAnswer, Ready, serve_ready, ready, interrupted, accepted, try_next, queue_empty,
  accept_fails, new_server, serve, shut_down_server, poll_timeout_ms, stopped,
}
use network_arc_rajasurya.Server.Invariant.{IsSound}
use network_arc_rajasurya.Server.History.{
  AllRoundsFresh, serve-IsSound, serve-total_buffered, shut_down-closes, server_of, total_buffered,
  AllShut,
}
use network_arc_rajasurya.Server.Progress.{NoneDue, serve_ready-NoneDue}
use network_arc_rajasurya.Server.Timeout.{IsTimely, poll_timeout_ms-IsTimely}
use network_arc_rajasurya.Main.{
  parse_flag, parse_valued, port_value, max_connections_value, parse_number, Doubles, configured,
  parse_arguments,
}
use network_arc_rajasurya.Main.Options.{Usable, parse_arguments-Usable, main-IsSound}
use network_arc_rajasurya.Calculator.{decimal}
use network_arc_rajasurya.Tests.ConnectionRuns.{calculator, socket, default-IsRoomy}

-- One client is accepted and then answered, and the loop is interrupted in between.
abbrev rounds : List PollAnswer
rounds =
    ready (record {
      asked = 0;
      listener_readable = true;
      revents = [];
      now = 1;
      accepts = try_next ∷ accepted socket true ∷ queue_empty ∷ [];
    })
    ∷ interrupted
    ∷ ready (record {
      asked = 2;
      listener_readable = true;
      revents =
          record {
            pollin = true;
            pollout = false;
            pollhup = false;
            pollerr = false;
            pollnval = false;
          }
          ∷ [];
      now = 3;
      accepts = accept_fails 24 ∷ [];
    })
    ∷ []

abbrev served : Server
served = server_of (serve calculator rounds (new_server default_config))

rounds-fresh : AllRoundsFresh rounds
rounds-fresh = ((record { is_open = refl; no_fin = refl }, tt), (tt, tt))

serve-IsSound_example : IsSound default_config served
serve-IsSound_example = serve-IsSound default-IsRoomy calculator rounds rounds-fresh (omega arith)

serve-total_buffered_example :
    total_buffered served.connections
    ≤ default_config.max_connections * max_request_bytes default_config.limits
serve-total_buffered_example =
    serve-total_buffered default-IsRoomy calculator rounds rounds-fresh (omega arith)

rounds_stop : serve calculator rounds (new_server default_config) ≡ stopped served
unfolding serve
rounds_stop = refl

shut_down-closes_example :
    AllShut served.connections (shut_down_server served).1
    × ((shut_down_server served).0.connections ≡ [])
    × ((shut_down_server served).0.listener_open ≡ false)
shut_down-closes_example =
    shut_down-closes default-IsRoomy calculator rounds served rounds-fresh (omega arith) rounds_stop

poll_timeout_ms-IsTimely_example : IsTimely served 7 (poll_timeout_ms served 7)
poll_timeout_ms-IsTimely_example = poll_timeout_ms-IsTimely served 7

-- Nothing is heard until the idle timeout of the client has run out.
abbrev silent_round : Ready
silent_round = record {
  asked = 3;
  listener_readable = false;
  revents = [];
  now = 40000;
  accepts = [];
}

serve_ready-NoneDue_example :
    NoneDue silent_round.now (serve_ready calculator served silent_round).connections
    × (0 < poll_timeout_ms (serve_ready calculator served silent_round) silent_round.now)
serve_ready-NoneDue_example =
    serve_ready-NoneDue default-IsRoomy calculator (omega arith) (omega arith) rounds silent_round
      rounds-fresh (omega arith)

-- The first owner takes the place of the second, which is then released.
abbrev moves : List Action
moves =
    construct (pos 3)
    ∷ construct (pos 4)
    ∷ move_assign 1 0
    ∷ reset_at 0 (pos 5)
    ∷ move_construct 0
    ∷ release_at 1
    ∷ []

destroy_all-closes_example :
    count 4 (destroy_all (act_all no_owners moves).objects (act_all no_owners moves).closes)
      + count 4 (act_all no_owners moves).released
    ≡ count 4 (act_all no_owners moves).adopted
destroy_all-closes_example = destroy_all-closes 4 moves

moves_close :
    destroy_all (act_all no_owners moves).objects (act_all no_owners moves).closes
    ≡ pos 4 ∷ pos 5 ∷ []
unfolding destroy_all act_all act destroy reset_object release_object
moves_close = refl

-- The address of the first candidate is in use.
abbrev offered : List Candidate
offered =
    record {
      socket_fd = pos 5;
      socket_errno = 0;
      bind_errno = some 98;
      listen_errno = none;
      flags = some 2;
      set_flags_succeeds = true;
      fcntl_errno = 0;
    }
    ∷ record {
      socket_fd = pos 6;
      socket_errno = 0;
      bind_errno = none;
      listen_errno = none;
      flags = some 2;
      set_flags_succeeds = true;
      fcntl_errno = 0;
    }
    ∷ []

create-Explains_example :
    Explains to_string
      (codes "localhost" ++ (codes ":" ++ to_string 8080))
      offered
      (create_listening_socket to_string to_string (codes "localhost") 8080 (candidates offered))
create-Explains_example = create-Explains to_string to_string (codes "localhost") 8080 offered

all_digits : Bytes → Bool
unfolding all_of is_digit
all_digits text = all_of is_digit text

truncate_thousandths :
    (low high v : ℕ)
    → low ≤ 2 ^ 53
    → high ≤ 2 ^ 53
    → leb (low * 1000) v ≡ true
    → leb v (high * 1000) ≡ true
    → (low ≤ v / 1000) × (v / 1000 ≤ high)
truncate_thousandths low high v small big h k = ground arith

times_1000_thousandths :
    (high v : ℕ)
    → high * 1000 ≤ 2 ^ 53
    → leb 1 v ≡ true
    → leb v (high * 1000) ≡ true
    → (leb (1 * 1000) (v * 1000) ≡ true) × (leb (v * 1000) (high * 1000 * 1000) ≡ true)
times_1000_thousandths high v big h k = (ground arith, ground arith)

-- Numbers in thousandths, read from whole numbers.
abbrev thousandths : Doubles
unfolding all_digits decimal
thousandths = record {
  Double = ℕ;
  of_ℕ = λ n. n * 1000;
  thousandth = 1;
  strtod = λ text. if all_digits text then (1000 * decimal 0 text, length text) else (0, 0);
  at_most = leb;
  truncate = λ v. v / 1000;
  times_1000 = λ v. v * 1000;
  truncate_bounds = truncate_thousandths;
  times_1000_bounds = times_1000_thousandths;
}

abbrev arguments : List Bytes
arguments =
    codes "--port" ∷ codes "9090" ∷ codes "--quiet" ∷ codes "--max-connections" ∷ codes "5" ∷ []

parse_arguments-Usable_example : Usable (parse_arguments thousandths arguments default_config)
parse_arguments-Usable_example = parse_arguments-Usable thousandths arguments

abbrev small_config : ServerConfig
small_config = record default_config { port = 9090; log_level = notice; max_connections = 5 }

arguments_accepted : parse_arguments thousandths arguments default_config ≡ configured small_config
unfolding parse_arguments parse_flag parse_valued port_value max_connections_value parse_number
    codes equal all_digits decimal
arguments_accepted = refl

main-IsSound_example :
    IsSound small_config (server_of (serve calculator rounds (new_server small_config)))
main-IsSound_example =
    main-IsSound thousandths calculator arguments small_config rounds arguments_accepted
      rounds-fresh (omega arith)
