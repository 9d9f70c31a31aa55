-- ===== src/Connection/State.antt =====
-- include/calc/connection.hpp: the state of a connection, and the small functions on it.
use network_arc_rajasurya.Prelude.{
  ℕ, ◌-◌, ◌*◌, Bool, true, false, ◌&&◌, not, [], Bytes, length, ltb, if◌then◌else◌,
}
use network_arc_rajasurya.Config.{ServerConfig, max_request_bytes}
use network_arc_rajasurya.Parser.{RequestParser, new_parser, buffered_bytes}
use network_arc_rajasurya.Connection.Socket.{Socket}

pub record ConnectionStats : Type 0 where
  pub requests : ℕ
  pub bytes_received : ℕ
  pub recv_calls : ℕ
  pub bytes_sent : ℕ
  pub send_calls : ℕ
  pub short_sends : ℕ
  pub blocked_sends : ℕ

pub data State : Type 0 where
  active closing draining closed : State

pub record Connection : Type 0 where
  pub socket : Socket
  pub id : ℕ
  pub config : ServerConfig
  pub parser : RequestParser
  pub output : Bytes
  pub output_sent : ℕ
  pub state : State
  pub peer_finished_sending : Bool
  pub last_activity : ℕ
  pub linger_deadline : ℕ
  pub lingered_bytes : ℕ
  pub stats : ConnectionStats

-- The constructor.
unfoldable pub new_connection : Socket → ℕ → ServerConfig → ℕ → Connection
new_connection socket id config now = record {
  socket = socket;
  id = id;
  config = config;
  parser = new_parser config.limits;
  output = [];
  output_sent = 0;
  state = active;
  peer_finished_sending = false;
  last_activity = now;
  linger_deadline = 0;
  lingered_bytes = 0;
  stats = record {
    requests = 0;
    bytes_received = 0;
    recv_calls = 0;
    bytes_sent = 0;
    send_calls = 0;
    short_sends = 0;
    blocked_sends = 0;
  };
}

-- `kRecvChunkBytes`.
abbrev pub recv_chunk_bytes : ℕ
recv_chunk_bytes = 16 * 1024

abbrev pub is_active : State → Bool
is_active active = true
is_active closing = false
is_active draining = false
is_active closed = false

abbrev pub is_closing : State → Bool
is_closing active = false
is_closing closing = true
is_closing draining = false
is_closing closed = false

abbrev pub is_draining : State → Bool
is_draining active = false
is_draining closing = false
is_draining draining = true
is_draining closed = false

abbrev pub is_closed : State → Bool
is_closed active = false
is_closed closing = false
is_closed draining = false
is_closed closed = true

abbrev pub pending_output_bytes : Connection → ℕ
pending_output_bytes c = length c.output - c.output_sent

unfoldable pub wants_to_read : Connection → Bool
wants_to_read c =
    is_active c.state
    && not c.peer_finished_sending
    && ltb (pending_output_bytes c) c.config.output_high_water
    && ltb (buffered_bytes c.parser) (max_request_bytes c.config.limits)

-- The bits POLLIN and POLLOUT of the events that `poll` is asked for.
pub record Events : Type 0 where
  pub pollin : Bool
  pub pollout : Bool

unfoldable pub poll_events_in : State → Connection → Events
poll_events_in active c = record {
  pollin = wants_to_read c;
  pollout = ltb 0 (pending_output_bytes c);
}
poll_events_in closing c = record { pollin = false; pollout = ltb 0 (pending_output_bytes c) }
poll_events_in draining c = record { pollin = true; pollout = false }
poll_events_in closed c = record { pollin = false; pollout = false }

abbrev pub poll_events : Connection → Events
poll_events c = poll_events_in c.state c

-- Without the log line; the descriptor is closed.
unfoldable pub close_now : Connection → Connection
close_now c =
    if is_closed c.state
    then c
    else record c { socket = record c.socket { descriptor_open = false }; state = closed }

-- `close`, when the server shuts down.
abbrev pub close : Connection → Connection
close c = close_now c
