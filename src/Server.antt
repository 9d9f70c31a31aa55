-- ===== src/Server.antt =====
-- include/calc/server.hpp and src/server.cpp: the loop around `poll` that drives all connections.
-- The system's answers are given for each round of the loop. Log lines are not modelled.
pub mod Sound
pub mod Invariant
pub mod History
pub mod Timeout
pub mod Progress
use network_arc_rajasurya.Prelude.{
  ℕ, ◌+◌, ◌-◌, ◌/◌, ◌≤◌, Bool, true, false, ◌&&◌, ◌||◌, not, List, [], ◌∷◌, ◌++◌, map, Option, none,
  some, length, ltb, leb, min, u64, if◌then◌else◌,
}
use network_arc_rajasurya.Config.{ServerConfig, milliseconds}
use network_arc_rajasurya.Request.{Request}
use network_arc_rajasurya.Response.{Response}
use network_arc_rajasurya.Connection.Socket.{Socket}
use network_arc_rajasurya.Connection.State.{Connection, new_connection, is_closed, close}
use network_arc_rajasurya.Connection.{Revents, deadline, on_poll_events, on_deadline}

pub record Server : Type 0 where
  pub config : ServerConfig
  pub listener_open : Bool
  pub connections : List Connection
  pub next_connection_id : ℕ
  pub accept_paused_until : ℕ

-- `kMaxPollWait` and `kAcceptPause`.
abbrev pub max_poll_wait : ℕ
max_poll_wait = milliseconds 1000

abbrev pub accept_pause : ℕ
accept_pause = milliseconds 1000

-- The constructor, once the listening socket is there.
unfoldable pub new_server : ServerConfig → Server
new_server config = record {
  config = config;
  listener_open = true;
  connections = [];
  next_connection_id = 1;
  accept_paused_until = 0;
}

-- What `accept` answers; a socket comes with the answer of `set_nonblocking`.
pub data AcceptAnswer : Type 0 where
  accepted : Socket → Bool → AcceptAnswer
  -- EAGAIN and EWOULDBLOCK
  queue_empty : AcceptAnswer
  -- EINTR, ECONNABORTED and EPROTO
  try_next : AcceptAnswer
  accept_fails : ℕ → AcceptAnswer

abbrev pub admit : Server → Socket → ℕ → Server
admit s socket now = record s {
  next_connection_id = u64 (s.next_connection_id + 1);
  connections = s.connections ++ new_connection socket s.next_connection_id s.config now ∷ [];
}

-- `accept_new_connections`, on the answers of `accept`; behind them the queue is empty. A socket
-- that cannot be made non-blocking is closed by its owner's destructor.
unfoldable pub accept_new_connections : List AcceptAnswer → Server → ℕ → Server
accept_new_connections [] s now = s
accept_new_connections (queue_empty ∷ answers) s now = s
accept_new_connections (try_next ∷ answers) s now =
    let later = accept_new_connections answers s now in
    if ltb (length s.connections) s.config.max_connections then later else s
accept_new_connections (accept_fails error ∷ answers) s now =
    if ltb (length s.connections) s.config.max_connections
    then record s { accept_paused_until = now + accept_pause }
    else s
accept_new_connections (accepted socket nonblocking ∷ answers) s now =
    let later =
      accept_new_connections answers (if nonblocking then admit s socket now else s) now in
    if ltb (length s.connections) s.config.max_connections then later else s

abbrev earlier : ℕ → Option ℕ → ℕ
earlier wake none = wake
earlier wake (some t) = min wake t

-- The loop of `poll_timeout_ms`.
unfoldable pub earliest : List Connection → ℕ → ℕ
earliest [] wake = wake
earliest (c ∷ cs) wake = earliest cs (earlier wake (deadline c))

-- `wake`, the time that `poll_timeout_ms` waits for.
unfoldable pub wake_time : Server → ℕ → ℕ
unfolding earliest
wake_time s now =
    let wake = earliest s.connections (now + max_poll_wait) in
    if ltb now s.accept_paused_until then min wake s.accept_paused_until else wake

-- `std::chrono::ceil` to milliseconds.
abbrev ceil_ms : ℕ → ℕ
ceil_ms t = (t + (milliseconds 1 - 1)) / milliseconds 1

unfoldable pub poll_timeout_ms : Server → ℕ → ℕ
poll_timeout_ms s now =
    let wake = wake_time s now in if leb wake now then 0 else ceil_ms (wake - now)

-- `accepting`, the test for POLLIN on the listener.
unfoldable pub is_accepting : Server → ℕ → Bool
is_accepting s now =
    ltb (length s.connections) s.config.max_connections && leb s.accept_paused_until now

abbrev pub any_event : Revents → Bool
any_event r = r.pollin || r.pollout || r.pollhup || r.pollerr || r.pollnval

-- `now >= deadline`.
abbrev pub is_due : Option ℕ → ℕ → Bool
is_due none now = false
is_due (some t) now = leb t now

-- What one round of the loop meets: the time before `poll`, its answer with `revents` for the listener
-- and the connections (those that are missing are 0), the time behind it, and the answers of `accept`.
pub record Ready : Type 0 where
  pub asked : ℕ
  pub listener_readable : Bool
  pub revents : List Revents
  pub now : ℕ
  pub accepts : List AcceptAnswer

pub data PollAnswer : Type 0 where
  ready : Ready → PollAnswer
  interrupted : PollAnswer
  poll_fails : ℕ → PollAnswer

-- How the loop ends: by the stop request, or by an exception.
pub data Loop : Type 0 where
  stopped : Server → Loop
  threw : ℕ → Server → Loop

-- The connections that are not closed, as `erase` and `remove_if` leave them.
unfoldable pub remove_closed : List Connection → List Connection
remove_closed [] = []
remove_closed (c ∷ cs) = if is_closed c.state then remove_closed cs else c ∷ remove_closed cs

module _ (handler : Request → Option Response) where
  -- The body of the loop over the connections.
  unfoldable pub on_due : Connection → ℕ → Connection
  on_due c now =
      if not (is_closed c.state) && is_due (deadline c) now then on_deadline handler c now else c

  unfoldable pub serve_connection : Connection → Revents → ℕ → Connection
  unfolding on_due
  serve_connection c revents now =
      on_due (if any_event revents then on_poll_events handler c revents now else c) now

  unfoldable pub serve_all : List Connection → List Revents → ℕ → List Connection
  serve_all [] revents now = []
  serve_all (c ∷ cs) [] now = on_due c now ∷ serve_all cs [] now
  serve_all (c ∷ cs) (r ∷ rs) now = serve_connection c r now ∷ serve_all cs rs now

  -- What follows a `poll` that did not fail; it reports the listener only if it was asked to.
  unfoldable pub serve_ready : Server → Ready → Server
  serve_ready s e =
      let served = record s {
        connections = remove_closed (serve_all s.connections e.revents e.now);
      } in
      if e.listener_readable && is_accepting s e.asked
      then accept_new_connections e.accepts served e.now
      else served

  -- The loop of `run`: a round for each answer of `poll`, until the stop request is seen.
  unfoldable pub serve : List PollAnswer → Server → Loop
  serve [] s = stopped s
  serve (interrupted ∷ answers) s = serve answers s
  serve (poll_fails error ∷ answers) s = threw error s
  serve (ready e ∷ answers) s = serve answers (serve_ready s e)

-- What `run` does behind the loop: the server that it leaves, and the connections as it closed them.
unfoldable pub shut_down_server : Server → Server × List Connection
shut_down_server s = (record s { connections = []; listener_open = false }, map close s.connections)
