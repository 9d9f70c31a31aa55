-- ===== src/Connection/Output.antt =====
-- src/connection.cpp: `queue_response` and `flush_output`.
use network_arc_rajasurya.Prelude.{
  ℕ, ◌+◌, ◌/◌, Bool, true, false, List, [], ◌∷◌, ◌++◌, codes, take, drop, length, ltb, leb, ◌==◌,
  if◌then◌else◌, u64, to_string, min,
}
use network_arc_rajasurya.Response.{Response, serialize}
use network_arc_rajasurya.Connection.Socket.{
  eintr, eagain, other_error, SendAnswer, room_for, send_fails,
}
use network_arc_rajasurya.Connection.State.{Connection, closing, pending_output_bytes, close_now}

-- The response with its evidence headers, for the connection and the position on it.
unfoldable pub numbered : ℕ → ℕ → Response → Response
numbered id number r = record r {
  headers =
      r.headers
      ++ (record { name = codes "X-Connection-Id"; value = to_string id }
          ∷ record { name = codes "X-Request-Number"; value = to_string number }
          ∷ []);
}

unfoldable pub queue_response : Connection → Response → Connection
queue_response c response =
    let number = u64 (c.stats.requests + 1) in
    record c {
      stats = record c.stats { requests = number };
      output = c.output ++ serialize (numbered c.id number response);
      state = if response.close_connection then closing else c.state;
    }

abbrev pub set_sends : Connection → List SendAnswer → Connection
set_sends c answers = record c { socket = record c.socket { sends = answers } }

-- `sent == 0`, EAGAIN or EWOULDBLOCK.
abbrev pub blocked : Connection → Connection
blocked c = record c { stats = record c.stats { blocked_sends = u64 (c.stats.blocked_sends + 1) } }

-- `sent > 0`: the system took `count` of the pending bytes.
unfoldable pub sent_some : Connection → ℕ → ℕ → Connection
sent_some c now count = record c {
  socket = record c.socket { wire = c.socket.wire ++ take count (drop c.output_sent c.output) };
  output_sent = c.output_sent + count;
  last_activity = now;
  stats = record c.stats {
    send_calls = u64 (c.stats.send_calls + 1);
    bytes_sent = u64 (c.stats.bytes_sent + count);
    short_sends =
        if ltb count (pending_output_bytes c)
        then u64 (c.stats.short_sends + 1)
        else c.stats.short_sends;
  };
}

-- How the loop of `flush_output` ends: by its test or a `break`, or by the early return.
pub record Flushed : Type 0 where
  pub connection : Connection
  pub sent_any : Bool
  pub returned : Bool

abbrev pub stop : Connection → Bool → Flushed
stop c sent_any = record { connection = c; sent_any = sent_any; returned = false }

-- `while (pending_output_bytes() > 0)`, on the answers to the calls of `send`.
unfoldable pub flush_loop : List SendAnswer → Connection → ℕ → Bool → Flushed
flush_loop [] c now sent_any =
    if ltb 0 (pending_output_bytes c) then stop (blocked c) sent_any else stop c sent_any
flush_loop (room_for n ∷ answers) c now sent_any =
    let count = min n (pending_output_bytes c) in
    let later = flush_loop answers (sent_some (set_sends c answers) now count) now true in
    if ltb 0 (pending_output_bytes c)
    then (if ltb 0 count then later else stop (blocked (set_sends c answers)) sent_any)
    else stop c sent_any
flush_loop (send_fails eintr ∷ answers) c now sent_any =
    let later = flush_loop answers (set_sends c answers) now sent_any in
    if ltb 0 (pending_output_bytes c) then later else stop c sent_any
flush_loop (send_fails eagain ∷ answers) c now sent_any =
    if ltb 0 (pending_output_bytes c)
    then stop (blocked (set_sends c answers)) sent_any
    else stop c sent_any
flush_loop (send_fails (other_error n) ∷ answers) c now sent_any =
    if ltb 0 (pending_output_bytes c)
    then record {
      connection = close_now (set_sends c answers);
      sent_any = sent_any;
      returned = true;
    }
    else stop c sent_any

-- The sent prefix is reclaimed when it is at least half of the buffer.
unfoldable pub reclaim : Connection → Connection
reclaim c =
    if c.output_sent == length c.output
    then record c { output = []; output_sent = 0 }
    else if leb (length c.output / 2) c.output_sent
    then record c { output = drop c.output_sent c.output; output_sent = 0 }
    else c

unfoldable pub flush_output : Connection → ℕ → Connection × Bool
flush_output c now =
    let f = flush_loop c.socket.sends c now false in
    (if f.returned then f.connection else reclaim f.connection, f.sent_any)
