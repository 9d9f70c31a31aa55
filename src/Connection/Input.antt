-- ===== src/Connection/Input.antt =====
-- src/connection.cpp: `read_from_socket` and `discard_lingering_input`.
use network_arc_rajasurya.Prelude.{
  ℕ, ◌+◌, ◌-◌, true, List, [], ◌∷◌, Bytes, take, length, ltb, if◌then◌else◌, u64, min,
}
use network_arc_rajasurya.Config.{max_request_bytes}
use network_arc_rajasurya.Parser.{buffered_bytes, feed}
use network_arc_rajasurya.Connection.Socket.{
  eintr, eagain, other_error, RecvAnswer, arrives, recv_fails, recv_retrying,
}
use network_arc_rajasurya.Connection.State.{Connection, recv_chunk_bytes, close_now}

-- The answers that a call of `recv` has used up.
abbrev pub set_recvs : Connection → List RecvAnswer → Connection
set_recvs c answers = record c { socket = record c.socket { recvs = answers } }

-- `received > 0`, and `received == 0`.
unfoldable pub on_received : Connection → ℕ → Bytes → Connection
on_received c now [] = record c { peer_finished_sending = true; last_activity = now }
on_received c now (b ∷ bs) = record c {
  stats = record c.stats {
    recv_calls = u64 (c.stats.recv_calls + 1);
    bytes_received = u64 (c.stats.bytes_received + length (b ∷ bs));
  };
  last_activity = now;
  parser = feed c.parser (b ∷ bs);
}

-- After the retries; an interruption is not left.
unfoldable pub on_recv : Connection → ℕ → ℕ → RecvAnswer → Connection
on_recv c now want (arrives bytes) = on_received c now (take want bytes)
on_recv c now want (recv_fails eagain) = c
on_recv c now want (recv_fails eintr) = close_now c
on_recv c now want (recv_fails (other_error n)) = close_now c

unfoldable pub recv_want : Connection → ℕ
recv_want c = min recv_chunk_bytes (max_request_bytes c.config.limits - buffered_bytes c.parser)

unfoldable pub read_from_socket : Connection → ℕ → Connection
read_from_socket c now =
    let (answer, answers) = recv_retrying c.socket.recvs in
    on_recv (set_recvs c answers) now (recv_want c) answer

-- What is received in the lingering close is only counted.
unfoldable pub on_discarded : Connection → Bytes → Connection
on_discarded c [] = close_now c
on_discarded c (b ∷ bs) =
    let lingered = u64 (c.lingered_bytes + length (b ∷ bs)) in
    let counted = record c { lingered_bytes = lingered } in
    if ltb c.config.max_linger_bytes lingered then close_now counted else counted

unfoldable pub on_discard : Connection → RecvAnswer → Connection
on_discard c (arrives bytes) = on_discarded c (take recv_chunk_bytes bytes)
on_discard c (recv_fails eagain) = c
on_discard c (recv_fails eintr) = close_now c
on_discard c (recv_fails (other_error n)) = close_now c

unfoldable pub discard_lingering_input : Connection → Connection
discard_lingering_input c =
    let (answer, answers) = recv_retrying c.socket.recvs in on_discard (set_recvs c answers) answer
