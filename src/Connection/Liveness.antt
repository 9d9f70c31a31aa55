-- ===== src/Connection/Liveness.antt =====
-- src/connection.cpp: after every event a connection waits for something that `poll` can report.
use network_arc_rajasurya.Prelude.{
  ℕ, zero, suc, ◌+◌, ◌<◌, ◌≡◌, ◌⊎◌, inl, inr, refl, true, false, ◌&&◌, ◌||◌, List, [], ◌∷◌, Option,
  length, ltb, ◌==◌, arith, either_case, either_branch, Bytes, u64,
}
use network_arc_rajasurya.Config.{ServerConfig, max_request_bytes}
use network_arc_rajasurya.Request.{Request}
use network_arc_rajasurya.Response.{Response}
use network_arc_rajasurya.Parser.{new_parser, has_partial_request}
use network_arc_rajasurya.Connection.Socket.{
  eintr, eagain, other_error, RecvAnswer, arrives, recv_fails, Socket, recv_retrying,
}
use network_arc_rajasurya.Connection.State.{
  State, active, closing, draining, closed, Connection, new_connection, is_active, is_closing,
  is_closed, is_draining, pending_output_bytes, wants_to_read, poll_events_in, close_now,
}
use network_arc_rajasurya.Connection.Input.{
  set_recvs, on_discarded, on_discard, discard_lingering_input, read_from_socket,
}
use network_arc_rajasurya.Connection.Output.{queue_response}
use network_arc_rajasurya.Connection.Paths.{read_from_socket-Leads}
use network_arc_rajasurya.Connection.Runs.{handle_event-Leads}
use network_arc_rajasurya.Connection.Buffer.{
  IsBounded, buffered-unread, Reach-IsBounded, new_connection-IsBounded,
}
use network_arc_rajasurya.Connection.Rounds.{IsRoomy, Alive, Rests}
use network_arc_rajasurya.Connection.Waits.{
  Waits, bounded-Alive, supply, advance_loop-Rests, close_now-Waits, draining-Waits, linger-Waits,
  pending-Waits, reading-Waits,
}
use network_arc_rajasurya.Connection.{
  settle, advance_fuel, advance_loop, advance, Revents, Event, polled, expired, shut_down,
  on_poll_events, on_idle, on_deadline_in, handle_event, run,
}

on_discarded-Waits :
    (c : Connection) (bytes : Bytes) → c.state ≡ draining → Waits (on_discarded c bytes)
unfolding on_discarded
on_discarded-Waits c [] st = close_now-Waits c
on_discarded-Waits c (b ∷ bs) st =
    let counted = record c { lingered_bytes = u64 (c.lingered_bytes + length (b ∷ bs)) } in
    either_branch Waits (ltb c.config.max_linger_bytes counted.lingered_bytes) (close_now counted)
      counted (close_now-Waits counted) (draining-Waits counted st)

on_discard-Waits : (c : Connection) (a : RecvAnswer) → c.state ≡ draining → Waits (on_discard c a)
unfolding on_discard
on_discard-Waits c (arrives bytes) st = on_discarded-Waits c _ st
on_discard-Waits c (recv_fails eagain) st = draining-Waits c st
on_discard-Waits c (recv_fails eintr) st = close_now-Waits c
on_discard-Waits c (recv_fails (other_error n)) st = close_now-Waits c

discard-Waits : (c : Connection) → c.state ≡ draining → Waits (discard_lingering_input c)
unfolding discard_lingering_input
discard-Waits c st =
    let r = recv_retrying c.socket.recvs in on_discard-Waits (set_recvs c r.1) r.0 st

module _ {config : ServerConfig} (roomy : IsRoomy config) where
  -- By the state, when nothing more is to be done.
  resting-Waits :
      (st : State) (c : Connection)
      → c.state ≡ st
      → Alive config c
      → Rests c
      → (is_active c.state && c.peer_finished_sending && pending_output_bytes c == 0) ≡ false
      → (is_closing c.state && pending_output_bytes c == 0) ≡ false
      → Waits c
  resting-Waits closed c e a rests open_end unsent = inl e
  resting-Waits draining c e a rests open_end unsent = draining-Waits c e
  resting-Waits closing c e a rests open_end unsent = pending-Waits c (inr e) (ground arith)
  resting-Waits active c e a rests open_end unsent = elim (some_or_none (pending_output_bytes c)) [
    | inl h ↦ pending-Waits c (inl e) h
    | inr h ↦ reading-Waits roomy c a rests e h (ground arith)
  ]
    where
      some_or_none : (n : ℕ) → (0 < n) ⊎ (n ≡ 0)
      some_or_none zero = inr refl
      some_or_none (suc n) = inl (omega arith)

  settle-Waits : (c : Connection) (now : ℕ) → Alive config c → Rests c → Waits (settle c now)
  unfolding settle
  settle-Waits c now a rests =
      either_case Waits
        (is_active c.state && c.peer_finished_sending && pending_output_bytes c == 0) _ _
        (λ _. close_now-Waits c)
        (λ open_end.
          either_case Waits (is_closing c.state && pending_output_bytes c == 0) _ _
            (λ _.
              either_branch Waits c.peer_finished_sending _ _ (close_now-Waits c)
                (linger-Waits c now))
            (λ unsent. resting-Waits c.state c refl a rests open_end unsent))

  module _ (handler : Request → Option Response) where
    -- The fuel of the loop is enough.
    advance-Waits : (c : Connection) (now : ℕ) → Alive config c → Waits (advance handler c now)
    unfolding advance
    advance-Waits c now a =
        let (alive, rests) =
          advance_loop-Rests roomy handler (advance_fuel handler c) c now a (enough c) in
        settle-Waits (advance_loop handler (advance_fuel handler c) c now) now alive rests
      where
        enough : (c : Connection) → supply c < advance_fuel handler c
        enough c = ground (arith, buffered-unread c.parser)

    read-IsBounded :
        (c : Connection) (now : ℕ)
        → wants_to_read c ≡ true
        → IsBounded config c
        → IsBounded config (read_from_socket c now)
    read-IsBounded c now w h =
        let l = read_from_socket-Leads handler c now w in Reach-IsBounded l.reach h

    on_poll_events-Waits :
        (c : Connection) (revents : Revents) (now : ℕ)
        → IsBounded config c
        → Waits (on_poll_events handler c revents now)
    unfolding on_poll_events
    on_poll_events-Waits c revents now h =
        either_case Waits (is_closed c.state) _ _ (λ e. inl (ground arith))
          (λ _. either_branch Waits revents.pollnval _ _ (close_now-Waits c) (
            either_branch Waits revents.pollerr _ _ (close_now-Waits c) (
              either_case Waits (is_draining c.state) _ _
                (λ e.
                  let st : c.state ≡ draining = ground arith in
                  either_branch Waits (revents.pollin || revents.pollhup) _ _ (discard-Waits c st)
                    (draining-Waits c st))
                (λ _. advance-Waits _ now (
                  bounded-Alive _ (
                    either_case (IsBounded config)
                      ((revents.pollin || revents.pollhup) && wants_to_read c) _ _
                      (λ both. read-IsBounded c now (ground arith) h) (λ _. h)))))))

    on_idle-Waits : (c : Connection) (now : ℕ) → IsBounded config c → Waits (on_idle handler c now)
    unfolding on_idle queue_response
    on_idle-Waits c now h =
        either_branch Waits (ltb 0 (pending_output_bytes c)) _ _ (close_now-Waits c) (
          either_branch Waits (has_partial_request c.parser) _ _
            (advance-Waits _ now (record { same_config = h.0; holds = h.1; body_le = h.1.body_le }))
            (close_now-Waits c))

    on_deadline-Waits :
        (st : State) (c : Connection) (now : ℕ)
        → c.state ≡ st
        → IsBounded config c
        → Waits (on_deadline_in handler st c now)
    unfolding on_deadline_in
    on_deadline-Waits active c now e h = on_idle-Waits c now h
    on_deadline-Waits closing c now e h = close_now-Waits c
    on_deadline-Waits draining c now e h = close_now-Waits c
    on_deadline-Waits closed c now e h = inl e

    pub handle_event-Waits :
        (c : Connection) (e : Event) → IsBounded config c → Waits (handle_event handler c e)
    unfolding handle_event
    handle_event-Waits c (polled revents now) h = on_poll_events-Waits c revents now h
    handle_event-Waits c (expired now) h = on_deadline-Waits c.state c now refl h
    handle_event-Waits c shut_down h = close_now-Waits c

    from-Waits :
        (c : Connection) (es : List Event) → IsBounded config c → Waits c → Waits (run handler c es)
    unfolding run
    from-Waits c [] h w = w
    from-Waits c (e ∷ es) h w =
        let l = handle_event-Leads handler c e in
        from-Waits (handle_event handler c e) es (Reach-IsBounded l.reach h)
          (handle_event-Waits c e h)

pub new_connection-Waits :
    (socket : Socket) (id now : ℕ) (config : ServerConfig)
    → IsRoomy config
    → Waits (new_connection socket id config now)
unfolding new_connection new_parser poll_events_in wants_to_read max_request_bytes
new_connection-Waits socket id now config roomy =
    inr (inl (ground (arith, roomy.room, roomy.body_room, roomy.output_room)))

module _ (handler : Request → Option Response) where
  -- Whatever events and system answers a new connection meets, afterwards it is closed, or it asks
  -- `poll` for POLLIN or for POLLOUT, provided that the configured limits leave room for a byte of
  -- body, the high water mark for a byte of output, and the sum of the limits is below 2^64.
  pub run-Waits :
      (socket : Socket) (id now : ℕ) (config : ServerConfig) (es : List Event)
      → IsRoomy config
      → Waits (run handler (new_connection socket id config now) es)
  run-Waits socket id now config es roomy =
      from-Waits roomy handler (new_connection socket id config now) es
        (new_connection-IsBounded socket id now config)
        (new_connection-Waits socket id now config roomy)
