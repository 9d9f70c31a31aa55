-- ===== src/Connection/Paths.antt =====
-- Every operation of src/connection.cpp is a sequence of the steps.
use network_arc_rajasurya.Prelude.{
  ℕ, zero, suc, ◌+◌, ◌<◌, ◌≡◌, inl, inr, refl, Bool, true, false, ◌&&◌, ◌||◌, List, [], ◌∷◌, Option,
  ltb, if◌then◌else◌, arith, min, Bool-cases, either_branch, either_case,
}
use network_arc_rajasurya.Request.{Request}
use network_arc_rajasurya.Response.{Response}
use network_arc_rajasurya.Parser.Result.{ParseResult, incomplete, complete, error}
use network_arc_rajasurya.Parser.{RequestParser, buffered_bytes, next}
use network_arc_rajasurya.Connection.Socket.{
  eintr, eagain, other_error, RecvAnswer, arrives, recv_fails, SendAnswer, room_for, send_fails,
  recv_retrying,
}
use network_arc_rajasurya.Connection.State.{
  State, active, closing, draining, closed, Connection, is_active, is_draining,
  pending_output_bytes, wants_to_read,
}
use network_arc_rajasurya.Connection.Input.{
  set_recvs, on_recv, recv_want, read_from_socket, on_discard, discard_lingering_input,
}
use network_arc_rajasurya.Connection.Output.{
  set_sends, blocked, sent_some, Flushed, stop, flush_loop, flush_output,
}
use network_arc_rajasurya.Connection.{
  settle, on_parsed, respond_loop, respond_to_buffered_requests, advance_round, advance_loop,
  advance_fuel, advance, Revents, on_poll_events, on_idle, on_deadline_in, on_deadline,
}
use network_arc_rajasurya.Connection.Steps.{
  uses_recvs, uses_sends, receives, waits, answers, refuses, times_out, sends, blocks, reclaims,
  lingers, discards, closes, Leads, Leads-refl, Leads-Step, one-Step, Leads-trans,
}

active_of :
    (c : Connection)
    → (is_active c.state && ltb (pending_output_bytes c) c.config.output_high_water) ≡ true
    → c.state ≡ active
active_of c h = ground arith

room_of :
    (c : Connection)
    → (is_active c.state && ltb (pending_output_bytes c) c.config.output_high_water) ≡ true
    → pending_output_bytes c < c.config.output_high_water
room_of c h = ground arith

module _ (handler : Request → Option Response) where
  either_Leads :
      (c d e : Connection) (b : Bool)
      → (b ≡ true → Leads handler c d)
      → (b ≡ false → Leads handler c e)
      → Leads handler c (if b then d else e)
  either_Leads c d e b = either_case (Leads handler c) b d e

  on_recv-Leads :
      (c : Connection) (now : ℕ) (a : RecvAnswer)
      → wants_to_read c ≡ true
      → Leads handler c (on_recv c now (recv_want c) a)
  unfolding on_recv
  on_recv-Leads c now (arrives bytes) h = one-Step handler (receives c now bytes h)
  on_recv-Leads c now (recv_fails eagain) h = Leads-refl handler c
  on_recv-Leads c now (recv_fails eintr) h = one-Step handler (closes c)
  on_recv-Leads c now (recv_fails (other_error n)) h = one-Step handler (closes c)

  pub read_from_socket-Leads :
      (c : Connection) (now : ℕ) → wants_to_read c ≡ true → Leads handler c (read_from_socket c now)
  unfolding read_from_socket recv_want wants_to_read
  read_from_socket-Leads c now h =
      let r = recv_retrying c.socket.recvs in
      Leads-trans handler (one-Step handler (uses_recvs c r.1))
        (on_recv-Leads (set_recvs c r.1) now r.0 h)

  on_discard-Leads :
      (c : Connection) (a : RecvAnswer) → c.state ≡ draining → Leads handler c (on_discard c a)
  unfolding on_discard
  on_discard-Leads c (arrives bytes) h = one-Step handler (discards c bytes h)
  on_discard-Leads c (recv_fails eagain) h = Leads-refl handler c
  on_discard-Leads c (recv_fails eintr) h = one-Step handler (closes c)
  on_discard-Leads c (recv_fails (other_error n)) h = one-Step handler (closes c)

  discard-Leads :
      (c : Connection) → c.state ≡ draining → Leads handler c (discard_lingering_input c)
  unfolding discard_lingering_input
  discard-Leads c h =
      let r = recv_retrying c.socket.recvs in
      Leads-trans handler (one-Step handler (uses_recvs c r.1))
        (on_discard-Leads (set_recvs c r.1) r.0 h)

  either_flushed :
      (c : Connection) (b : Bool) (x y : Flushed)
      → Leads handler c x.connection
      → Leads handler c y.connection
      → Leads handler c (if b then x else y).connection
  either_flushed c = either_branch (λ (f : Flushed). Leads handler c f.connection)

  flush_loop-Leads :
      (sends : List SendAnswer) (c : Connection) (now : ℕ) (sent_any : Bool)
      → Leads handler c (flush_loop sends c now sent_any).connection
  unfolding flush_loop
  flush_loop-Leads [] c now sent_any =
      either_flushed c _ (stop (blocked c) sent_any) (stop c sent_any) (one-Step handler (blocks c))
        (Leads-refl handler c)
  flush_loop-Leads (room_for n ∷ rest) c now sent_any =
      let used = one-Step handler (uses_sends c rest) in
      let count = min n (pending_output_bytes c) in
      let sent = sent_some (set_sends c rest) now count in
      let later =
        Leads-trans handler
          (Leads-Step handler used (sends (set_sends c rest) now count (omega arith)))
          (flush_loop-Leads rest sent now true) in
      either_flushed c _ _ (stop c sent_any)
        (either_flushed c _ (flush_loop rest sent now true)
          (stop (blocked (set_sends c rest)) sent_any) later
          (Leads-Step handler used (blocks (set_sends c rest))))
        (Leads-refl handler c)
  flush_loop-Leads (send_fails eintr ∷ rest) c now sent_any =
      either_flushed c _ _ (stop c sent_any)
        (Leads-trans handler (one-Step handler (uses_sends c rest))
          (flush_loop-Leads rest (set_sends c rest) now sent_any))
        (Leads-refl handler c)
  flush_loop-Leads (send_fails eagain ∷ rest) c now sent_any =
      either_flushed c _ (stop (blocked (set_sends c rest)) sent_any) (stop c sent_any)
        (Leads-Step handler (one-Step handler (uses_sends c rest)) (blocks (set_sends c rest)))
        (Leads-refl handler c)
  flush_loop-Leads (send_fails (other_error n) ∷ rest) c now sent_any =
      either_flushed c _ _ (stop c sent_any)
        (Leads-Step handler (one-Step handler (uses_sends c rest)) (closes (set_sends c rest)))
        (Leads-refl handler c)

  flush_output-Leads : (c : Connection) (now : ℕ) → Leads handler c (flush_output c now).0
  unfolding flush_output
  flush_output-Leads c now =
      let flushed = flush_loop-Leads c.socket.sends c now false in
      either_branch (Leads handler c) _ _ _ flushed (Leads-Step handler flushed (reclaims _))

  pub respond_loop-turn :
      (fuel : ℕ) (c : Connection) (responded : Bool)
      → (is_active c.state && ltb (pending_output_bytes c) c.config.output_high_water) ≡ true
      → respond_loop handler (suc fuel) c responded
        ≡ on_parsed handler (respond_loop handler fuel) c responded (next c.parser)
  unfolding respond_loop
  respond_loop-turn fuel c responded go = rw go refl

  pub respond_loop-stop :
      (fuel : ℕ) (c : Connection) (responded : Bool)
      → (is_active c.state && ltb (pending_output_bytes c) c.config.output_high_water) ≡ false
      → respond_loop handler fuel c responded ≡ (c, responded)
  unfolding respond_loop
  respond_loop-stop zero c responded stop = refl
  respond_loop-stop (suc fuel) c responded stop = rw stop refl

  turn-Leads :
      (fuel : ℕ) (c : Connection) (responded : Bool)
      → c.state ≡ active
      → pending_output_bytes c < c.config.output_high_water
      → ((d : Connection) (b : Bool) → Leads handler d (respond_loop handler fuel d b).0)
      → (r : RequestParser × ParseResult) → next c.parser ≡ r
      → Leads handler c (on_parsed handler (respond_loop handler fuel) c responded r).0
  unfolding on_parsed
  turn-Leads fuel c responded st room later (q, incomplete) e = one-Step handler (waits c q e)
  turn-Leads fuel c responded st room later (q, error x) e =
      one-Step handler (refuses c q x st room e)
  turn-Leads fuel c responded st room later (q, complete r) e =
      Leads-trans handler (one-Step handler (answers c q r st room e)) (later _ true)

  respond_loop-Leads :
      (fuel : ℕ) (c : Connection) (responded : Bool)
      → Leads handler c (respond_loop handler fuel c responded).0
  respond_loop-Leads zero c responded = unfold respond_loop in Leads-refl handler c
  respond_loop-Leads (suc fuel) c responded =
      elim (Bool-cases
        (is_active c.state && ltb (pending_output_bytes c) c.config.output_high_water)) [
          | inl go ↦ rw (respond_loop-turn fuel c responded go) (
              turn-Leads fuel c responded (active_of c go) (room_of c go) (respond_loop-Leads fuel)
                (next c.parser) refl)
          | inr stop ↦ rw (respond_loop-stop (suc fuel) c responded stop) (Leads-refl handler c)
        ]

  respond-Leads : (c : Connection) → Leads handler c (respond_to_buffered_requests handler c).0
  unfolding respond_to_buffered_requests
  respond-Leads c = respond_loop-Leads (buffered_bytes c.parser + 2) c false

  advance_round-Leads : (c : Connection) (now : ℕ) → Leads handler c (advance_round handler c now).0
  unfolding advance_round
  advance_round-Leads c now =
      Leads-trans handler
        (either_branch (λ (r : Connection × Bool). Leads handler c r.0) (is_active c.state)
          (respond_to_buffered_requests handler c) (c, false) (respond-Leads c)
          (Leads-refl handler c))
        (flush_output-Leads _ now)

  advance_loop-Leads :
      (fuel : ℕ) (c : Connection) (now : ℕ) → Leads handler c (advance_loop handler fuel c now)
  unfolding advance_loop
  advance_loop-Leads zero c now = Leads-refl handler c
  advance_loop-Leads (suc fuel) c now =
      let round = advance_round-Leads c now in
      either_branch (Leads handler c) _ _ _
        (either_branch (Leads handler c) _ _ _
          (Leads-trans handler round (advance_loop-Leads fuel _ now)) round)
        (Leads-refl handler c)

  settle-Leads : (c : Connection) (now : ℕ) → Leads handler c (settle c now)
  unfolding settle
  settle-Leads c now = either_branch (Leads handler c) _ _ _ (one-Step handler (closes c)) (
      either_Leads c _ _ _
        (λ h.
          either_Leads c _ _ _ (λ k. one-Step handler (closes c))
            (λ k. one-Step handler (lingers c now (ground arith) (ground arith) k)))
        (λ h. Leads-refl handler c))

  advance-Leads : (c : Connection) (now : ℕ) → Leads handler c (advance handler c now)
  unfolding advance
  advance-Leads c now =
      Leads-trans handler (advance_loop-Leads (advance_fuel handler c) c now) (settle-Leads _ now)

  -- The events of `poll` are handled by steps.
  pub on_poll_events-Leads :
      (c : Connection) (revents : Revents) (now : ℕ)
      → Leads handler c (on_poll_events handler c revents now)
  unfolding on_poll_events
  on_poll_events-Leads c revents now =
      let refl_c = Leads-refl handler c in
      let close_c = one-Step handler (closes c) in
      either_branch (Leads handler c) _ _ _ refl_c (
        either_branch (Leads handler c) _ _ _ close_c (
          either_branch (Leads handler c) _ _ _ close_c (
            either_Leads c _ _ (is_draining c.state)
              (λ d. either_branch (Leads handler c) _ _ _ (discard-Leads c (ground arith)) refl_c)
              (λ _.
                Leads-trans handler
                  (either_Leads c _ _ ((revents.pollin || revents.pollhup) && wants_to_read c)
                    (λ h. read_from_socket-Leads c now (ground arith)) (λ _. refl_c))
                  (advance-Leads _ now)))))

  pub on_idle-Leads :
      (c : Connection) (now : ℕ) → c.state ≡ active → Leads handler c (on_idle handler c now)
  unfolding on_idle
  on_idle-Leads c now st =
      let close_c = one-Step handler (closes c) in
      either_Leads c _ _ _ (λ _. close_c)
        (λ none_pending.
          either_Leads c _ _ _
            (λ partial.
              Leads-trans handler (one-Step handler (times_out c now st (ground arith) partial))
                (advance-Leads _ now))
            (λ _. close_c))

  on_deadline_in-Leads :
      (s : State) (c : Connection) (now : ℕ)
      → c.state ≡ s
      → Leads handler c (on_deadline_in handler s c now)
  unfolding on_deadline_in
  on_deadline_in-Leads active c now h = on_idle-Leads c now h
  on_deadline_in-Leads closing c now h = one-Step handler (closes c)
  on_deadline_in-Leads draining c now h = one-Step handler (closes c)
  on_deadline_in-Leads closed c now h = Leads-refl handler c

  -- So is a deadline that has passed.
  pub on_deadline-Leads : (c : Connection) (now : ℕ) → Leads handler c (on_deadline handler c now)
  on_deadline-Leads c now = on_deadline_in-Leads c.state c now refl
