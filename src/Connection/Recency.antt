-- ===== src/Connection/Recency.antt =====
-- src/connection.cpp: after `on_deadline` a connection is closed or has a deadline that is not due.
use network_arc_rajasurya.Prelude.{
  ℕ, zero, suc, ◌+◌, ◌<◌, ◌≡◌, Bool, true, false, ◌&&◌, ◌||◌, not, ◌==◌, List, [], ◌∷◌, Option, leb,
  if◌then◌else◌, arith, min, either_branch,
}
use network_arc_rajasurya.Request.{Request}
use network_arc_rajasurya.Response.{Response}
use network_arc_rajasurya.Parser.Result.{ParseResult, incomplete, complete, error}
use network_arc_rajasurya.Parser.{RequestParser, next, buffered_bytes}
use network_arc_rajasurya.Connection.Socket.{
  eintr, eagain, other_error, SendAnswer, room_for, send_fails,
}
use network_arc_rajasurya.Connection.State.{
  draining, Connection, is_active, is_closing, is_draining, pending_output_bytes, close_now,
}
use network_arc_rajasurya.Connection.Output.{
  set_sends, blocked, queue_response, sent_some, Flushed, stop, flush_loop, reclaim, flush_output,
}
use network_arc_rajasurya.Connection.{
  begin_lingering_close, settle, on_parsed, respond_loop, respond_to_buffered_requests,
  advance_round, advance_loop, advance_fuel, advance,
}

-- The last activity is now, and a lingering close ends later.
pub record IsRecent (now : ℕ) (c : Connection) : Type 0 where
  pub idle : 0 < c.config.idle_timeout
  pub linger : 0 < c.config.linger_timeout
  pub recent : c.last_activity ≡ now
  pub lingers : (is_draining c.state && leb c.linger_deadline now) ≡ false

module _ (now : ℕ) where
  close_now-IsRecent : (c : Connection) → IsRecent now c → IsRecent now (close_now c)
  unfolding close_now
  close_now-IsRecent c r = ground arith

  queue-IsRecent :
      (c : Connection) (x : Response) → IsRecent now c → IsRecent now (queue_response c x)
  unfolding queue_response
  queue-IsRecent c x r = ground arith

  sent-IsRecent : (c : Connection) (n : ℕ) → IsRecent now c → IsRecent now (sent_some c now n)
  unfolding sent_some
  sent-IsRecent c n r = ground arith

  reclaim-IsRecent : (c : Connection) → IsRecent now c → IsRecent now (reclaim c)
  unfolding reclaim
  reclaim-IsRecent c r = ground arith

  lingering-IsRecent :
      (c : Connection) → IsRecent now c → IsRecent now (begin_lingering_close c now)
  unfolding begin_lingering_close
  lingering-IsRecent c r =
      let draining_c : Connection = record c {
        socket = record c.socket { fin_queued = true };
        state = draining;
        linger_deadline = now + c.config.linger_timeout;
      } in
      let later : IsRecent now draining_c = ground arith in
      either_branch (IsRecent now) (not c.socket.shutdown_succeeds) (close_now c) draining_c
        (close_now-IsRecent c r) later

  settle-IsRecent : (c : Connection) → IsRecent now c → IsRecent now (settle c now)
  unfolding settle
  settle-IsRecent c r =
      let close_c = close_now-IsRecent c r in
      either_branch (IsRecent now)
        (is_active c.state && c.peer_finished_sending && pending_output_bytes c == 0) (close_now c)
        _ close_c
        (either_branch (IsRecent now) (is_closing c.state && pending_output_bytes c == 0) _ c
          (either_branch (IsRecent now) c.peer_finished_sending (close_now c)
            (begin_lingering_close c now) close_c (lingering-IsRecent c r))
          r)

  either_flushed :
      (b : Bool) (x y : Flushed)
      → IsRecent now x.connection
      → IsRecent now y.connection
      → IsRecent now (if b then x else y).connection
  either_flushed = either_branch (λ (f : Flushed). IsRecent now f.connection)

  set_sends-IsRecent :
      (c : Connection) (answers : List SendAnswer)
      → IsRecent now c
      → IsRecent now (set_sends c answers)
  set_sends-IsRecent c answers r = ground arith

  blocked-IsRecent : (c : Connection) → IsRecent now c → IsRecent now (blocked c)
  blocked-IsRecent c r = ground arith

  flush_loop-IsRecent :
      (sends : List SendAnswer) (c : Connection) (sent_any : Bool)
      → IsRecent now c
      → IsRecent now (flush_loop sends c now sent_any).connection
  unfolding flush_loop
  flush_loop-IsRecent [] c sent_any r =
      either_flushed _ (stop (blocked c) sent_any) (stop c sent_any) (blocked-IsRecent c r) r
  flush_loop-IsRecent (room_for n ∷ rest) c sent_any r =
      let k = set_sends-IsRecent c rest r in
      let count = min n (pending_output_bytes c) in
      let later =
        flush_loop-IsRecent rest (sent_some (set_sends c rest) now count) true
          (sent-IsRecent (set_sends c rest) count k) in
      either_flushed _ _ (stop c sent_any)
        (either_flushed _ (flush_loop rest (sent_some (set_sends c rest) now count) now true)
          (stop (blocked (set_sends c rest)) sent_any) later
          (blocked-IsRecent (set_sends c rest) k))
        r
  flush_loop-IsRecent (send_fails eintr ∷ rest) c sent_any r =
      either_flushed _ _ (stop c sent_any)
        (flush_loop-IsRecent rest (set_sends c rest) sent_any (set_sends-IsRecent c rest r)) r
  flush_loop-IsRecent (send_fails eagain ∷ rest) c sent_any r =
      either_flushed _ (stop (blocked (set_sends c rest)) sent_any) (stop c sent_any)
        (blocked-IsRecent (set_sends c rest) (set_sends-IsRecent c rest r)) r
  flush_loop-IsRecent (send_fails (other_error n) ∷ rest) c sent_any r =
      either_flushed _ _ (stop c sent_any)
        (close_now-IsRecent (set_sends c rest) (set_sends-IsRecent c rest r)) r

  flush_output-IsRecent : (c : Connection) → IsRecent now c → IsRecent now (flush_output c now).0
  unfolding flush_output
  flush_output-IsRecent c r =
      let flushed = flush_loop-IsRecent c.socket.sends c false r in
      either_branch (IsRecent now) _ _ _ flushed (reclaim-IsRecent _ flushed)

  module _ (handler : Request → Option Response) where
    parsed-IsRecent :
        (c : Connection) (q : RequestParser)
        → IsRecent now c
        → IsRecent now (record c { parser = q })
    parsed-IsRecent c q r = ground arith

    turn-IsRecent :
        (fuel : ℕ) (c : Connection) (responded : Bool) (x : RequestParser × ParseResult)
        → ((d : Connection) (b : Bool)
            → IsRecent now d
            → IsRecent now (respond_loop handler fuel d b).0)
        → IsRecent now c
        → IsRecent now (on_parsed handler (respond_loop handler fuel) c responded x).0
    unfolding on_parsed
    turn-IsRecent fuel c responded (q, incomplete) later r = parsed-IsRecent c q r
    turn-IsRecent fuel c responded (q, error e) later r =
        queue-IsRecent (record c { parser = q }) _ (parsed-IsRecent c q r)
    turn-IsRecent fuel c responded (q, complete x) later r =
        later _ true (queue-IsRecent (record c { parser = q }) _ (parsed-IsRecent c q r))

    respond_loop-IsRecent :
        (fuel : ℕ) (c : Connection) (responded : Bool)
        → IsRecent now c
        → IsRecent now (respond_loop handler fuel c responded).0
    unfolding respond_loop
    respond_loop-IsRecent zero c responded r = r
    respond_loop-IsRecent (suc fuel) c responded r =
        either_branch (λ (x : Connection × Bool). IsRecent now x.0) _ _ (c, responded)
          (turn-IsRecent fuel c responded (next c.parser) (respond_loop-IsRecent fuel) r) r

    advance_round-IsRecent :
        (c : Connection) → IsRecent now c → IsRecent now (advance_round handler c now).0
    unfolding advance_round respond_to_buffered_requests
    advance_round-IsRecent c r = flush_output-IsRecent _ (
        either_branch (λ (x : Connection × Bool). IsRecent now x.0) (is_active c.state) _ (c, false)
          (respond_loop-IsRecent (buffered_bytes c.parser + 2) c false r) r)

    advance_loop-IsRecent :
        (fuel : ℕ) (c : Connection)
        → IsRecent now c
        → IsRecent now (advance_loop handler fuel c now)
    unfolding advance_loop
    advance_loop-IsRecent zero c r = r
    advance_loop-IsRecent (suc fuel) c r =
        let after = advance_round-IsRecent c r in
        let x = advance_round handler c now in
        either_branch (IsRecent now) (is_active c.state || is_closing c.state) _ c
          (either_branch (IsRecent now) x.1 _ x.0 (advance_loop-IsRecent fuel x.0 after) after) r

    pub advance-IsRecent : (c : Connection) → IsRecent now c → IsRecent now (advance handler c now)
    unfolding advance
    advance-IsRecent c r = settle-IsRecent _ (advance_loop-IsRecent (advance_fuel handler c) c r)
