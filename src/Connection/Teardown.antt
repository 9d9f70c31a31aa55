-- ===== src/Connection/Teardown.antt =====
-- src/connection.cpp: the order in which a connection is taken down.
use network_arc_rajasurya.Prelude.{
  ℕ, ◌≡◌, ◌||◌, refl, sym, ◌∙◌, subst, true, false, not, List, [], ◌∷◌, Option, Bytes, arith,
  length-drop,
}
use network_arc_rajasurya.Request.{Request}
use network_arc_rajasurya.Response.{Response}
use network_arc_rajasurya.Config.{ServerConfig}
use network_arc_rajasurya.Connection.Socket.{Socket}
use network_arc_rajasurya.Connection.State.{
  active, closing, Connection, new_connection, is_closed, is_draining, close_now,
  pending_output_bytes,
}
use network_arc_rajasurya.Connection.Input.{on_received, on_discarded}
use network_arc_rajasurya.Connection.Output.{queue_response, sent_some, reclaim}
use network_arc_rajasurya.Connection.{
  begin_lingering_close, closing_response, response_to, Event, run,
}
use network_arc_rajasurya.Connection.Steps.{
  Step, uses_recvs, uses_sends, receives, waits, answers, refuses, times_out, sends, blocks,
  reclaims, lingers, discards, closes, Reach, here, next_step,
}
use network_arc_rajasurya.Connection.Runs.{run-Leads}

-- The descriptor is open until the connection is closed; the FIN is queued by the lingering close
-- alone, and nothing waits behind it.
pub record Tidy (c : Connection) : Type 0 where
  pub open_until : c.socket.descriptor_open ≡ not (is_closed c.state)
  pub fin_state : is_draining c.state ≡ true → c.socket.fin_queued ≡ true
  pub fin_last : c.socket.fin_queued ≡ true → (is_draining c.state || is_closed c.state) ≡ true
  pub all_sent : c.socket.fin_queued ≡ true → pending_output_bytes c ≡ 0

-- What Tidy does not read may change.
same-Tidy :
    (c d : Connection)
    → d.socket.descriptor_open ≡ c.socket.descriptor_open
    → d.socket.fin_queued ≡ c.socket.fin_queued
    → d.state ≡ c.state
    → (pending_output_bytes c ≡ 0 → pending_output_bytes d ≡ 0)
    → Tidy c
    → Tidy d
same-Tidy c d o f st p t = record {
  open_until = rw (o, st) t.open_until;
  fin_state = rw (f, st) t.fin_state;
  fin_last = rw (f, st) t.fin_last;
  all_sent = λ e. p (t.all_sent (sym f ∙ e));
}

close_now-Tidy : (c : Connection) → Tidy c → Tidy (close_now c)
unfolding close_now
close_now-Tidy c t = record {
  open_until = ground arith;
  fin_state = ground arith;
  fin_last = ground arith;
  all_sent = ground arith;
}

on_discarded-Tidy : (c : Connection) (bytes : Bytes) → Tidy c → Tidy (on_discarded c bytes)
unfolding on_discarded close_now
on_discarded-Tidy c [] t = close_now-Tidy c t
on_discarded-Tidy c (b ∷ bs) t = record {
  open_until = ground arith;
  fin_state = ground arith;
  fin_last = ground arith;
  all_sent = ground arith;
}

on_received-Tidy :
    (c : Connection) (now : ℕ) (bytes : Bytes) → Tidy c → Tidy (on_received c now bytes)
unfolding on_received
on_received-Tidy c now [] t = same-Tidy c _ refl refl refl (λ e. e) t
on_received-Tidy c now (b ∷ bs) t = same-Tidy c _ refl refl refl (λ e. e) t

reclaim-Tidy : (c : Connection) → Tidy c → Tidy (reclaim c)
unfolding reclaim
reclaim-Tidy c t = record {
  open_until = ground arith;
  fin_state = ground arith;
  fin_last = ground arith;
  all_sent = ground (arith, length-drop c.output_sent c.output);
}

linger-Tidy :
    (c : Connection) (now : ℕ)
    → c.state ≡ closing
    → pending_output_bytes c ≡ 0
    → Tidy c
    → Tidy (begin_lingering_close c now)
unfolding begin_lingering_close close_now
linger-Tidy c now st none_pending t = record {
  open_until = ground arith;
  fin_state = ground arith;
  fin_last = ground arith;
  all_sent = ground arith;
}

-- A response is queued in the active state, before any FIN.
queue-Tidy : (c : Connection) (r : Response) → c.state ≡ active → Tidy c → Tidy (queue_response c r)
unfolding queue_response
queue-Tidy c r st t = record {
  open_until = ground arith;
  fin_state = ground arith;
  fin_last = ground arith;
  all_sent = ground arith;
}

module _ {handler : Request → Option Response} where
  Step-Tidy : {c d : Connection} {rs : List Response} → Step handler c d rs → Tidy c → Tidy d
  Step-Tidy (uses_recvs c later) t = same-Tidy c _ refl refl refl (λ e. e) t
  Step-Tidy (uses_sends c later) t = same-Tidy c _ refl refl refl (λ e. e) t
  Step-Tidy (receives c now bytes w) t = on_received-Tidy c now _ t
  Step-Tidy (waits c q e) t = same-Tidy c _ refl refl refl (λ e. e) t
  Step-Tidy (answers c q r st room e) t =
      queue-Tidy (record c { parser = q }) (response_to handler r) st
        (same-Tidy c (record c { parser = q }) refl refl refl (λ e. e) t)
  Step-Tidy (refuses c q x st room e) t =
      queue-Tidy (record c { parser = q }) (closing_response x.status x.message) st
        (same-Tidy c (record c { parser = q }) refl refl refl (λ e. e) t)
  Step-Tidy (times_out c now st none_pending part) t =
      same-Tidy (queue_response c _) _ refl refl refl (λ e. e) (queue-Tidy c _ st t)
  Step-Tidy (sends c now n le) t =
      unfold sent_some in same-Tidy c (sent_some c now n) refl refl refl (λ e. omega arith) t
  Step-Tidy (blocks c) t = same-Tidy c _ refl refl refl (λ e. e) t
  Step-Tidy (reclaims c) t = reclaim-Tidy c t
  Step-Tidy (lingers c now st none_pending peer) t = linger-Tidy c now st none_pending t
  Step-Tidy (discards c bytes st) t = on_discarded-Tidy c _ t
  Step-Tidy (closes c) t = close_now-Tidy c t

  pub Reach-Tidy : {c d : Connection} {rs : List Response} → Reach handler c d rs → Tidy c → Tidy d
  Reach-Tidy (here e) t = subst Tidy (sym e) t
  Reach-Tidy (next_step r s) t = Step-Tidy s (Reach-Tidy r t)

module _ (handler : Request → Option Response) where
  -- Whatever events and system answers a new connection meets, on a descriptor that is open and has
  -- no FIN queued: the descriptor is open until the connection is closed, a draining connection has
  -- queued its FIN, and once the FIN is queued the connection is draining or closed and every byte
  -- of output has been sent.
  pub run-Tidy :
      (socket : Socket) (id now : ℕ) (config : ServerConfig) (es : List Event)
      → socket.descriptor_open ≡ true
      → socket.fin_queued ≡ false
      → Tidy (run handler (new_connection socket id config now) es)
  run-Tidy socket id now config es opened fin =
      let l = run-Leads handler (new_connection socket id config now) es in
      Reach-Tidy l.reach (
        unfold new_connection in
        record {
          open_until = opened;
          fin_state = ground arith;
          fin_last = ground (arith, fin);
          all_sent = ground arith;
        })
