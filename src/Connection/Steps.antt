-- ===== src/Connection/Steps.antt =====
-- The transitions of a connection of src/connection.cpp, as a step relation, and their sequences.
-- Each step is labelled with the responses that it queues.
use network_arc_rajasurya.Prelude.{
  ℕ, ◌≤◌, ◌<◌, ◌≡◌, refl, true, false, List, [], ◌∷◌, ◌++◌, Option, Bytes, codes, take,
  append_assoc, append-nil, subst, sym,
}
use network_arc_rajasurya.Request.{Request}
use network_arc_rajasurya.Response.{Response}
use network_arc_rajasurya.Parser.Result.{ParseError, incomplete, complete, error}
use network_arc_rajasurya.Parser.{RequestParser, next, has_partial_request}
use network_arc_rajasurya.Connection.Socket.{RecvAnswer, SendAnswer}
use network_arc_rajasurya.Connection.State.{
  active, closing, draining, Connection, pending_output_bytes, wants_to_read, close_now,
  recv_chunk_bytes,
}
use network_arc_rajasurya.Connection.Input.{set_recvs, on_received, recv_want, on_discarded}
use network_arc_rajasurya.Connection.Output.{queue_response, set_sends, blocked, sent_some, reclaim}
use network_arc_rajasurya.Connection.{begin_lingering_close, closing_response, response_to}

module _ (handler : Request → Option Response) where
  pub data Step : Connection → Connection → List Response → Type 0 where
    uses_recvs : (c : Connection) (answers : List RecvAnswer) → Step c (set_recvs c answers) []
    uses_sends : (c : Connection) (answers : List SendAnswer) → Step c (set_sends c answers) []
    receives :
        (c : Connection) (now : ℕ) (bytes : Bytes)
        → wants_to_read c ≡ true
        → Step c (on_received c now (take (recv_want c) bytes)) []
    waits :
        (c : Connection) (q : RequestParser)
        → next c.parser ≡ (q, incomplete)
        → Step c (record c { parser = q }) []
    answers :
        (c : Connection) (q : RequestParser) (r : Request)
        → c.state ≡ active
        → pending_output_bytes c < c.config.output_high_water
        → next c.parser ≡ (q, complete r)
        → Step c
            (queue_response (record c { parser = q }) (response_to handler r))
            (response_to handler r ∷ [])
    refuses :
        (c : Connection) (q : RequestParser) (e : ParseError)
        → c.state ≡ active
        → pending_output_bytes c < c.config.output_high_water
        → next c.parser ≡ (q, error e)
        → Step c
            (queue_response (record c { parser = q }) (closing_response e.status e.message))
            (closing_response e.status e.message ∷ [])
    times_out :
        (c : Connection) (now : ℕ)
        → c.state ≡ active
        → pending_output_bytes c ≡ 0
        → has_partial_request c.parser ≡ true
        → Step c
            (record (queue_response c
              (closing_response 408 (codes "timed out waiting for the rest of the request"))) {
                last_activity = now;
              })
            (closing_response 408 (codes "timed out waiting for the rest of the request") ∷ [])
    sends :
        (c : Connection) (now n : ℕ) → n ≤ pending_output_bytes c → Step c (sent_some c now n) []
    blocks : (c : Connection) → Step c (blocked c) []
    reclaims : (c : Connection) → Step c (reclaim c) []
    lingers :
        (c : Connection) (now : ℕ)
        → c.state ≡ closing
        → pending_output_bytes c ≡ 0
        → c.peer_finished_sending ≡ false
        → Step c (begin_lingering_close c now) []
    discards :
        (c : Connection) (bytes : Bytes)
        → c.state ≡ draining
        → Step c (on_discarded c (take recv_chunk_bytes bytes)) []
    closes : (c : Connection) → Step c (close_now c) []

  -- The end of the sequence and its labels are variables with equations.
  pub data Reach (c : Connection) : Connection → List Response → Type 0 where
    here : {d : Connection} → d ≡ c → Reach c d []
    next_step :
        {d e : Connection} {rs ss : List Response}
        → Reach c d rs
        → Step d e ss
        → Reach c e (rs ++ ss)

  -- Some sequence of steps leads from one to the other.
  pub record Leads (c d : Connection) : Type 0 where
    pub responses : List Response
    pub reach : Reach c d responses

  pub Leads-refl : (c : Connection) → Leads c c
  Leads-refl c = record { responses = []; reach = here refl }

  pub Leads-Step : {c d e : Connection} {ss : List Response} → Leads c d → Step d e ss → Leads c e
  Leads-Step {ss = ss} l s = record { responses = l.responses ++ ss; reach = next_step l.reach s }

  pub one-Step : {c d : Connection} {ss : List Response} → Step c d ss → Leads c d
  one-Step {c} s = Leads-Step (Leads-refl c) s

  join :
      {c d : Connection} {rs : List Response}
      → Reach c d rs
      → {e : Connection} {ss : List Response} → Reach d e ss
      → Reach c e (rs ++ ss)
  join {c} {rs = rs} r (here e) = rw append-nil (subst (λ x. Reach c x rs) (sym e) r)
  join {c} {rs = rs} r (next_step {e} {rs = ss} {ss = ts} t s) =
      subst (Reach c e) (append_assoc rs ss ts) (next_step (join r t) s)

  pub Leads-trans : {c d e : Connection} → Leads c d → Leads d e → Leads c e
  Leads-trans l m = record { responses = l.responses ++ m.responses; reach = join l.reach m.reach }
