-- ===== src/Connection/Buffer.antt =====
-- The input that a connection of src/connection.cpp buffers: `wants_to_read` and the size that it
-- asks `recv` for keep it within one request.
use network_arc_rajasurya.Prelude.{
  ℕ, ◌+◌, ◌-◌, ◌≤◌, ◌≡◌, refl, sym, ap, subst, ◌∙◌, List, [], ◌∷◌, Option, Bytes, length, take,
  arith, length-drop, length-take, either_branch, ltb, leb, ◌==◌, ◌/◌, not, u64,
}
use network_arc_rajasurya.Config.{Limits, ServerConfig, max_request_bytes}
use network_arc_rajasurya.Request.{Request}
use network_arc_rajasurya.Response.{Response}
use network_arc_rajasurya.Parser.Result.{ParseResult}
use network_arc_rajasurya.Parser.Stream.{view}
use network_arc_rajasurya.Parser.Validity.{IsValid, feed-IsValid}
use network_arc_rajasurya.Parser.Refinement.{next-IsValid, new_parser-IsValid}
use network_arc_rajasurya.Parser.Bounds.{BodyLe}
use network_arc_rajasurya.Parser.Occupancy.{
  next-Shrinks, feed-Adds, next-Starves, Starves-BodyLe, feed-BodyLe,
}
use network_arc_rajasurya.Parser.{RequestParser, new_parser, buffered_bytes, feed, next}
use network_arc_rajasurya.Connection.Socket.{Socket}
use network_arc_rajasurya.Connection.State.{Connection, new_connection, is_closed, close_now}
use network_arc_rajasurya.Connection.Input.{on_received, recv_want, on_discarded}
use network_arc_rajasurya.Connection.Output.{queue_response, sent_some, reclaim}
use network_arc_rajasurya.Connection.{begin_lingering_close, Event, run}
use network_arc_rajasurya.Connection.Steps.{
  Step, uses_recvs, uses_sends, receives, waits, answers, refuses, times_out, sends, blocks,
  reclaims, lingers, discards, closes, Reach, here, next_step,
}
use network_arc_rajasurya.Connection.Runs.{run-Leads}

-- A parser within the limits of its connection.
pub record Holds (limits : Limits) (p : RequestParser) : Type 0 where
  pub valid : IsValid p
  pub same_limits : p.limits ≡ limits
  pub held_le : length (view p).unread ≤ max_request_bytes limits
  pub body_le : BodyLe (view p)

abbrev pub IsBounded : ServerConfig → Connection → Type 0
IsBounded config c = (c.config ≡ config) × Holds config.limits c.parser

pub buffered-unread : (p : RequestParser) → length (view p).unread ≡ buffered_bytes p
buffered-unread p = length-drop p.start p.buffer

pub next-Holds :
    {limits : Limits} (p q : RequestParser) (r : ParseResult)
    → next p ≡ (q, r)
    → Holds limits p
    → Holds limits q
next-Holds {limits} p q r e h =
    let (same, le) = next-Shrinks p h.valid in
    let starves = next-Starves p h.valid h.body_le in
    subst (λ x. Holds limits x.0) e
      (record {
        valid = next-IsValid p h.valid;
        same_limits = same ∙ h.same_limits;
        held_le = omega arith;
        body_le = Starves-BodyLe (view (next p).0) (next p).1 starves;
      })

feed-Holds :
    {limits : Limits} (p : RequestParser) (bytes : Bytes)
    → length bytes ≤ max_request_bytes limits - buffered_bytes p
    → Holds limits p
    → Holds limits (feed p bytes)
feed-Holds p bytes room h =
    let (same, le) = feed-Adds p bytes h.valid in
    record {
      valid = feed-IsValid p bytes h.valid;
      same_limits = same ∙ h.same_limits;
      held_le = omega (arith, buffered-unread p, h.held_le);
      body_le = feed-BodyLe p bytes h.valid h.body_le;
    }

module _ {config : ServerConfig} where
  on_received-IsBounded :
      (c : Connection) (now : ℕ) (bytes : Bytes)
      → length bytes ≤ max_request_bytes config.limits - buffered_bytes c.parser
      → IsBounded config c
      → IsBounded config (on_received c now bytes)
  unfolding on_received
  on_received-IsBounded c now [] room h = h
  on_received-IsBounded c now (b ∷ bs) room h = (h.0, feed-Holds c.parser (b ∷ bs) room h.1)

  close_now-IsBounded : (c : Connection) → IsBounded config c → IsBounded config (close_now c)
  unfolding close_now
  close_now-IsBounded c h = either_branch (IsBounded config) (is_closed c.state) c _ h h

  on_discarded-IsBounded :
      (c : Connection) (bytes : Bytes)
      → IsBounded config c
      → IsBounded config (on_discarded c bytes)
  unfolding on_discarded
  on_discarded-IsBounded c [] h = close_now-IsBounded c h
  on_discarded-IsBounded c (b ∷ bs) h =
      let counted = record c { lingered_bytes = u64 (c.lingered_bytes + length (b ∷ bs)) } in
      either_branch (IsBounded config) (ltb c.config.max_linger_bytes counted.lingered_bytes)
        (close_now counted) counted (close_now-IsBounded counted h) h

  reclaim-IsBounded : (c : Connection) → IsBounded config c → IsBounded config (reclaim c)
  unfolding reclaim
  reclaim-IsBounded c h =
      either_branch (IsBounded config) (c.output_sent == length c.output) _ _ h
        (either_branch (IsBounded config) (leb (length c.output / 2) c.output_sent) _ _ h h)

  linger-IsBounded :
      (c : Connection) (now : ℕ)
      → IsBounded config c
      → IsBounded config (begin_lingering_close c now)
  unfolding begin_lingering_close
  linger-IsBounded c now h =
      either_branch (IsBounded config) (not c.socket.shutdown_succeeds) _ _
        (close_now-IsBounded c h) h

  -- `recv` is asked for no more than there is room for.
  take-recv_want :
      (c : Connection) (bytes : Bytes)
      → c.config ≡ config
      → length (take (recv_want c) bytes)
        ≤ max_request_bytes config.limits - buffered_bytes c.parser
  unfolding recv_want
  take-recv_want c bytes same =
      let e = ap (λ k. max_request_bytes k.limits) same in
      omega (arith, length-take (recv_want c) bytes)

  module _ {handler : Request → Option Response} where
    Step-IsBounded :
        {c d : Connection} {rs : List Response}
        → Step handler c d rs
        → IsBounded config c
        → IsBounded config d
    unfolding queue_response sent_some
    Step-IsBounded (uses_recvs c later) h = h
    Step-IsBounded (uses_sends c later) h = h
    Step-IsBounded (receives c now bytes w) h =
        on_received-IsBounded c now _ (take-recv_want c bytes h.0) h
    Step-IsBounded (waits c q e) h = (h.0, next-Holds c.parser q _ e h.1)
    Step-IsBounded (answers c q r st room e) h = (h.0, next-Holds c.parser q _ e h.1)
    Step-IsBounded (refuses c q x st room e) h = (h.0, next-Holds c.parser q _ e h.1)
    Step-IsBounded (times_out c now st none_pending part) h = h
    Step-IsBounded (sends c now n le) h = h
    Step-IsBounded (blocks c) h = h
    Step-IsBounded (reclaims c) h = reclaim-IsBounded c h
    Step-IsBounded (lingers c now st none_pending peer) h = linger-IsBounded c now h
    Step-IsBounded (discards c bytes st) h = on_discarded-IsBounded c _ h
    Step-IsBounded (closes c) h = close_now-IsBounded c h

    pub Reach-IsBounded :
        {c d : Connection} {rs : List Response}
        → Reach handler c d rs
        → IsBounded config c
        → IsBounded config d
    Reach-IsBounded (here e) h = subst (IsBounded config) (sym e) h
    Reach-IsBounded (next_step r s) h = Step-IsBounded s (Reach-IsBounded r h)

pub new_connection-IsBounded :
    (socket : Socket) (id now : ℕ) (config : ServerConfig)
    → IsBounded config (new_connection socket id config now)
unfolding new_connection new_parser
new_connection-IsBounded socket id now config = (
  refl,
  record {
    valid = new_parser-IsValid config.limits;
    same_limits = refl;
    held_le = omega arith;
    body_le = λ _. omega arith;
  },
)

module _ (handler : Request → Option Response) where
  -- Whatever events and system answers a new connection meets, the input that it buffers is at most
  -- `max_request_bytes` of the configured limits.
  pub run-buffered_bytes :
      (socket : Socket) (id now : ℕ) (config : ServerConfig) (es : List Event)
      → buffered_bytes (run handler (new_connection socket id config now) es).parser
        ≤ max_request_bytes config.limits
  run-buffered_bytes socket id now config es =
      let c = run handler (new_connection socket id config now) es in
      let l = run-Leads handler (new_connection socket id config now) es in
      let h = Reach-IsBounded l.reach (new_connection-IsBounded socket id now config) in
      omega (arith, h.1.held_le, buffered-unread c.parser)
