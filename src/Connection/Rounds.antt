-- ===== src/Connection/Rounds.antt =====
-- `respond_to_buffered_requests` of src/connection.cpp: where its loop stops, and what it uses up.
use network_arc_rajasurya.Prelude.{
  ℕ, zero, suc, ◌+◌, ◌^◌, ◌≤◌, ◌<◌, ◌≡◌, ◌⊎◌, inl, inr, refl, sym, ap, subst, Bool, true, false,
  ◌&&◌, Option, ltb, arith, if◌then◌else◌, either_case,
}
use network_arc_rajasurya.Config.{ServerConfig, max_request_bytes}
use network_arc_rajasurya.Request.{Request}
use network_arc_rajasurya.Response.{Response}
use network_arc_rajasurya.Parser.Result.{ParseError, ParseResult, incomplete, complete, error}
use network_arc_rajasurya.Parser.Stream.{view}
use network_arc_rajasurya.Parser.Yields.{measure, Leaves}
use network_arc_rajasurya.Parser.Bounds.{BodyLe, Starves}
use network_arc_rajasurya.Parser.Refinement.{viewed}
use network_arc_rajasurya.Parser.Occupancy.{next-Starves}
use network_arc_rajasurya.Parser.Measure.{next-measure, next-Leaves}
use network_arc_rajasurya.Parser.{RequestParser, buffered_bytes, next}
use network_arc_rajasurya.Connection.State.{
  State, active, closing, draining, closed, Connection, is_active, pending_output_bytes,
}
use network_arc_rajasurya.Connection.Output.{queue_response}
use network_arc_rajasurya.Connection.Buffer.{Holds, next-Holds, buffered-unread}
use network_arc_rajasurya.Connection.{
  closing_response, response_to, on_parsed, respond_loop, respond_to_buffered_requests,
}

-- A configuration whose limits leave room, as the default has.
pub record IsRoomy (config : ServerConfig) : Type 0 where
  pub room : config.limits.max_header_bytes + config.limits.max_body_bytes < 2 ^ 64
  pub body_room : 1 ≤ config.limits.max_body_bytes
  pub output_room : 1 ≤ config.output_high_water

-- What holds of a connection at any time.
pub record Alive (config : ServerConfig) (c : Connection) : Type 0 where
  pub same_config : c.config ≡ config
  pub holds : Holds config.limits c.parser
  pub body_le : BodyLe (view c.parser)

-- An active connection that is done with its input: the output is to be sent first, or more input is
-- wanted and there is room for it.
abbrev pub Rests : Connection → Type 0
Rests c =
    c.state ≡ active
    → (c.config.output_high_water ≤ pending_output_bytes c)
      ⊎ (buffered_bytes c.parser < max_request_bytes c.config.limits)

abbrev pub active_bit : State → ℕ
active_bit active = 1
active_bit closing = 0
active_bit draining = 0
active_bit closed = 0

-- The work that is left.
abbrev pub work : Connection → ℕ
work c = measure (view c.parser) + active_bit c.state

-- What the loop leaves, from `c` on with the flag `b`.
pub record Answered (config : ServerConfig) (c : Connection) (b : Bool) (r : Connection × Bool)
    : Type 0 where
  pub alive : Alive config r.0
  pub rests : Rests r.0
  pub same_socket : r.0.socket ≡ c.socket
  pub same_peer : r.0.peer_finished_sending ≡ c.peer_finished_sending
  pub work_le : work r.0 ≤ work c
  pub progress : r.1 ≡ true → (b ≡ true) ⊎ (work r.0 < work c)

next-Alive :
    {config : ServerConfig} (c : Connection) (q : RequestParser) (r : ParseResult)
    → next c.parser ≡ (q, r)
    → Alive config c
    → Starves (viewed (q, r))
      × Leaves (view c.parser) (viewed (q, r))
      × (measure (view q) ≤ measure (view c.parser))
      × Holds config.limits q
next-Alive {config} c q r e a = (
  subst (λ x. Starves (viewed x)) e (next-Starves c.parser a.holds.valid a.body_le),
  subst (λ x. Leaves (view c.parser) (viewed x)) e (next-Leaves c.parser a.holds.valid),
  subst (λ x. measure (view x.0) ≤ measure (view c.parser)) e (next-measure c.parser a.holds.valid),
  next-Holds c.parser q r e a.holds,
)

module _ {config : ServerConfig} (roomy : IsRoomy config) where
  starved-room :
      (q : RequestParser)
      → Holds config.limits q
      → Starves (viewed (q, incomplete))
      → buffered_bytes q < max_request_bytes config.limits
  unfolding max_request_bytes
  starved-room q h (le, held) =
      let l = ap (λ k. k.max_header_bytes) h.same_limits in
      let m = ap (λ k. k.max_body_bytes) h.same_limits in
      omega (arith, held, l, m, buffered-unread q, roomy.room, roomy.body_room)

  waits-Answered :
      (c : Connection) (b : Bool) (q : RequestParser)
      → next c.parser ≡ (q, incomplete)
      → Alive config c
      → Answered config c b (record c { parser = q }, b)
  waits-Answered c b q e a =
      let (starves, leaves, less, h) = next-Alive c q incomplete e a in
      record {
        alive = record { same_config = a.same_config; holds = h; body_le = starves.0 };
        rests = λ _. inr (
            subst (λ k. buffered_bytes q < max_request_bytes k.limits) (sym a.same_config)
              (starved-room q h starves));
        same_socket = refl;
        same_peer = refl;
        work_le = omega arith;
        progress = λ h. inl h;
      }

  refuses-Answered :
      (c : Connection) (b : Bool) (q : RequestParser) (x : ParseError)
      → next c.parser ≡ (q, error x)
      → c.state ≡ active
      → Alive config c
      → Answered config c b
          (queue_response (record c { parser = q }) (closing_response x.status x.message), true)
  unfolding queue_response
  refuses-Answered c b q x e st a =
      let (failure, leaves, less, h) = next-Alive c q (error x) e a in
      let lower : measure (view q) + 0 < measure (view c.parser) + active_bit c.state =
        rw st (omega arith) in
      record {
        alive = record { same_config = a.same_config; holds = h; body_le = λ s. ground arith };
        rests = λ s. ground arith;
        same_socket = refl;
        same_peer = refl;
        work_le = omega arith;
        progress = λ _. inr lower;
      }

  -- The connection that has answered a request is alive and has less work.
  queued-less :
      (c : Connection) (q : RequestParser) (r : Request) (response : Response)
      → next c.parser ≡ (q, complete r)
      → c.state ≡ active
      → Alive config c
      → Alive config (queue_response (record c { parser = q }) response)
        × (measure (view q) < measure (view c.parser))
        × (work (queue_response (record c { parser = q }) response) < work c)
  unfolding queue_response
  queued-less c q r response e st a =
      let (waiting, (_, at_head, less), _, h) = next-Alive c q (complete r) e a in
      let lower : measure (view q) < measure (view c.parser) = rw at_head (omega arith) in
      let bit : active_bit (if response.close_connection then closing else c.state) ≤ 1 =
        ground arith in
      let one : active_bit c.state ≡ 1 = rw st refl in
      (
        record { same_config = a.same_config; holds = h; body_le = λ s. ground arith },
        lower,
        omega (arith, bit, lower, one),
      )

  module _ (handler : Request → Option Response) where
    on_parsed-Answered :
        (again : Connection → Bool → Connection × Bool) (c : Connection) (b : Bool)
        (r : RequestParser × ParseResult)
        → ((d : Connection)
            → Alive config d
            → measure (view d.parser) < measure (view c.parser)
            → Answered config d true (again d true))
        → next c.parser ≡ r
        → c.state ≡ active
        → Alive config c
        → Answered config c b (on_parsed handler again c b r)
    unfolding on_parsed
    on_parsed-Answered again c b (q, incomplete) later e st a = waits-Answered c b q e a
    on_parsed-Answered again c b (q, error x) later e st a = refuses-Answered c b q x e st a
    on_parsed-Answered again c b (q, complete r) later e st a =
        let response = response_to handler r in
        let (alive, lower, less) = queued-less c q r response e st a in
        let w =
          later (queue_response (record c { parser = q }) response) alive
            (unfold queue_response in lower) in
        record {
          alive = w.alive;
          rests = w.rests;
          same_socket = unfold queue_response in w.same_socket;
          same_peer = unfold queue_response in w.same_peer;
          work_le = omega (arith, w.work_le);
          progress = λ _. inr (omega (arith, w.work_le));
        }

    stopped-Answered :
        (c : Connection) (b : Bool)
        → Alive config c
        → (is_active c.state && ltb (pending_output_bytes c) c.config.output_high_water) ≡ false
        → Answered config c b (c, b)
    stopped-Answered c b a stops = record {
      alive = a;
      rests = λ st. inl (ground arith);
      same_socket = refl;
      same_peer = refl;
      work_le = omega arith;
      progress = λ h. inl h;
    }

    active_of : (s : Bool) (st : State) → (is_active st && s) ≡ true → st ≡ active
    active_of s st h = ground arith

    respond_loop-Answered :
        (fuel : ℕ) (c : Connection) (b : Bool)
        → Alive config c
        → measure (view c.parser) < fuel
        → Answered config c b (respond_loop handler fuel c b)
    unfolding respond_loop
    respond_loop-Answered zero c b a h = ground arith
    respond_loop-Answered (suc fuel) c b a h =
        either_case (Answered config c b)
          (is_active c.state && ltb (pending_output_bytes c) c.config.output_high_water) _ _
          (λ yes.
            on_parsed-Answered (respond_loop handler fuel) c b (next c.parser)
              (λ d alive less. respond_loop-Answered fuel d true alive (omega arith)) refl
              (active_of _ c.state yes) a)
          (λ stops. stopped-Answered c b a stops)

    -- The fuel of the loop is enough.
    pub respond-Answered :
        (c : Connection)
        → Alive config c
        → Answered config c false (respond_to_buffered_requests handler c)
    unfolding respond_to_buffered_requests
    respond-Answered c a =
        respond_loop-Answered (buffered_bytes c.parser + 2) c false a (enough c.parser)
      where
        enough : (p : RequestParser) → measure (view p) < buffered_bytes p + 2
        enough p = ground (arith, buffered-unread p)
