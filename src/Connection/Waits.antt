-- ===== src/Connection/Waits.antt =====
-- src/connection.cpp: a connection that is not closed waits for something that `poll` can report.
use network_arc_rajasurya.Prelude.{
  ℕ, zero, suc, ◌+◌, ◌≤◌, ◌<◌, ◌≡◌, ◌⊎◌, inl, inr, refl, sym, ap, subst, ◌∙◌, Bool, true, false,
  ◌||◌, not, Option, length, arith, if◌then◌else◌, either_case, either_branch,
}
use network_arc_rajasurya.Config.{ServerConfig, max_request_bytes}
use network_arc_rajasurya.Request.{Request}
use network_arc_rajasurya.Response.{Response}
use network_arc_rajasurya.Parser.Stream.{view}
use network_arc_rajasurya.Parser.Bounds.{BodyLe}
use network_arc_rajasurya.Parser.Yields.{measure}
use network_arc_rajasurya.Parser.{buffered_bytes}
use network_arc_rajasurya.Connection.State.{
  State, active, closing, draining, closed, Connection, is_active, is_closing, pending_output_bytes,
  wants_to_read, poll_events_in, poll_events, close_now,
}
use network_arc_rajasurya.Connection.Buffer.{Holds, IsBounded}
use network_arc_rajasurya.Connection.Rounds.{
  IsRoomy, Alive, Rests, active_bit, work, Answered, respond-Answered,
}
use network_arc_rajasurya.Connection.Flushing.{Flushes, flush_output-Flushes}
use network_arc_rajasurya.Connection.{
  begin_lingering_close, respond_to_buffered_requests, advance_round, advance_loop,
}

-- Closed, or waiting for input, or for room for its output.
abbrev pub Waits : Connection → Type 0
Waits c = (c.state ≡ closed) ⊎ ((poll_events c).pollin ≡ true) ⊎ ((poll_events c).pollout ≡ true)

pub bounded-Alive : {config : ServerConfig} (c : Connection) → IsBounded config c → Alive config c
bounded-Alive c h = record { same_config = h.0; holds = h.1; body_le = h.1.body_le }

-- What is left to use up.
abbrev pub supply : Connection → ℕ
supply c = work c + length c.socket.sends

record Rounded (config : ServerConfig) (c : Connection) (r : Connection × Bool) : Type 0 where
  alive : Alive config r.0
  less : r.1 ≡ true → supply r.0 < supply c
  rests : r.1 ≡ false → Rests r.0

flushed-Rounded :
    {config : ServerConfig} (c a d : Connection) (b s : Bool)
    → Answered config c false (a, b)
    → Flushes a false (length a.socket.sends) d s
    → Rounded config c (d, s || b)
flushed-Rounded {config} c a d b s w v =
    let same_work = ap (λ p. measure (view p)) v.same_parser in
    let same_sends = ap (λ k. length k.sends) w.same_socket in
    let bits : active_bit d.state ≤ active_bit a.state =
      by_state d.state a.state v.state_or_closed in
    record {
      alive = record {
        same_config = v.same_config ∙ w.alive.same_config;
        holds = subst (λ p. Holds config.limits p) (sym v.same_parser) w.alive.holds;
        body_le = subst (λ p. BodyLe (view p)) (sym v.same_parser) w.alive.body_le;
      };
      less = λ e. elim (which s b e) [
        | inl flushed ↦ elim (v.progress flushed) [
          | inl h ↦ never h
          | inr h ↦ omega (arith, h, bits, same_work, same_sends, w.work_le)
        ]
        | inr responded ↦ elim (w.progress responded) [
          | inl h ↦ never h
          | inr h ↦ omega (arith, h, bits, same_work, same_sends, v.sends_le)
        ]
      ];
      rests = λ e st.
          let same_pending = (v.idle (neither s b e)).1 in
          let same_water = ap (λ k. k.output_high_water) v.same_config in
          let same_room = ap (λ k. max_request_bytes k.limits) v.same_config in
          let same_held = ap buffered_bytes v.same_parser in
          elim (w.rests (was_active d.state a.state v.state_or_closed st)) [
            | inl h ↦ inl (omega (arith, h, same_pending, same_water))
            | inr h ↦ inr (omega (arith, h, same_room, same_held))
          ];
    }
  where
    by_state : (t s : State) → (t ≡ s) ⊎ (t ≡ closed) → active_bit t ≤ active_bit s
    by_state t s h = ground arith

    which : (s b : Bool) → (s || b) ≡ true → (s ≡ true) ⊎ (b ≡ true)
    which s b h = ground arith

    neither : (s b : Bool) → (s || b) ≡ false → s ≡ false
    neither s b h = ground arith

    was_active : (t s : State) → (t ≡ s) ⊎ (t ≡ closed) → t ≡ active → s ≡ active
    was_active t s h e = ground arith

    never : {P : Type 0} → false ≡ true → P
    never h = cc

module _ {config : ServerConfig} (roomy : IsRoomy config)
    (handler : Request → Option Response) where
  advance_round-Rounded :
      (c : Connection) (now : ℕ) → Alive config c → Rounded config c (advance_round handler c now)
  unfolding advance_round
  advance_round-Rounded c now a =
      let answered : Connection × Bool =
        if is_active c.state then respond_to_buffered_requests handler c else (c, false) in
      flushed-Rounded c answered.0 _ answered.1 _ (first c a) (flush_output-Flushes answered.0 now)
    where
      first :
          (c : Connection)
          → Alive config c
          → Answered config c false
              (if is_active c.state then respond_to_buffered_requests handler c else (c, false))
      first c a =
          either_case (Answered config c false) (is_active c.state) _ _
            (λ _. respond-Answered roomy handler c a)
            (λ inactive. record {
              alive = a;
              rests = λ st. ground arith;
              same_socket = refl;
              same_peer = refl;
              work_le = omega arith;
              progress = λ e. inl e;
            })

  -- The loop of `advance`, with enough fuel.
  pub advance_loop-Rests :
      (fuel : ℕ) (c : Connection) (now : ℕ)
      → Alive config c
      → supply c < fuel
      → Alive config (advance_loop handler fuel c now) × Rests (advance_loop handler fuel c now)
  unfolding advance_loop
  advance_loop-Rests zero c now a h = ground arith
  advance_loop-Rests (suc fuel) c now a h =
      let r = advance_round handler c now in
      let w = advance_round-Rounded c now a in
      either_case (λ d. Alive config d × Rests d) (is_active c.state || is_closing c.state) _ _
        (λ _.
          either_case (λ d. Alive config d × Rests d) r.1 _ _
            (λ more. advance_loop-Rests fuel r.0 now w.alive (omega (arith, w.less more)))
            (λ done. (w.alive, w.rests done)))
        (λ inactive. (a, λ st. ground arith))

pub close_now-Waits : (c : Connection) → Waits (close_now c)
unfolding close_now
close_now-Waits c = inl (ground arith)

pub draining-Waits : (c : Connection) → c.state ≡ draining → Waits c
unfolding poll_events_in
draining-Waits c st = inr (inl (rw st refl))

pub linger-Waits : (c : Connection) (now : ℕ) → Waits (begin_lingering_close c now)
unfolding begin_lingering_close
linger-Waits c now =
    either_branch Waits (not c.socket.shutdown_succeeds) _ _ (close_now-Waits c)
      (draining-Waits _ refl)

-- Output is waited for with POLLOUT.
pub pending-Waits :
    (c : Connection)
    → (c.state ≡ active) ⊎ (c.state ≡ closing)
    → 0 < pending_output_bytes c
    → Waits c
unfolding poll_events_in
pending-Waits c (inl st) h = inr (inr (rw st (ground arith)))
pending-Waits c (inr st) h = inr (inr (rw st (ground arith)))

module _ {config : ServerConfig} (roomy : IsRoomy config) where
  pub reading-Waits :
      (c : Connection)
      → Alive config c
      → Rests c
      → c.state ≡ active
      → pending_output_bytes c ≡ 0
      → c.peer_finished_sending ≡ false
      → Waits c
  unfolding poll_events_in wants_to_read
  reading-Waits c a rests st none_pending peer =
      let water = ap (λ k. k.output_high_water) a.same_config in
      elim (rests st) [
        | inl h ↦ inr (inl (ground (arith, h, water, roomy.output_room)))
        | inr h ↦ inr (inl (rw (st, peer) (ground (arith, h, water, roomy.output_room))))
      ]
