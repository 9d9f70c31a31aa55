-- ===== src/Server/Progress.antt =====
-- src/server.cpp: the deadlines of the connections after a round of `run`.
use network_arc_rajasurya.Prelude.{
  ℕ, ◌+◌, ◌<◌, ◌≡◌, refl, sym, ap, subst, ◌∙◌, ◌^◌, true, false, ◌&&◌, not, List, [], ◌∷◌, ◌++◌,
  Option, some, codes, ltb, length, if◌then◌else◌, arith, either_branch, either_case,
}
use network_arc_rajasurya.Config.{ServerConfig}
use network_arc_rajasurya.Request.{Request}
use network_arc_rajasurya.Response.{Response}
use network_arc_rajasurya.Parser.{has_partial_request}
use network_arc_rajasurya.Connection.State.{
  State, active, closing, draining, closed, Connection, is_closed, pending_output_bytes, close_now,
  new_connection,
}
use network_arc_rajasurya.Connection.Output.{queue_response}
use network_arc_rajasurya.Connection.Recency.{IsRecent, advance-IsRecent}
use network_arc_rajasurya.Connection.{
  deadline_in, deadline, closing_response, advance, on_idle, on_deadline_in, on_deadline,
  on_poll_events, Revents,
}
use network_arc_rajasurya.Connection.Socket.{Socket}
use network_arc_rajasurya.Connection.Rounds.{IsRoomy}
use network_arc_rajasurya.Server.Sound.{Sound, poll-Follows}
use network_arc_rajasurya.Server.Invariant.{IsSound, AllSound}
use network_arc_rajasurya.Server.History.{AllRoundsFresh, accepts_in, server_of, serve-IsSound}
use network_arc_rajasurya.Server.Timeout.{
  HasDeadline, this, other, WaitsFor, for_poll, for_deadline, for_pause, wake_time-WaitsFor,
}
use network_arc_rajasurya.Server.{
  Server, AcceptAnswer, accepted, queue_empty, try_next, accept_fails, admit,
  accept_new_connections, accept_pause, is_due, is_accepting, any_event, on_due, serve_connection,
  serve_all, remove_closed, Ready, PollAnswer, serve_ready, serve, new_server, wake_time,
  poll_timeout_ms,
}

-- A timeout of zero would be due at once.
pub record IsPatient (c : Connection) : Type 0 where
  pub idle : 0 < c.config.idle_timeout
  pub linger : 0 < c.config.linger_timeout

recent_in :
    (s : State) (now : ℕ) (c : Connection)
    → c.state ≡ s
    → IsRecent now c
    → is_due (deadline_in s c) now ≡ false
recent_in active now c e r = ground arith
recent_in closing now c e r = ground arith
recent_in draining now c e r = ground arith
recent_in closed now c e r = refl

recent-not_due : (now : ℕ) (c : Connection) → IsRecent now c → is_due (deadline c) now ≡ false
unfolding deadline
recent-not_due now c r = recent_in c.state now c refl r

closed-not_due : (now : ℕ) (c : Connection) → is_due (deadline (close_now c)) now ≡ false
unfolding deadline close_now
closed-not_due now c = ground arith

module _ (handler : Request → Option Response) (now : ℕ) where
  idle-not_due :
      (c : Connection)
      → c.state ≡ active
      → IsPatient c
      → is_due (deadline (on_idle handler c now)) now ≡ false
  unfolding on_idle
  idle-not_due c st patient =
      let P = λ (d : Connection). is_due (deadline d) now ≡ false in
      let timed_out : Connection =
        record (queue_response c
          (closing_response 408 (codes "timed out waiting for the rest of the request"))) {
            last_activity = now;
          } in
      let recent : IsRecent now timed_out = unfold queue_response in ground arith in
      either_branch P (ltb 0 (pending_output_bytes c)) (close_now c) _ (closed-not_due now c) (
        either_branch P (has_partial_request c.parser) (advance handler timed_out now) (close_now c)
          (recent-not_due now (advance handler timed_out now)
            (advance-IsRecent now handler timed_out recent))
          (closed-not_due now c))

  deadline-not_due :
      (s : State) (c : Connection)
      → c.state ≡ s
      → is_closed s ≡ false
      → IsPatient c
      → is_due (deadline (on_deadline_in handler s c now)) now ≡ false
  unfolding on_deadline_in
  deadline-not_due active c e o p = idle-not_due c e p
  deadline-not_due closing c e o p = closed-not_due now c
  deadline-not_due draining c e o p = closed-not_due now c
  deadline-not_due closed c e o p = absurd (never o)
    where
      never : true ≡ false → ⊥
      never e = cc

  unchanged-not_due :
      (s : State) (c : Connection)
      → (not (is_closed s) && is_due (deadline_in s c) now) ≡ false
      → is_due (deadline_in s c) now ≡ false
  unchanged-not_due active c h = ground arith
  unchanged-not_due closing c h = ground arith
  unchanged-not_due draining c h = ground arith
  unchanged-not_due closed c h = refl

  -- The connection is closed behind its turn, or due later.
  on_due-not_due :
      (c : Connection) → IsPatient c → is_due (deadline (on_due handler c now)) now ≡ false
  unfolding on_due
  on_due-not_due c p =
      either_case (λ d. is_due (deadline d) now ≡ false)
        (not (is_closed c.state) && is_due (deadline c) now) (on_deadline handler c now) c
        (λ due. deadline-not_due c.state c refl (ground arith) p)
        (λ early. unfold deadline in (unchanged-not_due c.state c early))

-- None of the connections is due.
abbrev pub NoneDue : ℕ → List Connection → Type 0
NoneDue now [] = Unit {0}
NoneDue now (c ∷ cs) = (is_due (deadline c) now ≡ false) × NoneDue now cs

NoneDue-snoc :
    (now : ℕ) (cs : List Connection) (c : Connection)
    → NoneDue now cs
    → is_due (deadline c) now ≡ false
    → NoneDue now (cs ++ c ∷ [])
NoneDue-snoc now [] c h k = (k, tt)
NoneDue-snoc now (d ∷ cs) c (e, h) k = (e, NoneDue-snoc now cs c h k)

remove_closed-NoneDue :
    (now : ℕ) (cs : List Connection) → NoneDue now cs → NoneDue now (remove_closed cs)
unfolding remove_closed
remove_closed-NoneDue now [] h = tt
remove_closed-NoneDue now (c ∷ cs) (e, h) =
    either_branch (NoneDue now) (is_closed c.state) (remove_closed cs) (c ∷ remove_closed cs)
      (remove_closed-NoneDue now cs h) (e, remove_closed-NoneDue now cs h)

HasDeadline-later :
    {t : ℕ} (now : ℕ) (cs : List Connection) → NoneDue now cs → HasDeadline t cs → now < t
HasDeadline-later now [] h d = elim d [ ]
HasDeadline-later {t} now (c ∷ cs) (e, h) (this d) =
    let early : is_due (some t) now ≡ false = ap (λ x. is_due x now) (sym d) ∙ e in ground arith
HasDeadline-later now (c ∷ cs) (e, h) (other d) = HasDeadline-later now cs h d

WaitsFor-later : (s : Server) (now t : ℕ) → NoneDue now s.connections → WaitsFor s now t → now < t
WaitsFor-later s now t h (for_poll e) = omega arith
WaitsFor-later s now t h (for_deadline d) = HasDeadline-later now s.connections h d
WaitsFor-later s now t h (for_pause e later) = omega arith

timeout-pos : (s : Server) (now : ℕ) → NoneDue now s.connections → 0 < poll_timeout_ms s now
unfolding poll_timeout_ms
timeout-pos s now h =
    let later = WaitsFor-later s now (wake_time s now) h (wake_time-WaitsFor s now) in ground arith

module _ {config : ServerConfig} (roomy : IsRoomy config) (handler : Request → Option Response)
    (idle : 0 < config.idle_timeout) (linger : 0 < config.linger_timeout) where
  Sound-IsPatient : (c : Connection) → Sound config c → IsPatient c
  Sound-IsPatient c s = record {
    idle = subst (λ (k : ServerConfig). 0 < k.idle_timeout) (sym s.bounded.0) idle;
    linger = subst (λ (k : ServerConfig). 0 < k.linger_timeout) (sym s.bounded.0) linger;
  }

  turn-not_due :
      (c : Connection) (r : Revents) (now : ℕ)
      → Sound config c
      → is_due (deadline (serve_connection handler c r now)) now ≡ false
  unfolding serve_connection
  turn-not_due c r now s =
      let after = if any_event r then on_poll_events handler c r now else c in
      let sound : Sound config after =
        either_branch (Sound config) (any_event r) (on_poll_events handler c r now) c
          (poll-Follows roomy handler c r now s).sound s in
      on_due-not_due handler now after (Sound-IsPatient after sound)

  serve_all-NoneDue :
      (cs : List Connection) (rs : List Revents) (now : ℕ)
      → AllSound config cs
      → NoneDue now (serve_all handler cs rs now)
  unfolding serve_all
  serve_all-NoneDue [] rs now h = tt
  serve_all-NoneDue (c ∷ cs) [] now (s, h) =
      (on_due-not_due handler now c (Sound-IsPatient c s), serve_all-NoneDue cs [] now h)
  serve_all-NoneDue (c ∷ cs) (r ∷ rs) now (s, h) =
      (turn-not_due c r now s, serve_all-NoneDue cs rs now h)

  -- What the loop of `accept` keeps.
  abbrev Early : ℕ → Server → Type 0
  Early now s = (s.config ≡ config) × NoneDue now s.connections

  admit-Early :
      (s : Server) (socket : Socket) (now : ℕ) → Early now s → Early now (admit s socket now)
  admit-Early s socket now (e, h) =
      let patient = ap (λ (k : ServerConfig). k.idle_timeout) e in
      (
        e,
        NoneDue-snoc now s.connections (new_connection socket s.next_connection_id s.config now) h
            (unfold new_connection deadline in ground (arith, patient)),
      )

  accept-Early :
      (answers : List AcceptAnswer) (s : Server) (now : ℕ)
      → Early now s
      → Early now (accept_new_connections answers s now)
  unfolding accept_new_connections
  accept-Early [] s now h = h
  accept-Early (queue_empty ∷ answers) s now h = h
  accept-Early (try_next ∷ answers) s now h =
      either_branch (Early now) (ltb (length s.connections) s.config.max_connections) _ s
        (accept-Early answers s now h) h
  accept-Early (accept_fails error ∷ answers) s now h =
      either_branch (Early now) (ltb (length s.connections) s.config.max_connections)
        (record s { accept_paused_until = now + accept_pause }) s h h
  accept-Early (accepted socket false ∷ answers) s now h =
      either_branch (Early now) (ltb (length s.connections) s.config.max_connections) _ s
        (accept-Early answers s now h) h
  accept-Early (accepted socket true ∷ answers) s now h =
      either_branch (Early now) (ltb (length s.connections) s.config.max_connections) _ s
        (accept-Early answers (admit s socket now) now (admit-Early s socket now h)) h

  ready-Early : (s : Server) (e : Ready) → IsSound config s → Early e.now (serve_ready handler s e)
  unfolding serve_ready
  ready-Early s e v =
      let served : Server = record s {
        connections = remove_closed (serve_all handler s.connections e.revents e.now);
      } in
      let early : Early e.now served = (
        v.same_config,
        remove_closed-NoneDue e.now (serve_all handler s.connections e.revents e.now)
            (serve_all-NoneDue s.connections e.revents e.now v.all_sound),
      ) in
      either_branch (Early e.now) (e.listener_readable && is_accepting s e.asked) _ served
        (accept-Early e.accepts served e.now early) early

  -- With room in the configuration, timeouts that are not zero, fresh sockets and fewer than 2^64
  -- - 1 answers of `accept`, after each round of every history no connection is due at the time
  -- of the round, and the timeout of `poll` at that time is positive.
  pub serve_ready-NoneDue :
      (answers : List PollAnswer) (e : Ready)
      → AllRoundsFresh answers
      → accepts_in answers + 1 < 2 ^ 64
      → NoneDue e.now
          (serve_ready handler
            (server_of (serve handler answers (new_server config)))
            e).connections
        × (0
            < poll_timeout_ms
                (serve_ready handler (server_of (serve handler answers (new_server config))) e)
                e.now)
  serve_ready-NoneDue answers e fresh few =
      let s = server_of (serve handler answers (new_server config)) in
      let early = ready-Early s e (serve-IsSound roomy handler answers fresh few) in
      (early.1, timeout-pos (serve_ready handler s e) e.now early.1)
