-- ===== src/Connection.antt =====
-- include/calc/connection.hpp and src/connection.cpp: one accepted connection, driven by the server.
-- The handler is a parameter; `none` means that it throws. Log lines are not modelled.
pub mod Socket
pub mod State
pub mod Input
pub mod Output
pub mod Steps
pub mod Paths
pub mod Runs
pub mod Order
pub mod Buffer
pub mod Rounds
pub mod Flushing
pub mod Waits
pub mod Liveness
pub mod Finality
pub mod Teardown
pub mod Recency
use network_arc_rajasurya.Prelude.{
  ℕ, zero, suc, ◌+◌, Bool, true, false, ◌&&◌, ◌||◌, not, List, [], ◌∷◌, Option, none, some, Bytes,
  codes, equal, length, ltb, ◌==◌, if◌then◌else◌,
}
use network_arc_rajasurya.Request.{Request, wants_keep_alive}
use network_arc_rajasurya.Response.{Response, text_response}
use network_arc_rajasurya.Parser.Result.{ParseError, ParseResult, incomplete, complete, error}
use network_arc_rajasurya.Parser.{RequestParser, buffered_bytes, has_partial_request, next}
use State.{
  active, closing, draining, closed, Connection, is_active, is_closing, is_draining, is_closed,
  pending_output_bytes, wants_to_read, close_now, close,
}
use Input.{read_from_socket, discard_lingering_input}
use Output.{queue_response, flush_output}

unfoldable pub begin_lingering_close : Connection → ℕ → Connection
begin_lingering_close c now = if not c.socket.shutdown_succeeds then close_now c else record c {
  socket = record c.socket { fin_queued = true };
  state = draining;
  linger_deadline = now + c.config.linger_timeout;
}

-- `none` is `Clock::time_point::max()`.
abbrev pub deadline_in : State.State → Connection → Option ℕ
deadline_in active c = some (c.last_activity + c.config.idle_timeout)
deadline_in closing c = some (c.last_activity + c.config.idle_timeout)
deadline_in draining c = some c.linger_deadline
deadline_in closed c = none

unfoldable pub deadline : Connection → Option ℕ
deadline c = deadline_in c.state c

-- What happens behind the loop of `advance`.
unfoldable pub settle : Connection → ℕ → Connection
settle c now =
    if is_active c.state && c.peer_finished_sending && pending_output_bytes c == 0
    then close_now c
    else if is_closing c.state && pending_output_bytes c == 0
    then (if c.peer_finished_sending then close_now c else begin_lingering_close c now)
    else c

-- `closing_response`: the responses that the connection makes itself are the last ones.
abbrev pub closing_response : ℕ → Bytes → Response
closing_response status message = record (text_response status message) { close_connection = true }

-- The bits of `revents`.
pub record Revents : Type 0 where
  pub pollin : Bool
  pub pollout : Bool
  pub pollhup : Bool
  pub pollerr : Bool
  pub pollnval : Bool

-- `run_handler` on what the handler did.
abbrev pub handled : Option Response → Response
handled none = closing_response 500 (codes "internal server error")
handled (some response) = response

-- What the server does with a connection: after `poll`, when the deadline has passed, at the end.
pub data Event : Type 0 where
  polled : Revents → ℕ → Event
  expired : ℕ → Event
  shut_down : Event

module _ (handler : Request → Option Response) where
  unfoldable pub run_handler : Request → Response
  run_handler request = handled (handler request)

  -- The response as `respond_to_buffered_requests` completes it.
  unfoldable pub response_to : Request → Response
  unfolding run_handler
  response_to request =
      let response = run_handler request in
      record response {
        close_connection =
            if not (wants_keep_alive request) then true else response.close_connection;
        omit_body = if equal request.method (codes "HEAD") then true else response.omit_body;
      }

  -- What a round of `respond_to_buffered_requests` does with the result of the parser; `again` is
  -- the rest of the loop, and the flag is `responded`.
  unfoldable pub on_parsed :
      (Connection → Bool → Connection × Bool)
      → Connection
      → Bool
      → RequestParser × ParseResult
      → Connection × Bool
  on_parsed again c responded (q, incomplete) = (record c { parser = q }, responded)
  on_parsed again c responded (q, error e) =
      (queue_response (record c { parser = q }) (closing_response e.status e.message), true)
  on_parsed again c responded (q, complete r) =
      again (queue_response (record c { parser = q }) (response_to r)) true

  -- The loop of `respond_to_buffered_requests`.
  unfoldable pub respond_loop : ℕ → Connection → Bool → Connection × Bool
  respond_loop zero c responded = (c, responded)
  respond_loop (suc fuel) c responded =
      let parsed = on_parsed (respond_loop fuel) c responded (next c.parser) in
      if is_active c.state && ltb (pending_output_bytes c) c.config.output_high_water
      then parsed
      else (c, responded)

  -- Each round takes a byte of input at least, but for one whose body was awaited.
  unfoldable pub respond_to_buffered_requests : Connection → Connection × Bool
  respond_to_buffered_requests c = respond_loop (buffered_bytes c.parser + 2) c false

  -- One round of the loop of `advance`, and whether it made progress.
  unfoldable pub advance_round : Connection → ℕ → Connection × Bool
  advance_round c now =
      let answered : Connection × Bool =
        if is_active c.state then respond_to_buffered_requests c else (c, false) in
      let flushed = flush_output answered.0 now in (flushed.0, flushed.1 || answered.1)

  unfoldable pub advance_loop : ℕ → Connection → ℕ → Connection
  advance_loop zero c now = c
  advance_loop (suc fuel) c now =
      let (after, progress) = advance_round c now in
      let later = advance_loop fuel after now in
      if is_active c.state || is_closing c.state then (if progress then later else after) else c

  -- A round with progress takes input or uses an answer of `send`.
  abbrev pub advance_fuel : Connection → ℕ
  advance_fuel c = buffered_bytes c.parser + length c.socket.sends + 3

  unfoldable pub advance : Connection → ℕ → Connection
  advance c now = settle (advance_loop (advance_fuel c) c now) now

  unfoldable pub on_poll_events : Connection → Revents → ℕ → Connection
  on_poll_events c revents now =
      if is_closed c.state
      then c
      else if revents.pollnval
      then close_now c
      else if revents.pollerr
      then close_now c
      else if is_draining c.state
      then (if revents.pollin || revents.pollhup then discard_lingering_input c else c)
      else advance
          (if (revents.pollin || revents.pollhup) && wants_to_read c
            then read_from_socket c now
            else c)
          now

  -- `on_deadline` in `State::Active`.
  unfoldable pub on_idle : Connection → ℕ → Connection
  on_idle c now =
      if ltb 0 (pending_output_bytes c)
      then close_now c
      else if has_partial_request c.parser
      then advance
          (record (queue_response c
            (closing_response 408 (codes "timed out waiting for the rest of the request"))) {
              last_activity = now;
            })
          now
      else close_now c

  unfoldable pub on_deadline_in : State.State → Connection → ℕ → Connection
  on_deadline_in active c now = on_idle c now
  on_deadline_in closing c now = close_now c
  on_deadline_in draining c now = close_now c
  on_deadline_in closed c now = c

  abbrev pub on_deadline : Connection → ℕ → Connection
  on_deadline c now = on_deadline_in c.state c now

  unfoldable pub handle_event : Connection → Event → Connection
  handle_event c (polled revents now) = on_poll_events c revents now
  handle_event c (expired now) = on_deadline c now
  handle_event c shut_down = close c

  unfoldable pub run : Connection → List Event → Connection
  unfolding handle_event
  run c [] = c
  run c (e ∷ es) = run (handle_event c e) es
