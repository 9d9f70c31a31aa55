-- ===== src/Connection/Runs.antt =====
-- Every history of a connection of src/connection.cpp is a sequence of the steps.
use network_arc_rajasurya.Prelude.{List, [], ◌∷◌, Option}
use network_arc_rajasurya.Request.{Request}
use network_arc_rajasurya.Response.{Response}
use network_arc_rajasurya.Connection.State.{Connection}
use network_arc_rajasurya.Connection.{Event, polled, expired, shut_down, handle_event, run}
use network_arc_rajasurya.Connection.Steps.{closes, Leads, Leads-refl, Leads-trans, one-Step}
use network_arc_rajasurya.Connection.Paths.{on_poll_events-Leads, on_deadline-Leads}

module _ (handler : Request → Option Response) where
  pub handle_event-Leads : (c : Connection) (e : Event) → Leads handler c (handle_event handler c e)
  unfolding handle_event
  handle_event-Leads c (polled revents now) = on_poll_events-Leads handler c revents now
  handle_event-Leads c (expired now) = on_deadline-Leads handler c now
  handle_event-Leads c shut_down = one-Step handler (closes c)

  pub run-Leads : (c : Connection) (es : List Event) → Leads handler c (run handler c es)
  unfolding run
  run-Leads c [] = Leads-refl handler c
  run-Leads c (e ∷ es) =
      Leads-trans handler (handle_event-Leads c e) (run-Leads (handle_event handler c e) es)
