-- ===== src/Server/Sound.antt =====
-- What holds of every connection that the server of src/server.cpp drives, and of one it accepts.
use network_arc_rajasurya.Prelude.{
  ℕ, ◌≤◌, ◌≡◌, refl, ◌∙◌, true, false, ◌&&◌, not, Option, length, arith, either_branch,
  if◌then◌else◌,
}
use network_arc_rajasurya.Config.{ServerConfig}
use network_arc_rajasurya.Request.{Request}
use network_arc_rajasurya.Response.{Response}
use network_arc_rajasurya.Connection.Socket.{Socket}
use network_arc_rajasurya.Connection.State.{Connection, new_connection, is_closed}
use network_arc_rajasurya.Connection.Runs.{handle_event-Leads}
use network_arc_rajasurya.Connection.Order.{Reach-Writes}
use network_arc_rajasurya.Connection.Buffer.{IsBounded, Reach-IsBounded, new_connection-IsBounded}
use network_arc_rajasurya.Connection.Rounds.{IsRoomy}
use network_arc_rajasurya.Connection.Waits.{Waits}
use network_arc_rajasurya.Connection.Liveness.{handle_event-Waits, new_connection-Waits}
use network_arc_rajasurya.Connection.Teardown.{Tidy, Reach-Tidy}
use network_arc_rajasurya.Connection.{
  Revents, Event, polled, expired, deadline, on_poll_events, on_deadline, handle_event,
}
use network_arc_rajasurya.Server.{any_event, is_due, on_due, serve_connection}

pub record Sound (config : ServerConfig) (c : Connection) : Type 0 where
  pub bounded : IsBounded config c
  pub waits : Waits c
  pub tidy : Tidy c
  pub sent_le : c.output_sent ≤ length c.output

-- A socket as `accept` hands it over.
pub record IsFresh (socket : Socket) : Type 0 where
  pub is_open : socket.descriptor_open ≡ true
  pub no_fin : socket.fin_queued ≡ false

-- The next state of a connection, which is still the same connection.
pub record Follows (config : ServerConfig) (c d : Connection) : Type 0 where
  pub sound : Sound config d
  pub same_id : d.id ≡ c.id

pub new_connection-Sound :
    (socket : Socket) (id now : ℕ) (config : ServerConfig)
    → IsRoomy config
    → IsFresh socket
    → Sound config (new_connection socket id config now)
new_connection-Sound socket id now config roomy fresh = record {
  bounded = new_connection-IsBounded socket id now config;
  waits = new_connection-Waits socket id now config roomy;
  tidy =
      unfold new_connection in
      record {
        open_until = fresh.is_open;
        fin_state = ground arith;
        fin_last = ground (arith, fresh.no_fin);
        all_sent = ground arith;
      };
  sent_le = unfold new_connection in omega arith;
}

module _ {config : ServerConfig} (roomy : IsRoomy config)
    (handler : Request → Option Response) where
  handle_event-Follows :
      (c : Connection) (e : Event) → Sound config c → Follows config c (handle_event handler c e)
  handle_event-Follows c e s =
      let l = handle_event-Leads handler c e in
      let w = Reach-Writes l.reach s.sent_le in
      record {
        sound = record {
          bounded = Reach-IsBounded l.reach s.bounded;
          waits = handle_event-Waits roomy handler c e s.bounded;
          tidy = Reach-Tidy l.reach s.tidy;
          sent_le = w.sent_le;
        };
        same_id = w.same_id;
      }

  pub poll-Follows :
      (c : Connection) (r : Revents) (now : ℕ)
      → Sound config c
      → Follows config c (on_poll_events handler c r now)
  poll-Follows c r now s = unfold handle_event in handle_event-Follows c (polled r now) s

  deadline-Follows :
      (c : Connection) (now : ℕ) → Sound config c → Follows config c (on_deadline handler c now)
  deadline-Follows c now s = unfold handle_event in handle_event-Follows c (expired now) s

  pub on_due-Follows :
      (c : Connection) (now : ℕ) → Sound config c → Follows config c (on_due handler c now)
  unfolding on_due
  on_due-Follows c now s =
      either_branch (Follows config c) (not (is_closed c.state) && is_due (deadline c) now) _ _
        (deadline-Follows c now s) (record { sound = s; same_id = refl })

  pub serve_connection-Follows :
      (c : Connection) (r : Revents) (now : ℕ)
      → Sound config c
      → Follows config c (serve_connection handler c r now)
  unfolding serve_connection
  serve_connection-Follows c r now s =
      let after = if any_event r then on_poll_events handler c r now else c in
      let f : Follows config c after =
        either_branch (Follows config c) (any_event r) _ _ (poll-Follows c r now s)
          (record { sound = s; same_id = refl }) in
      let g = on_due-Follows after now f.sound in
      record { sound = g.sound; same_id = g.same_id ∙ f.same_id }
