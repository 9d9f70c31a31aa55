-- ===== src/Server/History.antt =====
-- src/server.cpp: every history of the server keeps it sound, and its end closes all descriptors.
use network_arc_rajasurya.Prelude.{
  ℕ, ◌+◌, ◌*◌, ◌^◌, ◌≤◌, ◌<◌, ◌≡◌, refl, subst, true, false, ◌&&◌, List, [], ◌∷◌, map, Option,
  length, arith, either_case, either_branch, ltb,
}
use network_arc_rajasurya.Config.{ServerConfig, max_request_bytes}
use network_arc_rajasurya.Request.{Request}
use network_arc_rajasurya.Response.{Response}
use network_arc_rajasurya.Parser.{buffered_bytes}
use network_arc_rajasurya.Connection.Teardown.{Tidy}
use network_arc_rajasurya.Connection.State.{closed, Connection, close, close_now}
use network_arc_rajasurya.Connection.Buffer.{buffered-unread}
use network_arc_rajasurya.Connection.Rounds.{IsRoomy}
use network_arc_rajasurya.Server.Invariant.{
  IsSound, AllSound, AllFresh, serve_all-Kept, admit-IsSound,
}
use network_arc_rajasurya.Server.{
  Server, new_server, AcceptAnswer, accepted, queue_empty, try_next, accept_fails, admit,
  accept_new_connections, is_accepting, Ready, PollAnswer, ready, interrupted, poll_fails,
  serve_ready, Loop, stopped, threw, serve, serve_all, remove_closed, shut_down_server,
}

-- Sound, with `n` ids to spare.
abbrev Has : ServerConfig → ℕ → Server → Type 0
Has config n s = IsSound config s × (s.next_connection_id + n < 2 ^ 64)

fewer : {config : ServerConfig} (m n : ℕ) (s : Server) → n ≤ m → Has config m s → Has config n s
fewer m n s le (v, few) = (v, omega arith)

-- The answers of `accept` in all rounds.
abbrev pub accepts_in : List PollAnswer → ℕ
accepts_in [] = 0
accepts_in (ready e ∷ answers) = length e.accepts + accepts_in answers
accepts_in (interrupted ∷ answers) = accepts_in answers
accepts_in (poll_fails error ∷ answers) = accepts_in answers

abbrev pub AllRoundsFresh : List PollAnswer → Type 0
AllRoundsFresh [] = Unit {0}
AllRoundsFresh (ready e ∷ answers) = AllFresh e.accepts × AllRoundsFresh answers
AllRoundsFresh (interrupted ∷ answers) = AllRoundsFresh answers
AllRoundsFresh (poll_fails error ∷ answers) = AllRoundsFresh answers

abbrev pub server_of : Loop → Server
server_of (stopped s) = s
server_of (threw error s) = s

module _ {config : ServerConfig} (roomy : IsRoomy config)
    (handler : Request → Option Response) where
  accept-Has :
      (answers : List AcceptAnswer) (s : Server) (now n : ℕ)
      → AllFresh answers
      → Has config (length answers + n) s
      → Has config n (accept_new_connections answers s now)
  unfolding accept_new_connections
  accept-Has [] s now n fresh h = fewer (0 + n) n s (omega arith) h
  accept-Has (queue_empty ∷ answers) s now n fresh h = fewer _ n s (omega arith) h
  accept-Has (try_next ∷ answers) s now n fresh h =
      either_branch (Has config n) (ltb (length s.connections) s.config.max_connections) _ _
        (accept-Has answers s now n fresh (fewer _ _ s (omega arith) h))
        (fewer _ n s (omega arith) h)
  accept-Has (accept_fails error ∷ answers) s now n fresh h =
      either_branch (Has config n) (ltb (length s.connections) s.config.max_connections) _ _
        (
          record {
            same_config = h.0.same_config;
            within_limit = h.0.within_limit;
            all_sound = h.0.all_sound;
            all_open = h.0.all_open;
            ids = h.0.ids;
          },
          omega (arith, h.1),
        )
        (fewer _ n s (omega arith) h)
  accept-Has (accepted socket false ∷ answers) s now n (fresh, rest) h =
      either_branch (Has config n) (ltb (length s.connections) s.config.max_connections) _ _
        (accept-Has answers s now n rest (fewer _ _ s (omega arith) h))
        (fewer _ n s (omega arith) h)
  accept-Has (accepted socket true ∷ answers) s now n (fresh, rest) h =
      either_case (Has config n) (ltb (length s.connections) s.config.max_connections) _ _
        (λ room. accept-Has answers (admit s socket now) now n rest (
          admit-IsSound roomy handler s socket now fresh (ground arith) (omega (arith, h.1)) h.0,
          omega (arith, h.1),
        ))
        (λ _. fewer _ n s (omega arith) h)

  serve_ready-Has :
      (s : Server) (e : Ready) (n : ℕ)
      → AllFresh e.accepts
      → Has config (length e.accepts + n) s
      → Has config n (serve_ready handler s e)
  unfolding serve_ready
  serve_ready-Has s e n fresh (v, few) =
      let k =
        serve_all-Kept roomy handler 1 s.next_connection_id s.connections e.revents e.now
          v.all_sound v.ids in
      let served : Server = record s {
        connections = remove_closed (serve_all handler s.connections e.revents e.now);
      } in
      let kept : IsSound config served = record {
        same_config = v.same_config;
        within_limit = omega (arith, k.shorter, v.within_limit);
        all_sound = k.all_sound;
        all_open = k.all_open;
        ids = k.ids;
      } in
      either_branch (Has config n) (e.listener_readable && is_accepting s e.asked) _ _
        (accept-Has e.accepts served e.now n fresh (kept, few)) (kept, omega arith)

  serve-Has :
      (answers : List PollAnswer) (s : Server)
      → AllRoundsFresh answers
      → Has config (accepts_in answers) s
      → IsSound config (server_of (serve handler answers s))
  unfolding serve
  serve-Has [] s fresh h = h.0
  serve-Has (interrupted ∷ answers) s fresh h = serve-Has answers s fresh h
  serve-Has (poll_fails error ∷ answers) s fresh h = h.0
  serve-Has (ready e ∷ answers) s (fresh, rest) h =
      serve-Has answers (serve_ready handler s e) rest
        (serve_ready-Has s e (accepts_in answers) fresh h)

  -- Whatever `poll` and `accept` answer a new server, for a configuration that leaves room and
  -- sockets that are fresh: in every round there are at most `max_connections` connections; each
  -- is open, within its input limit, waits for something that `poll` reports and is in order for
  -- its end; and their ids are distinct, in the order of acceptance, while `accept` gives fewer
  -- than 2^64 - 1 answers.
  pub serve-IsSound :
      (answers : List PollAnswer)
      → AllRoundsFresh answers
      → accepts_in answers + 1 < 2 ^ 64
      → IsSound config (server_of (serve handler answers (new_server config)))
  serve-IsSound answers fresh few = serve-Has answers (new_server config) fresh (
      unfold new_server in
      (
        record {
          same_config = refl;
          within_limit = omega arith;
          all_sound = tt;
          all_open = tt;
          ids = omega arith;
        },
        omega arith,
      ))

abbrev pub total_buffered : List Connection → ℕ
total_buffered [] = 0
total_buffered (c ∷ cs) = buffered_bytes c.parser + total_buffered cs

total_buffered-le :
    (config : ServerConfig) (cs : List Connection)
    → AllSound config cs
    → total_buffered cs ≤ length cs * max_request_bytes config.limits
total_buffered-le config [] h = omega arith
total_buffered-le config (c ∷ cs) (s, h) =
    grind (arith, s.bounded.1.held_le, buffered-unread c.parser, total_buffered-le config cs h)

-- What `close` makes of a connection: the same one, with its descriptor closed and nothing more sent.
pub record IsShut (before after : Connection) : Type 0 where
  pub same_id : after.id ≡ before.id
  pub is_closed_now : after.state ≡ closed
  pub no_descriptor : after.socket.descriptor_open ≡ false
  pub same_wire : after.socket.wire ≡ before.socket.wire

-- Each connection, in order, and no other.
abbrev pub AllShut : List Connection → List Connection → Type 0
AllShut [] [] = Unit {0}
AllShut [] (d ∷ ds) = ⊥
AllShut (c ∷ cs) [] = ⊥
AllShut (c ∷ cs) (d ∷ ds) = IsShut c d × AllShut cs ds

close-IsShut : (c : Connection) → Tidy c → IsShut c (close c)
unfolding close_now
close-IsShut c t = ground (arith, t.open_until)

close-AllShut :
    (config : ServerConfig) (cs : List Connection) → AllSound config cs → AllShut cs (map close cs)
close-AllShut config [] h = tt
close-AllShut config (c ∷ cs) (s, h) = (close-IsShut c s.tidy, close-AllShut config cs h)

module _ {config : ServerConfig} (roomy : IsRoomy config)
    (handler : Request → Option Response) where
  -- With room in the configuration, fresh sockets and fewer than 2^64 - 1 answers of `accept`, after
  -- every history of answers of `poll` and `accept` all connections of a server together buffer at most
  -- `max_connections` times the bytes of one request.
  pub serve-total_buffered :
      (answers : List PollAnswer)
      → AllRoundsFresh answers
      → accepts_in answers + 1 < 2 ^ 64
      → total_buffered (server_of (serve handler answers (new_server config))).connections
        ≤ config.max_connections * max_request_bytes config.limits
  serve-total_buffered answers fresh few =
      let v = serve-IsSound roomy handler answers fresh few in
      let s = server_of (serve handler answers (new_server config)) in
      grind (arith, total_buffered-le config s.connections v.all_sound, v.within_limit)

  -- With room in the configuration, fresh sockets and fewer than 2^64 - 1 answers of `accept`: where the
  -- loop of `run` ends by the stop request, what follows it closes each connection of the server that
  -- the loop leaves, in order and no other, with its descriptor closed and nothing more sent on it; no
  -- connection is left and the listener is closed.
  pub shut_down-closes :
      (answers : List PollAnswer) (s : Server)
      → AllRoundsFresh answers
      → accepts_in answers + 1 < 2 ^ 64
      → serve handler answers (new_server config) ≡ stopped s
      → AllShut s.connections (shut_down_server s).1
        × ((shut_down_server s).0.connections ≡ [])
        × ((shut_down_server s).0.listener_open ≡ false)
  unfolding shut_down_server
  shut_down-closes answers s fresh few e =
      let v =
        subst (λ l. IsSound config (server_of l)) e
          (serve-IsSound roomy handler answers fresh few) in
      (close-AllShut config s.connections v.all_sound, refl, refl)
