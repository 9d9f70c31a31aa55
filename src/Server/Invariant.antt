-- ===== src/Server/Invariant.antt =====
-- src/server.cpp: what holds of the server in every round of its loop.
use network_arc_rajasurya.Prelude.{
  ℕ, ◌+◌, ◌^◌, ◌≤◌, ◌<◌, ◌≡◌, refl, sym, subst, ap, false, List, [], ◌∷◌, ◌++◌, Option, length,
  arith, either_case, length-append,
}
use network_arc_rajasurya.Config.{ServerConfig}
use network_arc_rajasurya.Request.{Request}
use network_arc_rajasurya.Response.{Response}
use network_arc_rajasurya.Connection.Socket.{Socket}
use network_arc_rajasurya.Connection.State.{Connection, new_connection, is_closed}
use network_arc_rajasurya.Connection.Rounds.{IsRoomy}
use network_arc_rajasurya.Connection.{Revents}
use network_arc_rajasurya.Server.Sound.{
  Sound, IsFresh, Follows, new_connection-Sound, on_due-Follows, serve_connection-Follows,
}
use network_arc_rajasurya.Server.{
  Server, AcceptAnswer, accepted, queue_empty, try_next, accept_fails, admit, on_due,
  serve_connection, serve_all, remove_closed,
}

-- The ids ascend from `low` on and stay below `high`.
abbrev pub Ascends : ℕ → List Connection → ℕ → Type 0
Ascends low [] high = low ≤ high
Ascends low (c ∷ cs) high = (low ≤ c.id) × Ascends (c.id + 1) cs high

-- All connections are sound; those that are kept over a round are not closed.
abbrev pub AllSound : ServerConfig → List Connection → Type 0
AllSound config [] = Unit {0}
AllSound config (c ∷ cs) = Sound config c × AllSound config cs

abbrev pub AllOpen : List Connection → Type 0
AllOpen [] = Unit {0}
AllOpen (c ∷ cs) = (is_closed c.state ≡ false) × AllOpen cs

pub record IsSound (config : ServerConfig) (s : Server) : Type 0 where
  pub same_config : s.config ≡ config
  pub within_limit : length s.connections ≤ config.max_connections
  pub all_sound : AllSound config s.connections
  pub all_open : AllOpen s.connections
  pub ids : Ascends 1 s.connections s.next_connection_id

-- The sockets among the answers are as `accept` hands them over.
abbrev pub AllFresh : List AcceptAnswer → Type 0
AllFresh [] = Unit {0}
AllFresh (accepted socket nonblocking ∷ answers) = IsFresh socket × AllFresh answers
AllFresh (queue_empty ∷ answers) = AllFresh answers
AllFresh (try_next ∷ answers) = AllFresh answers
AllFresh (accept_fails error ∷ answers) = AllFresh answers

Ascends-weaken :
    (low low' high : ℕ) (cs : List Connection)
    → low' ≤ low
    → Ascends low cs high
    → Ascends low' cs high
Ascends-weaken low low' high [] h a = omega arith
Ascends-weaken low low' high (c ∷ cs) h (le, a) = (omega arith, a)

Ascends-snoc :
    (low high : ℕ) (cs : List Connection) (c : Connection)
    → Ascends low cs high
    → c.id ≡ high
    → Ascends low (cs ++ c ∷ []) (high + 1)
Ascends-snoc low high [] c a e = (omega arith, omega arith)
Ascends-snoc low high (d ∷ cs) c (le, a) e = (le, Ascends-snoc (d.id + 1) high cs c a e)

AllSound-snoc :
    {config : ServerConfig} (cs : List Connection) (c : Connection)
    → AllSound config cs
    → Sound config c
    → AllSound config (cs ++ c ∷ [])
AllSound-snoc [] c h k = (k, tt)
AllSound-snoc (d ∷ cs) c (s, h) k = (s, AllSound-snoc cs c h k)

AllOpen-snoc :
    (cs : List Connection) (c : Connection)
    → AllOpen cs
    → is_closed c.state ≡ false
    → AllOpen (cs ++ c ∷ [])
AllOpen-snoc [] c h k = (k, tt)
AllOpen-snoc (d ∷ cs) c (s, h) k = (s, AllOpen-snoc cs c h k)

-- What serving a list of connections, and then removing the closed ones, keeps.
pub record Kept (config : ServerConfig) (low high : ℕ) (cs ds : List Connection) : Type 0 where
  pub shorter : length ds ≤ length cs
  pub all_sound : AllSound config ds
  pub all_open : AllOpen ds
  pub ids : Ascends low ds high

-- `d` is what became of the first connection.
Kept-cons :
    {config : ServerConfig} (low high : ℕ) (c d : Connection) (cs ds : List Connection)
    → low ≤ c.id
    → Follows config c d
    → Kept config (c.id + 1) high cs (remove_closed ds)
    → Kept config low high (c ∷ cs) (remove_closed (d ∷ ds))
unfolding remove_closed
Kept-cons {config} low high c d cs ds le f k =
    either_case (Kept config low high (c ∷ cs)) (is_closed d.state) (remove_closed ds)
      (d ∷ remove_closed ds)
      (λ _. record {
        shorter = omega (arith, k.shorter);
        all_sound = k.all_sound;
        all_open = k.all_open;
        ids = Ascends-weaken (c.id + 1) low high (remove_closed ds) (omega arith) k.ids;
      })
      (λ kept. record {
        shorter = omega (arith, k.shorter);
        all_sound = (f.sound, k.all_sound);
        all_open = (kept, k.all_open);
        ids =
            subst (λ i. (low ≤ i) × Ascends (i + 1) (remove_closed ds) high) (sym f.same_id)
              (le, k.ids);
      })

module _ {config : ServerConfig} (roomy : IsRoomy config)
    (handler : Request → Option Response) where
  pub serve_all-Kept :
      (low high : ℕ) (cs : List Connection) (rs : List Revents) (now : ℕ)
      → AllSound config cs
      → Ascends low cs high
      → Kept config low high cs (remove_closed (serve_all handler cs rs now))
  unfolding serve_all
  serve_all-Kept low high [] rs now h a =
      unfold remove_closed in
      record { shorter = omega arith; all_sound = tt; all_open = tt; ids = a }
  serve_all-Kept low high (c ∷ cs) [] now (s, h) (le, a) =
      Kept-cons low high c (on_due handler c now) cs (serve_all handler cs [] now) le
        (on_due-Follows roomy handler c now s) (serve_all-Kept (c.id + 1) high cs [] now h a)
  serve_all-Kept low high (c ∷ cs) (r ∷ rs) now (s, h) (le, a) =
      Kept-cons low high c (serve_connection handler c r now) cs (serve_all handler cs rs now) le
        (serve_connection-Follows roomy handler c r now s)
        (serve_all-Kept (c.id + 1) high cs rs now h a)

  pub admit-IsSound :
      (s : Server) (socket : Socket) (now : ℕ)
      → IsFresh socket
      → length s.connections < s.config.max_connections
      → s.next_connection_id + 1 < 2 ^ 64
      → IsSound config s
      → IsSound config (admit s socket now)
  admit-IsSound s socket now fresh room few v =
      let c = new_connection socket s.next_connection_id s.config now in
      let limit = ap (λ k. k.max_connections) v.same_config in
      record {
        same_config = v.same_config;
        within_limit = omega (arith, length-append s.connections (c ∷ []), limit);
        all_sound = AllSound-snoc s.connections c v.all_sound (
            subst (λ k. Sound config (new_connection socket s.next_connection_id k now))
              (sym v.same_config)
              (new_connection-Sound socket s.next_connection_id now config roomy fresh));
        all_open = AllOpen-snoc s.connections c v.all_open (unfold new_connection in refl);
        ids = subst (Ascends 1 (s.connections ++ c ∷ [])) (omega arith) (
            Ascends-snoc 1 s.next_connection_id s.connections c v.ids
              (unfold new_connection in refl));
      }
