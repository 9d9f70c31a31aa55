-- ===== src/Connection/Finality.antt =====
-- src/connection.cpp: a response that closes the connection is the last one, and every response is
-- the handler's answer to a request or one that the connection makes itself.
use network_arc_rajasurya.Prelude.{
  ◌≡◌, ◌⊎◌, true, false, ◌||◌, not, List, [], ◌∷◌, ◌++◌, Option, none, some, Bytes, codes, equal,
}
use network_arc_rajasurya.Request.{Request, wants_keep_alive}
use network_arc_rajasurya.Response.{Response}
use network_arc_rajasurya.Parser.Result.{complete}
use network_arc_rajasurya.Parser.{RequestParser, next}
use network_arc_rajasurya.Connection.Socket.{Socket}
use network_arc_rajasurya.Connection.State.{active, Connection}

abbrev pub AllKeep : List Response → Type 0
AllKeep [] = Unit {0}
AllKeep (r ∷ rs) = (r.close_connection ≡ false) × AllKeep rs

-- None but the last response closes the connection.
abbrev pub OnlyLastCloses : List Response → Type 0
OnlyLastCloses [] = Unit {0}
OnlyLastCloses (r ∷ []) = Unit {0}
OnlyLastCloses (r ∷ s ∷ rs) = (r.close_connection ≡ false) × OnlyLastCloses (s ∷ rs)

-- The response to a request, by what the handler did: what it returned, or a 500 where it threw. The
-- connection is closed where the handler or the request says so, and a HEAD has no body in return.
pub record Finishes (q : Request) (p r : Response) : Type 0 where
  pub same_status : r.status ≡ p.status
  pub same_body : r.body ≡ p.body
  pub same_headers : r.headers ≡ p.headers
  pub closing : r.close_connection ≡ (p.close_connection || not (wants_keep_alive q))
  pub bodiless : r.omit_body ≡ (p.omit_body || equal q.method (codes "HEAD"))

abbrev pub Completes : Request → Option Response → Response → Type 0
Completes q (some p) r = Finishes q p r
Completes q none r =
    (r.status ≡ 500)
    × (r.body ≡ codes "internal server error\n")
    × (r.headers ≡ [])
    × (r.close_connection ≡ true)

-- The connection's own response to what it cannot answer, or to a request that does not come in time.
pub record IsRefusal (r : Response) : Type 0 where
  pub message : Bytes
  pub has_text : r.body ≡ message ++ b'\n' ∷ []
  pub is_bare : r.headers ≡ []
  pub is_last : r.close_connection ≡ true

module _ (handler : Request → Option Response) where
  abbrev pub Made : Response → Type 0
  Made r =
      ((q : Request) × (before after : RequestParser) × (next before ≡ (after, complete q))
        × Completes q (handler q) r)
      ⊎ IsRefusal r

  abbrev pub AllMade : List Response → Type 0
  AllMade [] = Unit {0}
  AllMade (r ∷ rs) = Made r × AllMade rs

  -- What a step from `c` to `d` may queue.
  abbrev Queues : Connection → Connection → List Response → Type 0
  Queues c d [] = d.state ≡ active → c.state ≡ active
  Queues c d (r ∷ []) =
      (c.state ≡ active) × (d.state ≡ active → r.close_connection ≡ false) × Made r
  Queues c d (r ∷ s ∷ rs) = ⊥

module _ (handler : Request → Option Response) where
  -- What was queued until `d`.
  abbrev Queued : Connection → List Response → Type 0
  Queued d rs = (d.state ≡ active → AllKeep rs) × OnlyLastCloses rs × AllMade handler rs
