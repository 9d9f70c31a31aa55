-- ===== src/Parser/Delivery.antt =====
-- How the parser of src/request_parser.cpp is driven: each `recv` is fed to it, and `next` is called
-- until it has no complete request (the loop of `respond_to_buffered_requests`).
use mathlib.Core.Option
use network_arc_rajasurya.Prelude.{
  ℕ, zero, suc, ◌+◌, List, [], ◌∷◌, ◌++◌, Option, none, some, Bytes,
}
use network_arc_rajasurya.Request.{Request}
use network_arc_rajasurya.Parser.Result.{ParseResult, incomplete, complete, error}
use network_arc_rajasurya.Parser.{RequestParser, buffered_bytes, feed, next}

-- The requests in order, and the result that ended them.
pub record Delivery : Type 0 where
  pub requests : List Request
  pub last : ParseResult
  pub parser : RequestParser

abbrev pub prepend : List Request → Delivery → Delivery
prepend rs d = record d { requests = rs ++ d.requests }

-- `none` means that the fuel ran out.
unfoldable pub drain : ℕ → RequestParser → Option Delivery
drain zero p = none
drain (suc fuel) p =
    let (q, result) = next p in
    elim result [
      | incomplete ↦ some (record { requests = []; last = incomplete; parser = q })
      | complete r ↦ Option.map (prepend (r ∷ [])) (drain fuel q)
      | error e ↦ some (record { requests = []; last = error e; parser = q })
    ]

-- Each request takes a byte at least, but for one whose body was awaited.
unfoldable pub drain_all : RequestParser → Option Delivery
drain_all p = drain (buffered_bytes p + 2) p

-- The stream arrives in pieces; the requests are taken before each of them and at the end.
unfoldable pub deliver : RequestParser → List Bytes → Option Delivery
deliver p [] = drain_all p
deliver p (piece ∷ pieces) =
    Option.bind (drain_all p)
      λ d. Option.map (prepend d.requests) (deliver (feed d.parser piece) pieces)
