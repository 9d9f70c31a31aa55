-- ===== src/Parser/Yields.antt =====
-- The requests that the abstract parser returns, one call of `next_request` after another.
use network_arc_rajasurya.Prelude.{
  ℕ, ◌+◌, ◌≤◌, ◌<◌, ◌≡◌, refl, sym, ap, subst, ◌∙◌, List, [], ◌∷◌, ◌++◌, Option, none, some, Bytes,
  length, arith, length-drop, either_branch,
}
use network_arc_rajasurya.Request.{Request}
use network_arc_rajasurya.Parser.Result.{
  ParseError, Parsed, ok, err, ParseResult, incomplete, complete, error,
}
use network_arc_rajasurya.Parser.Framing.{head_end, head_end_bounds, skipped}
use network_arc_rajasurya.Parser.Stream.{
  Stream, receive, give_up, read_body, accept_head, read_head, skip_empty_lines, next_of,
  next_request,
}
use network_arc_rajasurya.Parser.Growth.{next_request-Grows}
use network_arc_rajasurya.Parser.{State, head, body, failed}

-- A bound on the calls that may still return a request.
abbrev pub measure : Stream → ℕ
measure s = length s.unread + elim s.state [ head ↦ 0 | body ↦ 1 | failed ↦ 0 ]

-- What each kind of result says of the stream that is left.
abbrev pub Leaves : Stream → Stream × ParseResult → Type 0
Leaves s (t, incomplete) = t.limits ≡ s.limits
Leaves s (t, complete r) = (t.limits ≡ s.limits) × (t.state ≡ head) × (length t.unread < measure s)
Leaves s (t, error e) = (t.limits ≡ s.limits) × (t.state ≡ failed) × (t.error ≡ e)

read_body-Leaves :
    (s : Stream) (t : Stream)
    → length t.unread < measure s
    → t.limits ≡ s.limits
    → Leaves s (read_body t)
unfolding read_body
read_body-Leaves s t h l = ground (arith, length-drop t.body_length t.unread)

accept_head-Leaves :
    (s t : Stream) (n : ℕ) (r : Parsed (Request × ℕ))
    → 1 ≤ n
    → n ≤ length t.unread
    → length t.unread ≤ measure s
    → t.limits ≡ s.limits
    → Leaves s (accept_head t n r)
unfolding accept_head give_up
accept_head-Leaves s t n (err e) one le m l = (l, refl, refl)
accept_head-Leaves s t n (ok (request, body_length)) one le m l =
    read_body-Leaves s _ (omega (arith, length-drop n t.unread)) l

read_head-Leaves :
    (s t : Stream) (e : Option ℕ)
    → head_end t.unread ≡ e
    → length t.unread ≤ measure s
    → t.limits ≡ s.limits
    → Leaves s (read_head t e)
unfolding read_head give_up
read_head-Leaves s t none e m l = ground arith
read_head-Leaves s t (some n) e m l =
    let (le, two) = head_end_bounds t.unread n e in
    either_branch (Leaves s) _ (give_up t 431 _) _ (l, refl, refl)
      (accept_head-Leaves s t n _ (omega arith) le m l)

next_of-Leaves : (st : State) (s : Stream) → s.state ≡ st → Leaves s (next_of st s)
unfolding next_of
next_of-Leaves failed s h = (refl, h, refl)
next_of-Leaves head s h =
    read_head-Leaves s (skip_empty_lines s) _ refl
      (omega (arith, length-drop (skipped s.unread) s.unread)) refl
next_of-Leaves body s h = read_body-Leaves s s (ground arith) refl

pub next_request-Leaves : (s : Stream) → Leaves s (next_request s)
next_request-Leaves s = next_of-Leaves s.state s refl

abbrev pub IsFinal : ParseResult → Type 0
IsFinal incomplete = Unit {0}
IsFinal (complete r) = ⊥
IsFinal (error e) = Unit {0}

-- From this stream the calls return these requests, then `last`, and leave `end`.
pub data Yields (end : Stream) (last : ParseResult) : Stream → List Request → Type 0 where
  ends : {s : Stream} → next_request s ≡ (end, last) → IsFinal last → Yields end last s []
  gives :
      {s t : Stream} {r : Request} {rs : List Request}
      → next_request s ≡ (t, complete r)
      → Yields end last t rs
      → Yields end last s (r ∷ rs)

Yields-cong :
    {end : Stream} {last : ParseResult} {s : Stream} {rs : List Request} (t : Stream)
    → next_request t ≡ next_request s
    → Yields end last s rs
    → Yields end last t rs
Yields-cong t e (ends h f) = ends (e ∙ h) f
Yields-cong t e (gives h y) = gives (e ∙ h) y

limit_kept :
    (s t : Stream) (r : Request)
    → next_request s ≡ (t, complete r)
    → 1 ≤ s.limits.max_header_bytes
    → 1 ≤ t.limits.max_header_bytes
limit_kept s t r h l = let kept = (rw h at (next_request-Leaves s)).0 in rw kept l

-- Reading on after a pause is reading with no pause.
pub Yields-resume :
    {t end : Stream} {last : ParseResult} {more : List Request} (w : Bytes) {s : Stream}
    {rs : List Request}
    → 1 ≤ s.limits.max_header_bytes
    → Yields t incomplete s rs
    → Yields end last (receive t w) more
    → Yields end last (receive s w) (rs ++ more)
Yields-resume w {s} l (ends h f) y =
    Yields-cong (receive s w) (rw h at (next_request-Grows s w l)) y
Yields-resume w {s} l (gives {t} h z) y =
    gives (rw h at (next_request-Grows s w l)) (Yields-resume w (limit_kept s t _ h l) z y)

-- An error stays, whatever arrives.
pub Yields-error :
    {end : Stream} {e : ParseError} (w : Bytes) {s : Stream} {rs : List Request}
    → 1 ≤ s.limits.max_header_bytes
    → Yields end (error e) s rs
    → Yields end (error e) (receive s w) rs
Yields-error w {s} l (ends h f) = ends (rw h at (next_request-Grows s w l)) f
Yields-error w {s} l (gives {t} h y) =
    gives (rw h at (next_request-Grows s w l)) (Yields-error w (limit_kept s t _ h l) y)

-- An error ends in the failed state, which keeps it.
pub Yields-failed :
    {end : Stream} {e : ParseError} {s : Stream} {rs : List Request}
    → Yields end (error e) s rs
    → (end.state ≡ failed) × (end.error ≡ e)
Yields-failed {s} (ends h f) = let (_, st, e) = rw h at (next_request-Leaves s) in (st, e)
Yields-failed (gives h y) = Yields-failed y

-- The calls have one outcome.
pub Yields-unique :
    {end end' : Stream} {last last' : ParseResult} {s : Stream} {rs rs' : List Request}
    → Yields end last s rs
    → Yields end' last' s rs'
    → (end ≡ end') × (last ≡ last') × (rs ≡ rs')
Yields-unique (ends h f) (ends k g) = let e = sym h ∙ k in (ap (λ r. r.0) e, ap (λ r. r.1) e, refl)
Yields-unique (ends h f) (gives k z) =
    absurd (subst IsFinal (ap (λ (r : Stream × ParseResult). r.1) (sym h ∙ k)) f)
Yields-unique (gives h y) (ends k g) =
    absurd (subst IsFinal (ap (λ (r : Stream × ParseResult). r.1) (sym k ∙ h)) g)
Yields-unique {end' = end'} {last' = last'} (gives {t} {r} h y)
      (gives {t = t'} {r = r'} {rs = rs'} k z) =
    let same = sym h ∙ k in
    let here : t' ≡ t = cc in
    let request : r ≡ r' = cc in
    let (a, b, c) = Yields-unique y (subst (λ x. Yields end' last' x rs') here z) in (a, b, cc)

pub Yields-limits :
    {end : Stream} {last : ParseResult} {s : Stream} {rs : List Request}
    → Yields end last s rs
    → end.limits ≡ s.limits
Yields-limits {last = incomplete} {s = s} (ends h f) = rw h at (next_request-Leaves s)
Yields-limits {last = complete r} (ends h f) = absurd f
Yields-limits {last = error e} {s = s} (ends h f) = (rw h at (next_request-Leaves s)).0
Yields-limits {s = s} (gives h y) = Yields-limits y ∙ (rw h at (next_request-Leaves s)).0

pub Yields-IsFinal :
    {end : Stream} {last : ParseResult} {s : Stream} {rs : List Request}
    → Yields end last s rs
    → IsFinal last
Yields-IsFinal (ends h f) = f
Yields-IsFinal (gives h y) = Yields-IsFinal y
