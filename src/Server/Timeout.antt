-- ===== src/Server/Timeout.antt =====
-- src/server.cpp: `poll_timeout_ms` waits as long as it may, and no longer.
use network_arc_rajasurya.Prelude.{
  ℕ, ◌+◌, ◌-◌, ◌≤◌, ◌<◌, ◌≡◌, ◌⊎◌, inl, inr, refl, List, [], ◌∷◌, Option, none, some, ltb, min,
  arith, either_case, ap, sym, ◌∙◌, ltb,
}
use network_arc_rajasurya.Config.{milliseconds}
use network_arc_rajasurya.Connection.State.{Connection}
use network_arc_rajasurya.Connection.{deadline}
use network_arc_rajasurya.Server.{
  Server, max_poll_wait, earliest, earlier, wake_time, poll_timeout_ms,
}

-- Some connection has this deadline.
pub data HasDeadline (t : ℕ) : List Connection → Type 0 where
  this : {c : Connection} {cs : List Connection} → deadline c ≡ some t → HasDeadline t (c ∷ cs)
  other : {c : Connection} {cs : List Connection} → HasDeadline t cs → HasDeadline t (c ∷ cs)

-- What the server may wait for: a second, a deadline, or the end of the pause.
pub data WaitsFor (s : Server) (now : ℕ) (t : ℕ) : Type 0 where
  for_poll : t ≡ now + max_poll_wait → WaitsFor s now t
  for_deadline : HasDeadline t s.connections → WaitsFor s now t
  for_pause : t ≡ s.accept_paused_until → now < s.accept_paused_until → WaitsFor s now t

earlier-le : (wake : ℕ) (d : Option ℕ) → earlier wake d ≤ wake
earlier-le wake none = omega arith
earlier-le wake (some t) = omega arith

earliest-le-wake : (cs : List Connection) (wake : ℕ) → earliest cs wake ≤ wake
unfolding earliest
earliest-le-wake [] wake = omega arith
earliest-le-wake (c ∷ cs) wake =
    omega (arith, earliest-le-wake cs (earlier wake (deadline c)), earlier-le wake (deadline c))

earliest-le : {t : ℕ} (cs : List Connection) (wake : ℕ) → HasDeadline t cs → earliest cs wake ≤ t
unfolding earliest
earliest-le [] wake h = elim h [ ]
earliest-le {t} (c ∷ cs) wake (this e) =
    let le : earlier wake (deadline c) ≤ t = rw e (omega arith) in
    omega (arith, earliest-le-wake cs (earlier wake (deadline c)), le)
earliest-le (c ∷ cs) wake (other h) = earliest-le cs (earlier wake (deadline c)) h

earlier-cases : (wake : ℕ) (d : Option ℕ) → (earlier wake d ≡ wake) ⊎ (d ≡ some (earlier wake d))
earlier-cases wake none = inl refl
earlier-cases wake (some t) = ground arith

-- The earliest is one of them.
earliest-cases :
    (cs : List Connection) (wake : ℕ)
    → (earliest cs wake ≡ wake) ⊎ HasDeadline (earliest cs wake) cs
unfolding earliest
earliest-cases [] wake = inl refl
earliest-cases (c ∷ cs) wake = elim (earliest-cases cs (earlier wake (deadline c))) [
  | inl e ↦ elim (earlier-cases wake (deadline c)) [
    | inl same ↦ inl (e ∙ same)
    | inr here ↦ inr (this (here ∙ ap some (sym e)))
  ]
  | inr h ↦ inr (other h)
]

wake_time-le : (s : Server) (now : ℕ) {t : ℕ} → WaitsFor s now t → wake_time s now ≤ t
unfolding wake_time
wake_time-le s now (for_poll e) =
    ground (arith, earliest-le-wake s.connections (now + max_poll_wait))
wake_time-le s now (for_deadline h) =
    ground (arith, earliest-le s.connections (now + max_poll_wait) h)
wake_time-le s now (for_pause e h) = ground arith

unpaused-WaitsFor :
    (s : Server) (now : ℕ) → WaitsFor s now (earliest s.connections (now + max_poll_wait))
unpaused-WaitsFor s now = elim (earliest-cases s.connections (now + max_poll_wait)) [
  | inl e ↦ for_poll e
  | inr h ↦ for_deadline h
]

min-WaitsFor :
    (s : Server) (now a b : ℕ) → WaitsFor s now a → WaitsFor s now b → WaitsFor s now (min a b)
min-WaitsFor s now a b h k = elim (either a b) [ inl e ↦ rw e h | inr e ↦ rw e k ]
  where
    either : (a b : ℕ) → (min a b ≡ a) ⊎ (min a b ≡ b)
    either a b = ground arith

pub wake_time-WaitsFor : (s : Server) (now : ℕ) → WaitsFor s now (wake_time s now)
unfolding wake_time
wake_time-WaitsFor s now =
    either_case (WaitsFor s now) (ltb now s.accept_paused_until) _ _
      (λ paused. min-WaitsFor s now _ _ (unpaused-WaitsFor s now) (for_pause refl (ground arith)))
      (λ _. unpaused-WaitsFor s now)

-- A timeout of `t` milliseconds is at most a second; it ends less than a millisecond behind anything
-- that is waited for; and it does not end before all of it.
pub record IsTimely (s : Server) (now t : ℕ) : Type 0 where
  pub at_most : t ≤ 1000
  pub in_time : (w : ℕ) → WaitsFor s now w → milliseconds t < (w - now) + milliseconds 1
  pub not_early : (w : ℕ) × WaitsFor s now w × (w ≤ now + milliseconds t)

-- `poll_timeout_ms` is at most a second, ends less than a millisecond behind each deadline, the end of
-- a pause and the longest wait, and not before the first of them.
pub poll_timeout_ms-IsTimely : (s : Server) (now : ℕ) → IsTimely s now (poll_timeout_ms s now)
unfolding poll_timeout_ms
poll_timeout_ms-IsTimely s now =
    let le = wake_time-le s now (for_poll refl) in
    record {
      at_most = ground (arith, le);
      in_time = λ w h. ground (arith, wake_time-le s now h);
      not_early = (wake_time s now, wake_time-WaitsFor s now, ground arith);
    }
