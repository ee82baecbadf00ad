-- ===== src/Server/Idle/Timeout.antt =====
-- When the monitor of connection.go closes a connection.
use pendem.Base.{
  ℕ, suc, ◌+◌, ◌/◌, ◌<◌, ◌≡◌, ◌↔◌, inl, inr, refl, ap, ◌∙◌, true, false, List, [], ◌∷◌, ◌++◌,
  Bool-cases, if◌then◌else◌, arith,
}
use pendem.Base.Int.{ℤ, pos, negsuc}
use pendem.Server.Idle.{
  Watched, close, update_activity, is_idle, whole_seconds, monitor_tick, Event, served, ticked,
  closed, on_event, run, fresh,
}

-- The last time in the events at which the connection was served.
unfoldable pub latest : ℕ → List Event → ℕ
latest last [] = last
latest last (served now ∷ es) = latest now es
latest last (ticked now ∷ es) = latest last es
latest last (closed ∷ es) = latest last es

-- `now` is more than the timeout, in whole seconds, behind `last`.
abbrev pub IsLate : ℤ → ℕ → ℕ → Type 0
IsLate (pos nanoseconds) last now = last + nanoseconds / 1000000000 < now
IsLate (negsuc n) last now = last < now + suc n / 1000000000

is_idle-IsLate :
    (idle_timeout : ℤ) (last now : ℕ)
    → (is_idle idle_timeout last now ≡ true) ↔ IsLate idle_timeout last now
unfolding is_idle whole_seconds
is_idle-IsLate (pos n) last now = (λ h. ground (arith, h), λ h. ground (arith, h))
is_idle-IsLate (negsuc n) last now = (λ h. ground (arith, h), λ h. ground (arith, h))

-- The moments that close a connection: a tick that finds it idle, and a close by another goroutine.
pub data Ends (idle_timeout : ℤ) (last : ℕ) (es : List Event) : Type 0 where
  idle :
      (before after : List Event) (now : ℕ)
      → es ≡ before ++ ticked now ∷ after
      → IsLate idle_timeout (latest last before) now
      → Ends idle_timeout last es
  by_another :
      (before after : List Event) → es ≡ before ++ closed ∷ after → Ends idle_timeout last es

module _ (idle_timeout : ℤ) where
  -- A closed connection stays closed.
  run_closed :
      (es : List Event) (c : Watched)
      → c.is_closed ≡ true
      → (run idle_timeout es c).is_closed ≡ true
  unfolding run on_event
  run_closed [] c h = h
  run_closed (served now ∷ es) c h =
      run_closed es (update_activity now c) (unfold update_activity in h)
  run_closed (ticked now ∷ es) c h =
      run_closed es (monitor_tick idle_timeout now c) (unfold monitor_tick in ground arith)
  run_closed (closed ∷ es) c h = run_closed es (close c) (unfold close in ground arith)

  later-Ends :
      (e : Event) (last last' : ℕ) (es : List Event)
      → ((before : List Event) → latest last (e ∷ before) ≡ latest last' before)
      → Ends idle_timeout last' es
      → Ends idle_timeout last (e ∷ es)
  later-Ends e last last' es same (idle before after now split late) =
      idle (e ∷ before) after now (ap (λ t. e ∷ t) split) (rw (same before) late)
  later-Ends e last last' es same (by_another before after split) =
      by_another (e ∷ before) after (ap (λ t. e ∷ t) split)

  tick_punctual :
      (now : ℕ) (c : Watched)
      → is_idle idle_timeout c.last_activity now ≡ false
      → monitor_tick idle_timeout now c ≡ c
  unfolding monitor_tick
  tick_punctual now c h = elim (Bool-cases c.is_closed) [
    | inl e ↦ rw (e, monitor_tick) refl
    | inr e ↦ rw (e, monitor_tick) (rw h refl)
  ]

  closed-Ends :
      (es : List Event) (c : Watched)
      → c.is_closed ≡ false
      → (run idle_timeout es c).is_closed ≡ true
      → Ends idle_timeout c.last_activity es
  unfolding run on_event latest
  closed-Ends [] c open_now h = cc
  closed-Ends (served now ∷ es) c open_now h =
      later-Ends (served now) c.last_activity now es (λ before. refl)
        (closed-Ends es (update_activity now c) (unfold update_activity in open_now) h)
  closed-Ends (ticked now ∷ es) c open_now h =
      elim (Bool-cases (is_idle idle_timeout c.last_activity now)) [
        | inl late ↦ idle [] es now refl ((is_idle-IsLate idle_timeout c.last_activity now).0 late)
        | inr in_time ↦
            later-Ends (ticked now) c.last_activity c.last_activity es (λ before. refl)
              (closed-Ends es c open_now (rw (run, tick_punctual now c in_time) at h))
      ]
  closed-Ends (closed ∷ es) c open_now h = by_another [] es refl

  run-append :
      (es fs : List Event) (c : Watched)
      → run idle_timeout (es ++ fs) c ≡ run idle_timeout fs (run idle_timeout es c)
  unfolding run
  run-append [] fs c = refl
  run-append (e ∷ es) fs c = run-append es fs (on_event idle_timeout e c)

  run-latest :
      (es : List Event) (c : Watched)
      → (run idle_timeout es c).last_activity ≡ latest c.last_activity es
  unfolding run on_event latest monitor_tick close update_activity
  run-latest [] c = refl
  run-latest (served now ∷ es) c = run-latest es (update_activity now c)
  run-latest (ticked now ∷ es) c =
      run-latest es (monitor_tick idle_timeout now c) ∙ ap (λ t. latest t es) (ground arith)
  run-latest (closed ∷ es) c = run-latest es (close c) ∙ ap (λ t. latest t es) (ground arith)

  Ends-closed :
      (es : List Event) (c : Watched)
      → Ends idle_timeout c.last_activity es
      → (run idle_timeout es c).is_closed ≡ true
  Ends-closed es c (idle before after now split late) =
      let c' = run idle_timeout before c in
      rw (split, run-append before (ticked now ∷ after) c)
        (unfold run on_event in
          run_closed after (monitor_tick idle_timeout now c') (
            unfold monitor_tick close in
            ground (
              arith,
              run-latest before c,
              is_idle-IsLate idle_timeout (latest c.last_activity before) now,
              late,
            )))
  Ends-closed es c (by_another before after split) =
      let c' = run idle_timeout before c in
      rw (split, run-append before (closed ∷ after) c)
        (unfold run on_event in run_closed after (close c') (unfold close in ground arith))

  -- `done` and the socket are closed once, where the connection is closed.
  run-ends :
      (es : List Event) (c : Watched)
      → c.ends ≡ (if c.is_closed then 1 else 0)
      → (run idle_timeout es c).ends ≡ (if (run idle_timeout es c).is_closed then 1 else 0)
  unfolding run on_event monitor_tick close update_activity
  run-ends [] c h = h
  run-ends (served now ∷ es) c h = run-ends es (update_activity now c) h
  run-ends (ticked now ∷ es) c h = run-ends es (monitor_tick idle_timeout now c) (ground arith)
  run-ends (closed ∷ es) c h = run-ends es (close c) (ground arith)

  -- A new connection is closed behind some events just where another goroutine closed it, or a tick
  -- of the monitor came later than the timeout, in whole seconds, behind the last time before it at
  -- which the connection was served; and what a close ends is ended once.
  pub run-closed_iff :
      (start : ℕ) (es : List Event)
      → let c = run idle_timeout es (fresh start) in
        ((c.is_closed ≡ true) ↔ Ends idle_timeout start es)
        × (c.ends ≡ (if c.is_closed then 1 else 0))
  run-closed_iff start es = (
    (closed-Ends es (fresh start) refl, Ends-closed es (fresh start)),
    run-ends es (fresh start) refl,
  )
