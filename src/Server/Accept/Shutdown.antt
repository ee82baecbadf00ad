-- ===== src/Server/Accept/Shutdown.antt =====
-- After a shutdown the goroutines come to an end, whatever they do and in which order.
use pendem.Base.{
  ℕ, zero, suc, ◌+◌, ◌*◌, ◌≤◌, ◌<◌, Bool, Bool-cases, true, false, ◌≡◌, ◌⊎◌, inl, inr, refl, ap,
  arith,
}
use pendem.Base.Int.{ℤ}
use pendem.Server.Accept.{
  Loop, top, accepting, checked, admitted, stopped, Life, has_place, Step, see_quit, wait,
  accept_closed, accept_error, refuse_quit, accept, refuse_full, admit, launch, join, refuse, enter,
  leave_closed, leave_quit, read, fail_read, receive, interrupt, reply, finish, close_quit,
  close_listener, Steps, no_step, next, is_own, OwnSteps, own_none, own_next,
}

-- The steps that the loop may still take, with those of a connection that it may still start.
abbrev loop_left : Loop → ℕ
loop_left top = 1
loop_left accepting = 2
loop_left checked = 6
loop_left admitted = 5
loop_left stopped = 0

abbrev listener_left : Bool → ℕ
listener_left true = 0
listener_left false = 1

unfoldable pub steps_left : Life → ℕ
steps_left s =
    loop_left s.loop
    + listener_left s.closed
    + 3 * s.starting
    + 2 * s.joined
    + 2 * s.serving
    + 4 * s.reading
    + 3 * s.handling
    + s.leaving

module _ (max : ℤ) where
  Step-steps_left :
      (s t : Life) → s.quit ≡ true → Step max s t → (t.quit ≡ true) × (steps_left t < steps_left s)
  unfolding steps_left
  Step-steps_left _ _ on (see_quit s e q) = let l = ap loop_left e in (on, omega (arith, l))
  Step-steps_left _ _ on (wait s e q) = absurd (ground arith)
  Step-steps_left _ _ on (accept_closed s e c) = let l = ap loop_left e in (on, omega (arith, l))
  Step-steps_left _ _ on (accept_error s e c) = let l = ap loop_left e in (on, omega (arith, l))
  Step-steps_left _ _ on (refuse_quit s e q) = let l = ap loop_left e in (on, omega (arith, l))
  Step-steps_left _ _ on (accept s e q) = absurd (ground arith)
  Step-steps_left _ _ on (refuse_full s e q) = let l = ap loop_left e in (on, omega (arith, l))
  Step-steps_left _ _ on (admit s e h) = let l = ap loop_left e in (on, omega (arith, l))
  Step-steps_left _ _ on (launch s e) = let l = ap loop_left e in (on, omega (arith, l))
  Step-steps_left _ _ on (join s n e) = (on, omega (arith, e))
  Step-steps_left _ _ on (leave_closed s n e) = (on, omega (arith, e))
  Step-steps_left _ _ on (fail_read s n e) = (on, omega (arith, e))
  Step-steps_left _ _ on (receive s n e) = (on, omega (arith, e))
  Step-steps_left _ _ on (reply s n e) = (on, omega (arith, e))
  Step-steps_left _ _ on (refuse s n e q) = (on, omega (arith, e))
  Step-steps_left _ _ on (leave_quit s n e q) = (on, omega (arith, e))
  Step-steps_left _ _ on (interrupt s n e q) = (on, omega (arith, e))
  Step-steps_left _ _ on (enter s n e q) = absurd (ground arith)
  Step-steps_left _ _ on (read s n e q) = absurd (ground arith)
  Step-steps_left _ _ on (finish s n e) = (on, omega (arith, e))
  Step-steps_left _ _ on (close_quit s q) = absurd (ground arith)
  Step-steps_left _ _ on (close_listener s q c) =
      let l = ap listener_left c in (on, omega (arith, l))

  Steps-steps_left :
      (s t : Life) (n : ℕ)
      → s.quit ≡ true
      → Steps max s t n
      → (t.quit ≡ true) × (n + steps_left t ≤ steps_left s)
  Steps-steps_left _ _ _ on (no_step s) = (on, omega arith)
  Steps-steps_left _ _ _ on (next s t u n one more) =
      let (on', less) = Step-steps_left s t on one in
      let (on'', rest) = Steps-steps_left t u n on' more in (on'', omega (arith, less, rest))

  Step-closed : (s t : Life) → s.closed ≡ true → Step max s t → t.closed ≡ true
  Step-closed _ _ c (see_quit s e q) = c
  Step-closed _ _ c (wait s e q) = c
  Step-closed _ _ c (accept_closed s e q) = c
  Step-closed _ _ c (accept_error s e q) = c
  Step-closed _ _ c (refuse_quit s e q) = c
  Step-closed _ _ c (accept s e q) = c
  Step-closed _ _ c (refuse_full s e q) = c
  Step-closed _ _ c (admit s e h) = c
  Step-closed _ _ c (launch s e) = c
  Step-closed _ _ c (join s n e) = c
  Step-closed _ _ c (leave_closed s n e) = c
  Step-closed _ _ c (fail_read s n e) = c
  Step-closed _ _ c (receive s n e) = c
  Step-closed _ _ c (reply s n e) = c
  Step-closed _ _ c (refuse s n e q) = c
  Step-closed _ _ c (leave_quit s n e q) = c
  Step-closed _ _ c (interrupt s n e q) = c
  Step-closed _ _ c (enter s n e q) = c
  Step-closed _ _ c (read s n e q) = c
  Step-closed _ _ c (finish s n e) = c
  Step-closed _ _ c (close_quit s q) = c
  Step-closed _ _ c (close_listener s q o) = refl

  Steps-closed : (s t : Life) (n : ℕ) → s.closed ≡ true → Steps max s t n → t.closed ≡ true
  Steps-closed _ _ _ c (no_step s) = c
  Steps-closed _ _ _ c (next s t u n one more) = Steps-closed t u n (Step-closed s t c one) more

  -- A step of the server's own.
  abbrev Own : Life → Type 0
  Own s = (t : Life) × (step : Step max s t) × (is_own max step ≡ true)

  loop-Step :
      (l : Loop) (s : Life)
      → s.loop ≡ l
      → s.quit ≡ true
      → s.closed ≡ true
      → (s.loop ≡ stopped) ⊎ Own s
  unfolding is_own
  loop-Step top s e q c = inr (_, see_quit s e q, refl)
  loop-Step accepting s e q c = inr (_, accept_closed s e c, refl)
  loop-Step checked s e q c = elim (Bool-cases (has_place max s.active_conn)) [
    | inl room ↦ inr (_, admit s e room, refl)
    | inr full ↦ inr (_, refuse_full s e full, refl)
  ]
  loop-Step admitted s e q c = inr (_, launch s e, refl)
  loop-Step stopped s e q c = inl e

  -- No connection is left.
  abbrev pub IsEmpty : Life → Type 0
  IsEmpty s =
      (s.starting ≡ 0)
      × (s.joined ≡ 0)
      × (s.serving ≡ 0)
      × (s.reading ≡ 0)
      × (s.handling ≡ 0)
      × (s.leaving ≡ 0)

  connection-Step :
      (a b c d e f : ℕ) (s : Life)
      → s.quit ≡ true
      → s.starting ≡ a
      → s.joined ≡ b
      → s.serving ≡ c
      → s.reading ≡ d
      → s.handling ≡ e
      → s.leaving ≡ f
      → IsEmpty s ⊎ Own s
  unfolding is_own
  connection-Step (suc a) b c d e f s q ea eb ec ed ee ef = inr (_, join s a ea, refl)
  connection-Step zero (suc b) c d e f s q ea eb ec ed ee ef = inr (_, refuse s b eb q, refl)
  connection-Step zero zero (suc c) d e f s q ea eb ec ed ee ef = inr (_, leave_quit s c ec q, refl)
  connection-Step zero zero zero (suc d) e f s q ea eb ec ed ee ef =
      inr (_, interrupt s d ed q, refl)
  connection-Step zero zero zero zero (suc e) f s q ea eb ec ed ee ef = inr (_, reply s e ee, refl)
  connection-Step zero zero zero zero zero (suc f) s q ea eb ec ed ee ef =
      inr (_, finish s f ef, refl)
  connection-Step zero zero zero zero zero zero s q ea eb ec ed ee ef = inl (ea, eb, ec, ed, ee, ef)

  -- The loop has returned, and so has every connection.
  abbrev pub IsOver : Life → Type 0
  IsOver s = (s.loop ≡ stopped) × IsEmpty s

  any-Step : (s : Life) → s.quit ≡ true → s.closed ≡ true → IsOver s ⊎ Own s
  any-Step s q c = elim (loop-Step s.loop s refl q c) [
    | inr step ↦ inr step
    | inl over ↦
        elim (connection-Step s.starting s.joined s.serving s.reading s.handling s.leaving s q refl
          refl refl refl refl refl) [ inr step ↦ inr step | inl none_left ↦ inl (over, none_left) ]
  ]

  to_the_end :
      (fuel : ℕ) (s : Life)
      → s.quit ≡ true
      → s.closed ≡ true
      → steps_left s ≤ fuel
      → (u : Life) × (m : ℕ) × OwnSteps max s u m × IsOver u
  to_the_end zero s q c le = elim (any-Step s q c) [
    | inl over ↦ (s, 0, own_none s, over)
    | inr (t, one, own) ↦ absurd (omega (arith, (Step-steps_left s t q one).1))
  ]
  to_the_end (suc fuel) s q c le = elim (any-Step s q c) [
    | inl over ↦ (s, 0, own_none s, over)
    | inr (t, one, own) ↦
        let (q', less) = Step-steps_left s t q one in
        let (u, m, run, over) =
          to_the_end fuel t q' (Step-closed s t c one) (omega (arith, less)) in
        (u, suc m, own_next s t u m one own run, over)
  ]

  -- Once the channel and the listener are closed, at most `steps_left` steps are left, whatever the
  -- goroutines, the clients and the timers do and in which order; and from wherever these lead, steps
  -- of the server's own, which wait for no client and no timer, lead to where the loop and every
  -- connection have returned.
  pub Steps-shutdown :
      (s t : Life) (n : ℕ)
      → s.quit ≡ true
      → s.closed ≡ true
      → Steps max s t n
      → (n + steps_left t ≤ steps_left s) × ((u : Life) × (m : ℕ) × OwnSteps max t u m × IsOver u)
  Steps-shutdown s t n q c run =
      let (q', less) = Steps-steps_left s t n q run in
      (less, to_the_end (steps_left t) t q' (Steps-closed s t n c run) (omega arith))
