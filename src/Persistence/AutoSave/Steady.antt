-- ===== src/Persistence/AutoSave/Steady.antt =====
-- The goroutines of the periodic snapshots of rdb.go and json.go.
use pendem.Base.{ℕ, zero, suc, ◌≤◌, ◌≡◌, refl, inl, inr, Bool-cases, true, false, some, arith}
use pendem.Base.Int.{ℤ}
use pendem.Persistence.AutoSave.{
  AutoSave, new_auto_save, start, begin_stop, stop, Step, ticked, saved, left, Runs, here, started,
  stopped, returned, stepped,
}

-- There is at most one loop; one is there where the snapshots run and were never stopped, and none
-- where they neither run nor are being stopped. Where a call of `Stop` waits, the channel is closed,
-- so that the loop may leave.
pub record IsSteady (a : AutoSave) : Type 0 where
  pub at_most_one : a.loops ≤ 1
  pub running_loop : a.is_running ≡ true → a.is_closed ≡ false → a.loops ≡ 1
  pub no_loop : a.is_running ≡ false → a.is_stopping ≡ false → a.loops ≡ 0
  pub may_leave : a.is_stopping ≡ true → a.is_closed ≡ true
  pub stopped_first : a.is_stopping ≡ true → a.is_running ≡ false

start-IsSteady :
    (interval : ℤ) (a : AutoSave) → a.is_stopping ≡ false → IsSteady a → IsSteady (start interval a)
unfolding start
start-IsSteady interval a e h =
    ground (arith, h.at_most_one, h.running_loop, h.no_loop, h.may_leave, h.stopped_first)

begin_stop-IsSteady :
    (a b : AutoSave) → begin_stop a ≡ some b → a.is_stopping ≡ false → IsSteady a → IsSteady b
unfolding begin_stop
begin_stop-IsSteady a b e q h =
    ground (arith, h.at_most_one, h.running_loop, h.no_loop, h.may_leave, h.stopped_first)

returned-IsSteady :
    (a : AutoSave)
    → a.is_stopping ≡ true
    → a.loops ≡ 0
    → IsSteady a
    → IsSteady (record a { is_stopping = false })
returned-IsSteady a q e h =
    ground (arith, h.at_most_one, h.running_loop, h.no_loop, h.may_leave, h.stopped_first)

Step-IsSteady : (a b : AutoSave) → Step a b → IsSteady a → IsSteady b
Step-IsSteady a b (ticked some_loop e) h =
    rw e (ground (arith, h.at_most_one, h.running_loop, h.no_loop, h.may_leave, h.stopped_first))
Step-IsSteady a b (saved n more e) h =
    rw e (ground (arith, h.at_most_one, h.running_loop, h.no_loop, h.may_leave, h.stopped_first))
Step-IsSteady a b (left n closed loop e) h =
    rw e (ground (arith, h.at_most_one, h.running_loop, h.no_loop, h.may_leave, h.stopped_first))

-- However one goroutine calls `Start` and `Stop` and the others take their turns, there is at most
-- one loop, just one where the snapshots run and were never stopped, and none where they do not run
-- and no call of `Stop` waits; and where one waits, the snapshots no longer run and the channel is
-- closed, through which the loop leaves.
pub Runs-IsSteady : (interval : ℤ) {a : AutoSave} → Runs interval new_auto_save a → IsSteady a
Runs-IsSteady interval here = ground arith
Runs-IsSteady interval (started {b = b} r q e) =
    rw e (start-IsSteady interval b q (Runs-IsSteady interval r))
Runs-IsSteady interval (stopped {b = b} {c = c} r q e) =
    begin_stop-IsSteady b c e q (Runs-IsSteady interval r)
Runs-IsSteady interval (returned {b = b} r q n e) =
    rw e (returned-IsSteady b q n (Runs-IsSteady interval r))
Runs-IsSteady interval (stepped {b = b} {c = c} r s) =
    Step-IsSteady b c s (Runs-IsSteady interval r)

-- The loops leave through a closed channel.
all_left :
    (n : ℕ) (interval : ℤ) {a b : AutoSave}
    → Runs interval a b
    → b.is_closed ≡ true
    → b.loops ≡ n
    → Runs interval a (record b { loops = 0 })
all_left zero interval {b = b} r closed e = rw (← e) r
all_left (suc n) interval {b = b} r closed e =
    all_left n interval (stepped r (left n closed e refl)) closed refl

-- The whole call of `Stop` is what its parts and the loops come to.
pub stop-Runs :
    (interval : ℤ) (a b : AutoSave) → a.is_stopping ≡ false → stop a ≡ some b → Runs interval a b
unfolding stop begin_stop
stop-Runs interval a b q e = elim (Bool-cases a.is_running) [
  | inr idle ↦ let same : b ≡ a = ground (arith, e, idle) in rw same here
  | inl on ↦ elim (Bool-cases a.is_closed) [
    | inl closed ↦ absurd (ground (arith, e, on, closed))
    | inr open_now ↦
        let begun : begin_stop a
            ≡ some (record a { is_running = false; is_closed = true; is_stopping = true }) =
          rw (begin_stop, on, open_now) refl in
        let same : b
            ≡ record a { is_running = false; is_closed = true; is_stopping = false; loops = 0 } =
          ground (arith, e, on, open_now) in
        rw same
          (returned (all_left a.loops interval (stopped here q begun) refl refl) refl refl refl)
  ]
]
