-- ===== src/Persistence/AutoSave.antt =====
-- `Start` and `Stop` of RDB (internal/persistence/rdb.go) and of JSONManager (json.go), which are the
-- same: a goroutine whose ticker launches saves until a channel is closed.
pub mod Steady
use pendem.Base.{ℕ, suc, ◌+◌, ◌<◌, Bool, true, false, not, Option, none, some, ◌≡◌, if◌then◌else◌}
use pendem.Base.Int.{ℤ, pos, ltb_ℤ}

-- `isRunning`, whether `stopChan` is closed, whether a call of `Stop` is in `wg.Wait`, the goroutines of
-- the loop, which `wg` counts, and the saves under way, which it does not.
pub record AutoSave : Type 0 where
  pub is_running : Bool
  pub is_closed : Bool
  pub is_stopping : Bool
  pub loops : ℕ
  pub saves : ℕ

abbrev pub new_auto_save : AutoSave
new_auto_save = record {
  is_running = false;
  is_closed = false;
  is_stopping = false;
  loops = 0;
  saves = 0;
}

unfoldable pub start : ℤ → AutoSave → AutoSave
start interval a =
    if a.is_running
    then a
    else if not (ltb_ℤ (pos 0) interval)
    then a
    else record a { is_running = true; loops = a.loops + 1 }

-- `Stop` up to `wg.Wait`: `none` is the panic of closing a closed channel.
unfoldable pub begin_stop : AutoSave → Option AutoSave
begin_stop a =
    if not a.is_running
    then some a
    else if a.is_closed
    then none
    else some (record a { is_running = false; is_closed = true; is_stopping = true })

-- The whole call where nothing else is called meanwhile, with what the loops do in it: they leave
-- through the closed channel. It waits for them, and not for the saves.
unfoldable pub stop : AutoSave → Option AutoSave
stop a =
    if not a.is_running
    then some a
    else if a.is_closed
    then none
    else some (record a { is_running = false; is_closed = true; is_stopping = false; loops = 0 })

-- What the goroutines do: the ticker launches a save, a save ends, and a loop leaves through the
-- closed channel.
pub data Step (a b : AutoSave) : Type 0 where
  ticked : 0 < a.loops → b ≡ record a { saves = suc a.saves } → Step a b
  saved : (n : ℕ) → a.saves ≡ suc n → b ≡ record a { saves = n } → Step a b
  left : (n : ℕ) → a.is_closed ≡ true → a.loops ≡ suc n → b ≡ record a { loops = n } → Step a b

-- The calls of `Start` and `Stop` by one goroutine, in any order, between the steps of the others: it
-- makes no call while it is in `wg.Wait`, which returns where no loop is left.
pub data Runs (interval : ℤ) (a : AutoSave) : AutoSave → Type 0 where
  here : Runs interval a a
  started :
      {b c : AutoSave}
      → Runs interval a b
      → b.is_stopping ≡ false
      → c ≡ start interval b
      → Runs interval a c
  stopped :
      {b c : AutoSave}
      → Runs interval a b
      → b.is_stopping ≡ false
      → begin_stop b ≡ some c
      → Runs interval a c
  returned :
      {b c : AutoSave}
      → Runs interval a b
      → b.is_stopping ≡ true
      → b.loops ≡ 0
      → c ≡ record b { is_stopping = false }
      → Runs interval a c
  stepped : {b c : AutoSave} → Runs interval a b → Step b c → Runs interval a c
