-- ===== src/Server/Idle.antt =====
-- The idle monitor of internal/server/connection.go: `MonitorIdle`, `Close`, `IsClosed` and
-- `UpdateActivity`. Times are Unix seconds.
pub mod Timeout
use pendem.Base.{ℕ, suc, ◌+◌, ◌/◌, ◌^◌, Bool, true, false, List, [], ◌∷◌, if◌then◌else◌}
use pendem.Base.Int.{ℤ, pos, negsuc, neg_ℕ, sub_ℕ, ltb_ℤ}

-- `lastActivity` and `closed`; `ends` is how often `done` and the socket were closed.
pub record Watched : Type 0 where
  pub last_activity : ℕ
  pub is_closed : Bool
  pub ends : ℕ

-- `int64(c.idleTimeout.Seconds())`, of nanoseconds.
unfoldable pub whole_seconds : ℤ → ℤ
whole_seconds (pos n) = pos (n / 10 ^ 9)
whole_seconds (negsuc n) = neg_ℕ (suc n / 10 ^ 9)

unfoldable pub close : Watched → Watched
close c = if c.is_closed then c else record c { is_closed = true; ends = c.ends + 1 }

unfoldable pub update_activity : ℕ → Watched → Watched
update_activity now c = record c { last_activity = now }

-- `elapsed > int64(c.idleTimeout.Seconds())`
unfoldable pub is_idle : ℤ → ℕ → ℕ → Bool
is_idle idle_timeout last now = ltb_ℤ (whole_seconds idle_timeout) (sub_ℕ now last)

-- A tick of the monitor, which returns where the connection is closed.
unfoldable pub monitor_tick : ℤ → ℕ → Watched → Watched
unfolding close is_idle
monitor_tick idle_timeout now c =
    if c.is_closed then c else if is_idle idle_timeout c.last_activity now then close c else c

-- The connection is served, its monitor ticks, or another goroutine closes it.
pub data Event : Type 0 where
  served ticked : ℕ → Event
  closed : Event

unfoldable pub on_event : ℤ → Event → Watched → Watched
unfolding monitor_tick close update_activity
on_event idle_timeout (served now) = update_activity now
on_event idle_timeout (ticked now) = monitor_tick idle_timeout now
on_event idle_timeout closed = close

unfoldable pub run : ℤ → List Event → Watched → Watched
unfolding on_event
run idle_timeout [] c = c
run idle_timeout (e ∷ es) c = run idle_timeout es (on_event idle_timeout e c)

-- `NewConnection` with the first `UpdateActivity`.
abbrev pub fresh : ℕ → Watched
fresh now = record { last_activity = now; is_closed = false; ends = 0 }
