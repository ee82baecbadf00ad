-- ===== src/Main.antt =====
-- cmd/main.go: the start of the process, with its data and its log, and its end.
pub mod Restart
use pendem.Base.{ℕ, Bool, true, false, Option, none, some, List, [], ◌∷◌, Bytes, if◌then◌else◌}
use pendem.Engine.SortedSet.{Floats}
use pendem.Engine.Cache.{Cache, new_cache}
use pendem.Handler.{Handler}
use pendem.Config.{Config}
use pendem.Persistence.Aof.Writer.{LogEvent, run}
use pendem.Persistence.Json.{JsonData}
use pendem.Persistence.Manager.{Files, load_data}
use pendem.Persistence.Lifecycle
use pendem.Persistence.Lifecycle.{Manager, Aof, created, opened, shut, new_manager}

pub record Process (F : Type 0) : Type 0 where
  pub handler : Handler F
  pub manager : Manager

-- The log is opened with O_CREATE, so that it is empty where there was none.
abbrev pub opened_log : Option Bytes → Bytes
opened_log none = []
opened_log (some log) = log

-- The cache, the persistence manager with its `Start`, and the handlers, which all have the manager;
-- none is a panic on loading or of the ticker of the log. Every file can be opened.
unfoldable pub boot :
    {F : Type 0} → Floats F → (Bytes → Option JsonData) → ℕ → Config → Files → Option (Process F)
boot fl unmarshal now cfg files =
    let (cache, alive) = load_data fl unmarshal now cfg.persistence files (new_cache cfg.engine) in
    elim (Lifecycle.start cfg.persistence (some (opened_log files.aof))
      (new_manager cfg.persistence)) [
        | none ↦ none
        | some manager ↦
            if alive
            then some (record {
              handler = record { cache = cache; persistent = true; launched = [] };
              manager = manager;
            })
            else none
      ]

log_events : List LogEvent → Option Aof → Option Aof
log_events es (some (opened f)) = some (opened (run es f))
log_events es aof = aof

-- What happens to the log while the process runs.
unfoldable pub after_events : List LogEvent → Manager → Manager
unfolding log_events
after_events es m = record m { aof = log_events es m.aof }

-- The end of `main` behind `Shutdown`: where that timed out os.Exit(1) passes over the deferred
-- `Stop`.
unfoldable pub finish : Bool → Manager → Option Manager
finish timed_out m = if timed_out then some m else Lifecycle.stop m

-- The file of the log that the process leaves.
unfoldable pub left_log : Manager → Option Bytes
left_log m = elim m.aof [
  | none ↦ none
  | some aof ↦ elim aof [ created ↦ none | opened f ↦ some f.file | shut f ↦ some f.file ]
]
