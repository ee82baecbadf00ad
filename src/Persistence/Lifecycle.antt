-- ===== src/Persistence/Lifecycle.antt =====
-- `Start`, `LogCommand`, `Save` and `Stop` of internal/persistence/manager.go over its three parts.
-- `none` is a panic of the runtime.
pub mod Saves
pub mod Faults
use pendem.Base.{
  ℕ, Bool, true, false, ◌&&◌, Option, none, some, List, [], ◌∷◌, Bytes, if◌then◌else◌,
}
use pendem.Engine.Cache.{Cache}
use pendem.Config.{PersistenceConfig, JsonConfig, RdbConfig}
use pendem.Persistence.Aof.Writer.{LogFile, append_command, flush}
use pendem.Persistence.Aof.Writer
use pendem.Base.Int.{ℤ, pos, ltb_ℤ}
use pendem.Persistence.AutoSave
use pendem.Persistence.AutoSave.{AutoSave, new_auto_save}
use pendem.Persistence.Rdb
use pendem.Persistence.Json.{JsonData, collect_data}
use pendem.Persistence.Disk.{Disk, save_effects, perform_all, rotate}

-- The struct AOF: as `NewAOF` makes it, where `file` and `writer` are nil; with its file open; and
-- behind `Stop`, with the file and `stopChan` closed.
pub data Aof : Type 0 where
  created : Aof
  opened : LogFile → Aof
  shut : LogFile → Aof

-- `AOF.Start` with the start of `flushLoop`, given the flush interval and the contents of the file, or
-- none where it cannot be opened. time.NewTicker panics on an interval that is not positive.
unfoldable pub start_aof : ℤ → Option Bytes → Aof → Option Aof
start_aof interval none a = some a
start_aof interval (some contents) a =
    if ltb_ℤ (pos 0) interval then some (opened (Writer.start contents)) else none

-- `AOF.LogCommand`. Behind `Stop` the writer still takes what fits into its buffer.
unfoldable pub log_aof : Bytes → List Bytes → Aof → Option Aof
log_aof cmd args created = none
log_aof cmd args (opened f) = some (opened (append_command cmd args f))
log_aof cmd args (shut f) = some (shut (append_command cmd args f))

-- `AOF.Flush`. What a closed file refuses stays in the buffer.
unfoldable pub flush_aof : Aof → Option Aof
flush_aof created = none
flush_aof (opened f) = some (opened (flush f))
flush_aof (shut f) = some (shut f)

-- `AOF.Stop`, which closes `stopChan`, flushes and closes the file.
unfoldable pub stop_aof : Aof → Option Aof
stop_aof created = none
stop_aof (opened f) = some (shut (flush f))
stop_aof (shut f) = none

pub record Manager : Type 0 where
  pub json : Option AutoSave
  pub rdb : Option AutoSave
  pub aof : Option Aof

-- A part that is there.
abbrev pub on_part : {A : Type 0} → (A → Option A) → Option A → Option (Option A)
on_part f none = some none
on_part f (some a) = elim (f a) [ none ↦ none | some a' ↦ some (some a') ]

abbrev pub made : {A : Type 0} → Bool → A → Option A
made enabled a = if enabled then some a else none

abbrev pub begun : {A : Type 0} → Bool → (A → A) → Option A → Option A
begun enabled f none = none
begun enabled f (some a) = some (if enabled then f a else a)

-- NewManager
unfoldable pub new_manager : PersistenceConfig → Manager
new_manager cfg = record {
  json = made cfg.json.enabled new_auto_save;
  rdb = made cfg.rdb.enabled new_auto_save;
  aof = made cfg.aof.enabled created;
}

-- `Start` behind loadData. That the log cannot be opened is only a warning.
unfoldable pub start : PersistenceConfig → Option Bytes → Manager → Option Manager
unfolding start_aof
start cfg log m =
    elim (if cfg.aof.enabled
      then on_part (start_aof cfg.aof.flush_interval log) m.aof
      else some m.aof) [
        | none ↦ none
        | some aof ↦ some (record {
          json = begun cfg.json.enabled (AutoSave.start cfg.json.interval) m.json;
          rdb = begun cfg.rdb.enabled (AutoSave.start cfg.rdb.interval) m.rdb;
          aof = aof;
        })
      ]

-- Manager.LogCommand
unfoldable pub log_command : Bytes → List Bytes → Manager → Option Manager
unfolding log_aof
log_command cmd args m = elim (on_part (log_aof cmd args) m.aof) [
  | none ↦ none
  | some aof ↦ some (record m { aof = aof })
]

-- `Stop`: the log, then the binary snapshots, then those in JSON.
unfoldable pub stop : Manager → Option Manager
unfolding stop_aof
stop m = elim (on_part stop_aof m.aof) [
  | none ↦ none
  | some aof ↦ elim (on_part AutoSave.stop m.rdb) [
    | none ↦ none
    | some rdb ↦ elim (on_part AutoSave.stop m.json) [
      | none ↦ none
      | some json ↦ some (record { json = json; rdb = rdb; aof = aof })
    ]
  ]
]

module _ {F : Type 0} (marshal : JsonData → Option Bytes) (now : ℕ) (c : Cache F) where
  -- `RDB.Save` where the file system refuses nothing.
  unfoldable pub save_rdb : RdbConfig → Disk → Disk
  save_rdb cfg = perform_all now (save_effects cfg.path (Rdb.save now c ∷ []))

  -- `JSONManager.Save` likewise; `marshal` is json.MarshalIndent, and none is its error.
  unfoldable pub save_json : JsonConfig → Disk → Disk
  save_json cfg d = elim (marshal (collect_data now c)) [
    | none ↦ d
    | some text ↦
        rotate cfg.path cfg.max_snapshots (perform_all now (save_effects cfg.path (text ∷ [])) d)
  ]

  abbrev saved : {A : Type 0} → Option A → (Disk → Disk) → Disk → Disk
  saved none save d = d
  saved (some part) save d = save d

  -- Manager.Save
  unfoldable pub save : PersistenceConfig → Manager → Disk → Option (Manager × Disk)
  unfolding flush_aof save_rdb save_json
  save cfg m d = elim (on_part flush_aof m.aof) [
    | none ↦ none
    | some aof ↦ some (
      record m { aof = aof },
      saved m.json (save_json cfg.json) (saved m.rdb (save_rdb cfg.rdb) d),
    )
  ]
