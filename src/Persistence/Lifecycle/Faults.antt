-- ===== src/Persistence/Lifecycle/Faults.antt =====
-- internal/persistence/manager.go where the log cannot be opened.
use pendem.Base.{some, refl, ◌≡◌, true, none, List, Bytes}
use pendem.Config.{PersistenceConfig}
use pendem.Persistence.AutoSave
use pendem.Persistence.AutoSave.{new_auto_save}
use pendem.Persistence.Lifecycle.{
  Manager, created, begun, made, new_manager, start, log_command, stop,
}

abbrev unopened : PersistenceConfig → Manager
unopened cfg = record {
  json =
      begun cfg.json.enabled (AutoSave.start cfg.json.interval)
        (made cfg.json.enabled new_auto_save);
  rdb =
      begun cfg.rdb.enabled (AutoSave.start cfg.rdb.interval) (made cfg.rdb.enabled new_auto_save);
  aof = some created;
}

-- Where the log is on and its file cannot be opened, `Start` goes on, and then the first command that
-- is logged panics, and so does `Stop`.
pub log_command-refused :
    (cfg : PersistenceConfig) (cmd : Bytes) (args : List Bytes)
    → cfg.aof.enabled ≡ true
    → (start cfg none (new_manager cfg) ≡ some (unopened cfg))
      × (log_command cmd args (unopened cfg) ≡ none)
      × (stop (unopened cfg) ≡ none)
unfolding start new_manager log_command stop
log_command-refused cfg cmd args on = (rw (start, on) refl, refl, refl)
