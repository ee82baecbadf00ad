-- ===== src/Main/Restart.antt =====
-- A run of the whole process, and the next one.
use mathlib.Core.Path.{subst}
use pendem.Base.{
  ℕ, ◌≡◌, refl, ap, ◌∙◌, Bool, true, false, Option, none, some, List, [], Bytes, All, Bool-cases,
  inl, inr, arith,
}
use pendem.Base.Int.{ℤ, pos, ltb_ℤ}
use pendem.Engine.SortedSet.{Floats}
use pendem.Engine.Cache.{Cache, new_cache}
use pendem.Config.{Config, PersistenceConfig}
use pendem.Persistence.Aof.{IsLoggable, log_all}
use pendem.Persistence.Aof.Cut.{Command}
use pendem.Persistence.Aof.Writer.{LogEvent, LogFile, run, start, stop, flush}
use pendem.Persistence.Rdb
use pendem.Persistence.Json
use pendem.Persistence.Json.{JsonData}
use pendem.Persistence.AutoSave
use pendem.Persistence.AutoSave.{AutoSave, new_auto_save}
use pendem.Persistence.Lifecycle
use pendem.Persistence.Lifecycle.{Manager, Aof, opened, shut, new_manager, on_part, made, begun}
use pendem.Persistence.Replay.History.{
  IsReplayed, execute_all, logged_commands, execute_all-Log, logged_commands-map,
}
use pendem.Persistence.Manager.{Files, load_data}
use pendem.Persistence.Manager.Recovery.{load_data-execute_all}
use pendem.Persistence.Manager.Interrupted.{commands_in, stop-commands_in}
use pendem.Main.{Process, boot, after_events, finish, left_log, opened_log}

abbrev pub no_files : Files
no_files = record { aof = none; rdb = none; json = none }

-- Periodic snapshots that were just started stop.
stop_started :
    (enabled : Bool) (interval : ℤ)
    → (a : Option AutoSave) × (on_part AutoSave.stop
          (begun enabled (AutoSave.start interval) (made enabled new_auto_save))
        ≡ some a)
unfolding AutoSave.stop AutoSave.start
stop_started false interval = (none, refl)
stop_started true interval = elim (Bool-cases (ltb_ℤ (pos 0) interval)) [
  | inl e ↦ (
    some (record {
      is_running = false;
      is_closed = true;
      is_stopping = false;
      loops = 0;
      saves = 0;
    }),
    ground arith,
  )
  | inr e ↦ (some new_auto_save, ground arith)
]

-- `Stop` over parts that stop.
stop-parts :
    (rdb json : Option AutoSave) (r j : Option AutoSave) (f : LogFile)
    → on_part AutoSave.stop rdb ≡ some r
    → on_part AutoSave.stop json ≡ some j
    → Lifecycle.stop (record { json = json; rdb = rdb; aof = some (opened f) })
      ≡ some (record { json = j; rdb = r; aof = some (shut (flush f)) })
unfolding Lifecycle.stop
stop-parts rdb json r j f stopped stopped' = rw (Lifecycle.stop, stopped, stopped') refl

module _ {F : Type 0} (fl : Floats F) (unmarshal : Bytes → Option JsonData) (now : ℕ) where
  -- The manager behind `Start` with the log on.
  abbrev pub started_manager : Config → Bytes → Manager
  started_manager cfg contents = record {
    json =
        begun cfg.persistence.json.enabled (AutoSave.start cfg.persistence.json.interval)
          (made cfg.persistence.json.enabled new_auto_save);
    rdb =
        begun cfg.persistence.rdb.enabled (AutoSave.start cfg.persistence.rdb.interval)
          (made cfg.persistence.rdb.enabled new_auto_save);
    aof = some (opened (start contents));
  }

  abbrev pub fresh : Config → Process F
  fresh cfg = record {
    handler = record { cache = new_cache cfg.engine; persistent = true; launched = [] };
    manager = started_manager cfg [];
  }

  start-started :
      (cfg : Config) (contents : Bytes)
      → cfg.persistence.aof.enabled ≡ true
      → ltb_ℤ (pos 0) cfg.persistence.aof.flush_interval ≡ true
      → Lifecycle.start cfg.persistence (some contents) (new_manager cfg.persistence)
        ≡ some (started_manager cfg contents)
  unfolding Lifecycle.start new_manager
  start-started cfg contents on ticks = rw (Lifecycle.start, on, ticks) refl

  start-panics :
      (cfg : Config) (contents : Bytes)
      → cfg.persistence.aof.enabled ≡ true
      → ltb_ℤ (pos 0) cfg.persistence.aof.flush_interval ≡ false
      → Lifecycle.start cfg.persistence (some contents) (new_manager cfg.persistence) ≡ none
  unfolding Lifecycle.start new_manager
  start-panics cfg contents on ticks = rw (Lifecycle.start, on, ticks) refl

  load_data-no_files :
      (cfg : PersistenceConfig) (c : Cache F)
      → load_data fl unmarshal now cfg no_files c ≡ (c, true)
  unfolding load_data Rdb.load Json.load
  load_data-no_files cfg c = ground arith

  pub boot-no_files :
      (cfg : Config)
      → cfg.persistence.aof.enabled ≡ true
      → ltb_ℤ (pos 0) cfg.persistence.aof.flush_interval ≡ true
      → boot fl unmarshal now cfg no_files ≡ some (fresh cfg)
  unfolding boot
  boot-no_files cfg on ticks =
      rw
        (
          boot,
          start-started cfg [] on ticks,
          load_data-no_files cfg.persistence (new_cache cfg.engine),
        )
        refl

  boot-panics :
      (cfg : Config)
      → cfg.persistence.aof.enabled ≡ true
      → ltb_ℤ (pos 0) cfg.persistence.aof.flush_interval ≡ false
      → boot fl unmarshal now cfg no_files ≡ none
  unfolding boot
  boot-panics cfg on ticks = rw (boot, start-panics cfg [] on ticks) refl

  finish-fresh :
      (cfg : Config) (es : List LogEvent)
      → (m : Manager) × (finish false (after_events es (fresh cfg).manager) ≡ some m)
        × (left_log m ≡ some (stop (run es (start []))))
  unfolding finish after_events left_log stop
  finish-fresh cfg es =
      let (r, rdb) = stop_started cfg.persistence.rdb.enabled cfg.persistence.rdb.interval in
      let (j, json) = stop_started cfg.persistence.json.enabled cfg.persistence.json.interval in
      (
        record { json = j; rdb = r; aof = some (shut (flush (run es (start [])))) },
        stop-parts _ _ r j (run es (start [])) rdb json,
        unfold flush in refl,
      )

  fresh-finish :
      (cfg : Config) (cs : List Command) (es : List LogEvent) (rdb json : Option Bytes)
      → cfg.persistence.aof.enabled ≡ true
      → ltb_ℤ (pos 0) cfg.persistence.aof.flush_interval ≡ true
      → All (IsReplayed fl) cs
      → All IsLoggable cs
      → commands_in es ≡ logged_commands (execute_all fl now cs (fresh cfg).handler).launched
      → (m : Manager) × (p' : Process F) × (finish false (after_events es (fresh cfg).manager)
          ≡ some m)
        × (boot fl unmarshal now cfg (record { aof = left_log m; rdb = rdb; json = json })
            ≡ some p')
        × (p'.handler.cache ≡ (execute_all fl now cs (fresh cfg).handler).cache)
  unfolding boot
  fresh-finish cfg cs es rdb json on ticks known loggable same =
      let h = (fresh cfg).handler in
      let (m, finished, left) = finish-fresh cfg es in
      let log = execute_all-Log fl now cs h known refl in
      let commands =
        same ∙ ap logged_commands log.launched ∙ logged_commands-map fl now log.commands in
      let found =
        left
        ∙ ap some (stop-commands_in es (rw commands (log.loggable loggable)) ∙ ap log_all same) in
      let loaded =
        load_data-execute_all fl unmarshal now cfg.persistence
          (record { aof = left_log m; rdb = rdb; json = json }) cs h on refl refl known loggable
          found in
      (
        m,
        record {
          handler = record {
            cache = (execute_all fl now cs h).cache;
            persistent = true;
            launched = [];
          };
          manager = started_manager cfg (opened_log (left_log m));
        },
        finished,
        rw (boot, start-started cfg (opened_log (left_log m)) on ticks, loaded) refl,
        refl,
      )

  -- The process starts with no files and the log on, without a panic, and runs commands of the kinds
  -- SET without an expiry in PX, DEL, HSET, HDEL, LPUSH, RPUSH, LPOP, RPOP, SADD, SREM, ZREM, MSET,
  -- MSETNX, ZADD with scores that are floats, PING, ECHO, POLICY, EXISTS, and the reading ones of
  -- hashes, lists, sets and sorted sets, whose strings are not empty and within the limits of the
  -- parser. They are logged in their order, while the buffer overflows and the ticker
  -- runs at any moments; then the process ends by itself, with no timeout. It ends without a panic,
  -- and started again at the same time on the log that it left, whatever snapshots there are, it
  -- starts without a panic too and has the cache that the commands left.
  pub boot-finish :
      (cfg : Config) (cs : List Command) (es : List LogEvent) (p : Process F)
      (rdb json : Option Bytes)
      → cfg.persistence.aof.enabled ≡ true
      → All (IsReplayed fl) cs
      → All IsLoggable cs
      → boot fl unmarshal now cfg no_files ≡ some p
      → commands_in es ≡ logged_commands (execute_all fl now cs p.handler).launched
      → (m : Manager) × (p' : Process F) × (finish false (after_events es p.manager) ≡ some m)
        × (boot fl unmarshal now cfg (record { aof = left_log m; rdb = rdb; json = json })
            ≡ some p')
        × (p'.handler.cache ≡ (execute_all fl now cs p.handler).cache)
  boot-finish cfg cs es p rdb json on known loggable booted same =
      elim (Bool-cases (ltb_ℤ (pos 0) cfg.persistence.aof.flush_interval)) [
        | inr late ↦ absurd (cc (boot-panics cfg on late))
        | inl ticks ↦
            subst
              (λ (q : Process F).
                commands_in es ≡ logged_commands (execute_all fl now cs q.handler).launched
                → (m : Manager) × (p' : Process F) × (finish false (after_events es q.manager)
                    ≡ some m)
                  × (boot fl unmarshal now cfg (record { aof = left_log m; rdb = rdb; json = json })
                      ≡ some p')
                  × (p'.handler.cache ≡ (execute_all fl now cs q.handler).cache))
              (cc (boot-no_files cfg on ticks))
              (fresh-finish cfg cs es rdb json on ticks known loggable) same
      ]
