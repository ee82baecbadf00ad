-- ===== src/DurabilityTests.antt =====
-- Runs of the theorems on the log, the files and the processes of a snapshot at concrete inputs.
use pendem.Base.Text.{cut_prefix}
use pendem.Persistence.Aof.Writer.{LogFile, flush}
use pendem.Persistence.AutoSave
use pendem.Persistence.AutoSave.{
  AutoSave, new_auto_save, Runs, here, started, stopped, stepped, Step, ticked, saved, left,
}
use pendem.Persistence.AutoSave.Steady.{IsSteady, Runs-IsSteady}
use pendem.Persistence.Json.{JsonData}
use pendem.Persistence.Lifecycle
use pendem.Persistence.Lifecycle.{Manager, new_manager, opened}
use pendem.Persistence.Lifecycle.Saves.{save-files}
use pendem.Base.{
  ◌▸◌, ℕ, ◌<◌, ◌≤◌, true, false, Option, some, List, [], ◌∷◌, ◌++◌, Bytes, All, append-nil, codes,
  lookup, length, take, ◌≡◌, ◌⊎◌, refl, arith,
}
use pendem.Base.Int.{pos}
use pendem.Resp.{ok, integer, from_list}
use pendem.Resp.Parse.{read, read_at, read_typed, read_integer, read_line}
use pendem.Base.Strconv.{parse_int}
use pendem.Resp.Streaming.{read-append}
use pendem.Persistence.Aof.{IsLoggable, command_value, load, log_all, values_of}
use pendem.Persistence.Aof.Cut.{Command}
use pendem.Persistence.Aof.Writer.{LogEvent, logged, overflow, tick, run, start, stop}
use pendem.Persistence.Aof.Crash.{IsLoggableEvent, ledger, load-run}
use pendem.Persistence.Aof.Torn.{load-torn}
use pendem.Engine.Cache
use pendem.Engine.Cache.{Cache, new_cache}
use pendem.Persistence.Rdb.{save}
use pendem.Persistence.Disk.{Disk, temp_file, is_version, save_effects, perform_all, rotate}
use pendem.Persistence.Disk.Atomic.{concat, file_of, save-atomic}
use pendem.Persistence.Disk.Rotation.{rotate-save_effects}
use pendem.Config.{default_config}

-- An integer, and a part of the next value.
read-append_example :
    read (codes ":7\r\n" ++ codes "$3\r") ≡ ok (integer (pos 7)) ([] ++ codes "$3\r")
read-append_example = read-append (codes ":7\r\n") (codes "$3\r") seven
  where
    seven : read (codes ":7\r\n") ≡ ok (integer (pos 7)) []
    seven = unfold read read_at read_typed read_integer read_line parse_int in refl

abbrev old_log : List Command
old_log = (codes "SET", codes "k" ∷ codes "v" ∷ []) ∷ []

old_log-IsLoggable : All IsLoggable old_log
unfolding command_value from_list
old_log-IsLoggable =
    (
      omega arith,
      omega arith,
      (omega arith, omega arith) ▸ (omega arith, omega arith) ▸ (omega arith, omega arith) ▸ tt,
    )
    ▸ tt

-- A command that is flushed, and one of which the buffer wrote seven bytes.
abbrev events : List LogEvent
events =
    logged (codes "DEL") (codes "k" ∷ [])
    ∷ tick
    ∷ logged (codes "DEL") (codes "j" ∷ [])
    ∷ overflow 7
    ∷ []

events-IsLoggable : All IsLoggableEvent events
unfolding command_value from_list
events-IsLoggable =
    (omega arith, omega arith, (omega arith, omega arith) ▸ (omega arith, omega arith) ▸ tt)
    ▸ tt
    ▸ (omega arith, omega arith, (omega arith, omega arith) ▸ (omega arith, omega arith) ▸ tt)
    ▸ tt
    ▸ tt

load-run_example :
    let l = ledger events (record { flushed = old_log; waiting = [] }) in
    let f = run events (start (log_all old_log)) in
    ((k : ℕ) × (load f.file ≡ (values_of (l.flushed ++ take k l.waiting), true)))
    × (load (stop f) ≡ (values_of (l.flushed ++ l.waiting), true))
load-run_example = load-run old_log events old_log-IsLoggable events-IsLoggable

load-torn_example :
    load (run events (start (log_all old_log ++ codes "*"))).file ≡ (values_of old_log, true)
load-torn_example = load-torn old_log events old_log-IsLoggable events-IsLoggable

abbrev cache : Cache ℕ
cache = Cache.set 1 (codes "k") (codes "v") (pos 0) (new_cache default_config.engine)

-- An old snapshot, a version of it and another file.
abbrev disk : Disk
disk =
    (codes "p.json", file_of 3 (codes "old"))
    ∷ (codes "p.json.1", file_of 5 (codes "older"))
    ∷ (codes "q", file_of 2 (codes "other"))
    ∷ []

save-whole : concat (save 7 cache ∷ []) ≡ save 7 cache
unfolding concat
save-whole = append-nil (save 7 cache)

-- A save that stops behind the creation of the temporary file.
save-atomic_example :
    let es = save_effects (codes "p.json") (save 7 cache ∷ []) in
    let d' = perform_all 7 (take 1 es) disk in
    (((1 < length es) × (lookup (codes "p.json") d' ≡ lookup (codes "p.json") disk))
      ⊎ ((length es ≤ 1) × (lookup (codes "p.json") d' ≡ some (file_of 7 (save 7 cache)))))
    × (lookup (codes "q") d' ≡ lookup (codes "q") disk)
save-atomic_example =
    save-atomic 7 (codes "p.json") (codes "q") cache (save 7 cache ∷ []) 1 disk save-whole
      (ground arith) (unfold temp_file in ground arith)

rotate-save_effects_example :
    lookup (codes "p.json") (
      rotate
        (codes "p.json")
        (pos 1)
        (perform_all 7 (save_effects (codes "p.json") (codes "{" ∷ codes "}" ∷ [])) disk))
    ≡ some (file_of 7 (codes "{}"))
unfolding concat
rotate-save_effects_example =
    rotate-save_effects 7 (codes "p.json") (pos 1) (codes "{" ∷ codes "}" ∷ []) disk (omega arith)

-- The snapshots are started, one is launched, and they are stopped while it is under way.
abbrev saving : AutoSave
saving = record { is_running = true; is_closed = false; is_stopping = false; loops = 1; saves = 1 }

abbrev over : AutoSave
over = record { is_running = false; is_closed = true; is_stopping = true; loops = 1; saves = 1 }

over-Runs : Runs (pos 60) new_auto_save over
unfolding AutoSave.start AutoSave.begin_stop
over-Runs =
    stopped {b = saving}
      (stepped {b = record saving { saves = 0 }} (started {b = new_auto_save} here refl refl)
        (ticked (omega arith) refl))
      refl refl

Runs-IsSteady_example : IsSteady over
Runs-IsSteady_example = Runs-IsSteady (pos 60) over-Runs

abbrev marshal : JsonData → Option Bytes
marshal d = some (codes "{}")

abbrev log_file : LogFile
log_file = record { file = codes "*"; buffer = codes "1" }

abbrev save_disk : Disk
save_disk = (codes "pendem.rdb", file_of 3 (codes "old")) ∷ []

save-files_example :
    (d' : Disk) × (Lifecycle.save marshal 7 cache default_config.persistence
        (record {
          json = some new_auto_save;
          rdb = some new_auto_save;
          aof = some (opened log_file);
        })
        save_disk
      ≡ some (
        record {
          json = some new_auto_save;
          rdb = some new_auto_save;
          aof = some (opened (flush log_file));
        },
        d',
      ))
    × (lookup (codes "pendem.rdb") d' ≡ some (file_of 7 (save 7 cache)))
    × (lookup (codes "pendem.snapshot.json") d' ≡ some (file_of 7 (codes "{}")))
save-files_example =
    save-files marshal 7 cache default_config.persistence new_auto_save new_auto_save log_file
      save_disk (codes "{}") refl (omega arith) (ground arith) (unfold temp_file in ground arith)
      (unfold is_version cut_prefix in refl)
