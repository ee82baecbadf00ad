-- ===== src/PersistenceTests.antt =====
-- Runs of the theorems on the log and the snapshots at concrete inputs.
use pendem.Config.{Config}
use pendem.Persistence.Lifecycle.{Manager}
use pendem.Main.{Process, boot, finish, after_events, left_log}
use pendem.Main.Restart.{fresh, boot-no_files, boot-finish}
use pendem.Persistence.Json.Info.{format_size, format_size-unit}
use pendem.Base.{◌/◌, get_elem?, take, ◌++◌, ap}
use pendem.Persistence.Aof.Cut.{Command}
use pendem.Persistence.Aof.Writer.{LogEvent, logged, overflow, tick, run, start}
use pendem.Persistence.Aof.Crash.{ledger}
use pendem.Persistence.Manager.Interrupted.{commands_in, no_commands, load_data-run}
use pendem.Base.{
  ◌▸◌, ltb, ℕ, ◌+◌, ◌^◌, ◌<◌, ◌≤◌, true, false, Option, none, some, List, [], ◌∷◌, Bytes, Map,
  IsMap, insert, All, codes, equal, lookup, length, map, ◌≡◌, refl, arith,
}
use pendem.Base.Int.{ℤ, pos, negsuc, pos_part}
use pendem.Base.Strconv.{parse_uint, format_uint}
use pendem.Resp.{from_list}
use pendem.Engine.Item.{Item, new_item}
use pendem.Engine.Lru
use pendem.Engine.Lru.{Lru}
use pendem.Engine.Shard
use pendem.Engine.Shard.{Shard, EngineConfig, restore_loop}
use pendem.Engine.Shard.Fill.{HasRoomFor, first_found, find-restore_loop}
use pendem.Engine.Shard.Live.{live}
use pendem.Engine.SortedSet.{Floats}
use pendem.Engine.Cache
use pendem.Engine.Cache.{Cache, new_cache}
use pendem.Engine.Cache.Routing.{view, new_cache-IsWhole, set-IsWhole}
use pendem.Handler.{Handler}
use pendem.Persistence.Aof.{IsLoggable, command_value, log_all}
use pendem.Config.{default_config}
use pendem.Persistence.Manager.{Files, load_data}
use pendem.Persistence.Replay.Scores.{is_scored}
use pendem.Persistence.Replay.Faithful.{is_replayed, lasting}
use pendem.Persistence.Replay.History.{IsReplayed, execute_all, logged_commands}
use pendem.Persistence.Rdb.{save, load as load_snapshot, done}
use pendem.Persistence.Rdb.Reading.{survives}
use pendem.Persistence.Rdb.Shards.{IsStorableShard, read_back}
use pendem.Persistence.Json.{JsonData, collect_data, restore_data, restored}
use pendem.Persistence.Json.RoundTrip.{restore_data-collect_data}
use pendem.Persistence.Refill.{HasRoomForAll}
use pendem.Persistence.Rdb.RoundTrip.{load-save}

-- Numbers in place of floats.
abbrev floats : Floats ℕ
floats = record { parse_float = parse_uint; format_float = format_uint; less = ltb }

abbrev small_config : EngineConfig
small_config = record {
  max_memory = pos 1000;
  eviction_policy = codes "lru";
  evictor_capacity = pos 4;
  shard_count = pos 1;
  default_ttl = pos 0;
}

abbrev empty_cache : Cache ℕ
empty_cache = new_cache small_config

abbrev commands : List (Bytes × List Bytes)
commands =
    (codes "SET", codes "k" ∷ codes "v" ∷ [])
    ∷ (codes "LPUSH", codes "l" ∷ codes "a" ∷ [])
    ∷ (codes "LLEN", codes "l" ∷ [])
    ∷ (codes "ZADD", codes "z" ∷ codes "2" ∷ codes "m" ∷ [])
    ∷ (codes "DEL", codes "k" ∷ [])
    ∷ []

commands-IsReplayed : All (IsReplayed floats) commands
unfolding is_replayed lasting equal pendem.Server.mem_name is_scored
    pendem.Persistence.Replay.Scores.scores_read pendem.Handler.pairs_of parse_uint
commands-IsReplayed = refl ▸ refl ▸ refl ▸ refl ▸ refl ▸ tt

commands-IsLoggable : All IsLoggable commands
unfolding command_value from_list
commands-IsLoggable =
    (
      omega arith,
      omega arith,
      (omega arith, omega arith) ▸ (omega arith, omega arith) ▸ (omega arith, omega arith) ▸ tt,
    )
    ▸ (
      omega arith,
      omega arith,
      (omega arith, omega arith) ▸ (omega arith, omega arith) ▸ (omega arith, omega arith) ▸ tt,
    )
    ▸ (omega arith, omega arith, (omega arith, omega arith) ▸ (omega arith, omega arith) ▸ tt)
    ▸ (
      omega arith,
      omega arith,
      (omega arith, omega arith)
          ▸ (omega arith, omega arith)
          ▸ (omega arith, omega arith)
          ▸ (omega arith, omega arith)
          ▸ tt,
    )
    ▸ (omega arith, omega arith, (omega arith, omega arith) ▸ (omega arith, omega arith) ▸ tt)
    ▸ tt

abbrev handler : Handler ℕ
handler = record { cache = empty_cache; persistent = true; launched = [] }

-- The log of the commands, beside a snapshot that cannot be read.
abbrev files : Files
files = record {
  aof = some (log_all (logged_commands (execute_all floats 7 commands handler).launched));
  rdb = some (codes "x");
  json = none;
}

-- The commands are logged, with a tick behind each, and nine bytes of the rest overflow.
abbrev log_events : List Command → List LogEvent
log_events [] = overflow 9 ∷ []
log_events ((cmd, args) ∷ cs) = tick ∷ logged cmd args ∷ log_events cs

commands_in-log_events : (cs : List Command) → commands_in (log_events cs) ≡ cs
unfolding commands_in
commands_in-log_events [] = refl
commands_in-log_events ((cmd, args) ∷ cs) = ap (λ ds. (cmd, args) ∷ ds) (commands_in-log_events cs)

abbrev crash_events : List LogEvent
crash_events = log_events (logged_commands (execute_all floats 7 commands handler).launched)

abbrev crash_files : Files
crash_files = record files { aof = some (run crash_events (start [])).file }

load_data-run_example :
    (n : ℕ) × (k : ℕ) × (logged_commands (execute_all floats 7 (take n commands) handler).launched
      ≡ (ledger crash_events no_commands).flushed
        ++ take k (ledger crash_events no_commands).waiting)
    × (load_data floats (λ text. none) 7 default_config.persistence crash_files empty_cache
        ≡ ((execute_all floats 7 (take n commands) handler).cache, true))
load_data-run_example =
    load_data-run floats (λ text. none) 7 default_config.persistence crash_files commands handler
      crash_events refl refl refl commands-IsReplayed commands-IsLoggable
      (commands_in-log_events (logged_commands (execute_all floats 7 commands handler).launched))
      refl

abbrev no_json : Bytes → Option JsonData
no_json text = none

abbrev small_process : Config
small_process = record default_config { engine = small_config }

abbrev first_run : Process ℕ
first_run = fresh floats no_json 7 small_process

abbrev run_events : List LogEvent
run_events = log_events (logged_commands (execute_all floats 7 commands first_run.handler).launched)

boot-finish_example :
    (m : Manager) × (p' : Process ℕ) × (finish false (after_events run_events first_run.manager)
      ≡ some m)
    × (boot floats no_json 7 small_process
          (record { aof = left_log m; rdb = some (codes "x"); json = none })
        ≡ some p')
    × (p'.handler.cache ≡ (execute_all floats 7 commands first_run.handler).cache)
boot-finish_example =
    boot-finish floats no_json 7 small_process commands run_events first_run (some (codes "x")) none
      refl commands-IsReplayed commands-IsLoggable
      (boot-no_files floats no_json 7 small_process refl (ground arith))
      (commands_in-log_events
        (logged_commands (execute_all floats 7 commands first_run.handler).launched))

-- A key that is saved at the time 5 and loaded at the time 9.
abbrev used_cache : Cache ℕ
used_cache = Cache.set 1 (codes "k") (codes "v") (pos 0) empty_cache

used_cache-IsStorableShard : All (IsStorableShard 5) used_cache.shards
unfolding Shard.get_items Lru.get_items Lru.live_entries pendem.Engine.Item.is_expired new_item
    pendem.Base.Int.wrap64 pendem.Base.Int.◌+ℤ◌ Cache.set Cache.on_shard Cache.get_shard
    Cache.shard_index Cache.fnv32a Cache.fnv32a_loop new_cache Shard.new_shard Shard.set Lru.add
    Lru.push_element Lru.make_memory Lru.evict_loop Lru.calculate_size Lru.element_of
    Lru.new_lru_with_memory Lru.find_element lookup insert equal pendem.Engine.Shard.Fill.total_size
used_cache-IsStorableShard = ((omega arith, ((omega arith, omega arith, omega arith), tt)), tt)

room_for_used_cache : HasRoomForAll (read_back 5 9) used_cache.shards empty_cache.shards
unfolding Shard.get_items Lru.get_items Lru.live_entries pendem.Engine.Item.is_expired new_item
    pendem.Base.Int.wrap64 pendem.Base.Int.◌+ℤ◌ Cache.set Cache.on_shard Cache.get_shard
    Cache.shard_index Cache.fnv32a Cache.fnv32a_loop new_cache Shard.new_shard Shard.set Lru.add
    Lru.push_element Lru.make_memory Lru.evict_loop Lru.calculate_size Lru.element_of
    Lru.new_lru_with_memory Lru.find_element lookup insert equal pendem.Engine.Shard.Fill.total_size
    pendem.Persistence.Rdb.Reading.kept pendem.Persistence.Rdb.keep_item
room_for_used_cache = (record { memory = λ h. omega arith; places = λ h. omega arith }, tt)

one_shard : used_cache.num_shards ≡ empty_cache.num_shards
unfolding Cache.set Cache.on_shard Cache.get_shard Cache.shard_index Cache.fnv32a Cache.fnv32a_loop
    new_cache Shard.new_shard Shard.set Lru.add Lru.push_element Lru.make_memory Lru.evict_loop
    Lru.calculate_size Lru.element_of Lru.new_lru_with_memory Lru.find_element lookup insert equal
    pendem.Engine.Shard.Fill.total_size
one_shard = refl

one_shard_fits : used_cache.num_shards < 2 ^ 16
unfolding Cache.set Cache.on_shard Cache.get_shard Cache.shard_index Cache.fnv32a Cache.fnv32a_loop
    new_cache Shard.new_shard Shard.set Lru.add Lru.push_element Lru.make_memory Lru.evict_loop
    Lru.calculate_size Lru.element_of Lru.new_lru_with_memory Lru.find_element lookup insert equal
    pendem.Engine.Shard.Fill.total_size
one_shard_fits = omega arith

load-save_example :
    let ended = load_snapshot 9 (some (save 5 used_cache)) empty_cache in
    (ended.1 ≡ done)
    × (view (codes "k") ended.0
        ≡ first_found
            (survives 9 (live 5 (view (codes "k") used_cache)))
            (view (codes "k") empty_cache))
load-save_example =
    load-save 5 9 (codes "k") used_cache empty_cache
      (set-IsWhole 1 (codes "k") (codes "v") (pos 0) empty_cache (new_cache-IsWhole small_config))
      (new_cache-IsWhole small_config) one_shard one_shard_fits used_cache-IsStorableShard
      room_for_used_cache

room_for_live : HasRoomForAll (Shard.get_items 5) used_cache.shards empty_cache.shards
unfolding Shard.get_items Lru.get_items Lru.live_entries pendem.Engine.Item.is_expired new_item
    pendem.Base.Int.wrap64 pendem.Base.Int.◌+ℤ◌ Cache.set Cache.on_shard Cache.get_shard
    Cache.shard_index Cache.fnv32a Cache.fnv32a_loop new_cache Shard.new_shard Shard.set Lru.add
    Lru.push_element Lru.make_memory Lru.evict_loop Lru.calculate_size Lru.element_of
    Lru.new_lru_with_memory Lru.find_element lookup insert equal pendem.Engine.Shard.Fill.total_size
    pendem.Persistence.Rdb.Reading.kept pendem.Persistence.Rdb.keep_item
room_for_live = (record { memory = λ h. omega arith; places = λ h. omega arith }, tt)

restore_data-collect_data_example :
    let ended = restore_data (collect_data 5 used_cache) empty_cache in
    (ended.1 ≡ restored)
    × (view (codes "k") ended.0
        ≡ first_found (live 5 (view (codes "k") used_cache)) (view (codes "k") empty_cache))
restore_data-collect_data_example =
    restore_data-collect_data 5 (codes "k") used_cache empty_cache
      (set-IsWhole 1 (codes "k") (codes "v") (pos 0) empty_cache (new_cache-IsWhole small_config))
      (new_cache-IsWhole small_config) one_shard room_for_live

-- Quotients without their decimal.
abbrev print_quotient : ℕ → ℕ → Bytes
print_quotient bytes div = format_uint (bytes / div)

format_size-unit_example :
    (e : ℕ) × (letter : ℕ) × (format_size print_quotient (pos 5000000)
      ≡ some (print_quotient 5000000 (1024 ^ (e + 1)) ++ 32 ∷ letter ∷ codes "B"))
    × (get_elem? (codes "KMGTPE") e ≡ some letter)
    × (1024 ^ (e + 1) ≤ 5000000)
    × (5000000 < 1024 ^ (e + 2))
format_size-unit_example = format_size-unit print_quotient 5000000 (omega arith) (omega arith)

format_size_megabytes : format_size print_quotient (pos 5000000) ≡ some (codes "4 MB")
unfolding format_size format_uint
format_size_megabytes = refl
