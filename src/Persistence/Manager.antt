-- ===== src/Persistence/Manager.antt =====
-- The recovery of internal/persistence/manager.go. The files are `none` where they are missing.
pub mod Recovery
pub mod Interrupted
use pendem.Base.{ℕ, Bool, true, false, ◌&&◌, List, Option, none, some, Bytes, if◌then◌else◌}
use pendem.Engine.SortedSet.{Floats}
use pendem.Engine.Cache.{Cache}
use pendem.Config.{PersistenceConfig}
use pendem.Persistence.Aof
use pendem.Resp.{RespValue}
use pendem.Persistence.Replay.{replay_all}
use pendem.Persistence.Rdb
use pendem.Persistence.Rdb.{LoadEnd, done, panicked, failed}
use pendem.Persistence.Json
use pendem.Persistence.Json.{JsonData, JsonEnd, restored, refused, crashed}

pub record Files : Type 0 where
  pub aof : Option Bytes
  pub rdb : Option Bytes
  pub json : Option Bytes

-- What a source of data came to: the next is tried behind an error; a panic ends the process.
pub data Attempt : Type 0 where
  succeeded erred ended : Attempt

rdb_attempt : LoadEnd → Attempt
rdb_attempt done = succeeded
rdb_attempt panicked = ended
rdb_attempt (failed e) = erred

json_attempt : JsonEnd → Attempt
json_attempt restored = succeeded
json_attempt refused = erred
json_attempt crashed = ended

module _ {F : Type 0} (fl : Floats F) (unmarshal : Bytes → Option JsonData) (now : ℕ) where
  replayed : List RespValue × Bool → Cache F → Cache F × Attempt
  replayed (values, true) c = (replay_all fl now values c, succeeded)
  replayed (values, false) c = (replay_all fl now values c, ended)

  -- The log, which is an error only where there is none; a panic of the parser ends the process.
  unfoldable pub load_aof : Option Bytes → Cache F → Cache F × Attempt
  unfolding replayed
  load_aof none c = (c, erred)
  load_aof (some log) c = replayed (Aof.load log) c

  load_rdb : Option Bytes → Cache F → Cache F × Attempt
  unfolding rdb_attempt
  load_rdb file c = let (c', end) = Rdb.load now file c in (c', rdb_attempt end)

  load_json : Option Bytes → Cache F → Cache F × Attempt
  unfolding json_attempt
  load_json file c = let (c', end) = Json.load unmarshal file c in (c', json_attempt end)

  -- A source that is on, and the next where it is off or came to an error.
  or_next :
      Bool → (Cache F → Cache F × Attempt) → (Cache F → Cache F × Bool) → Cache F → Cache F × Bool
  or_next false source next c = next c
  or_next true source next c =
      let (c', attempt) = source c in
      elim attempt [ succeeded ↦ (c', true) | erred ↦ next c' | ended ↦ (c', false) ]

  -- loadData: the cache behind it, and whether the process is still there.
  unfoldable pub load_data : PersistenceConfig → Files → Cache F → Cache F × Bool
  unfolding load_aof load_rdb load_json or_next
  load_data cfg files = or_next cfg.aof.enabled (load_aof files.aof) (
      or_next cfg.rdb.enabled (load_rdb files.rdb)
        (or_next cfg.json.enabled (load_json files.json) (λ c. (c, true))))
