-- ===== src/Persistence/Manager/Recovery.antt =====
-- What a restart brings back.
use pendem.Base.{ℕ, true, false, Option, none, some, List, [], Bytes, All, ◌≡◌, refl, ap, ◌∙◌}
use pendem.Engine.SortedSet.{Floats}
use pendem.Engine.Cache.{Cache}
use pendem.Handler.{Handler}
use pendem.Config.{PersistenceConfig}
use pendem.Resp.{RespValue}
use pendem.Persistence.Replay.{replay_all}
use pendem.Persistence.Aof.{IsLoggable, load, log_all}
use pendem.Persistence.Replay.History.{IsReplayed, execute_all, logged_commands, execute_all-load}
use pendem.Persistence.Json.{JsonData}
use pendem.Persistence.Manager.{Files, load_aof, load_data}

module _ {F : Type 0} (fl : Floats F) (unmarshal : Bytes → Option JsonData) (now : ℕ) where
  -- A log that is on and that the parser does not panic on is replayed, whatever the snapshots hold.
  pub load_data-log :
      (cfg : PersistenceConfig) (files : Files) (c : Cache F) {log : Bytes}
      {values : List RespValue}
      → cfg.aof.enabled ≡ true
      → files.aof ≡ some log
      → load log ≡ (values, true)
      → load_data fl unmarshal now cfg files c ≡ (replay_all fl now values c, true)
  unfolding load_data
  load_data-log cfg files c on found loaded = rw (load_data, on, found, load_aof, loaded) refl

  -- Commands that the log knows (SET with other options than `PX n`, and ZADD with scores that are
  -- floats), or that leave everything as it is (PING, ECHO, POLICY, EXISTS, and the reading ones on
  -- hashes, lists, sets and sorted sets), whose strings are not empty and within the limits of the
  -- parser, run with a log that is on and empty: a restart with the log on that finds what they
  -- logged, at the same time and with the cache as it was before them, has the cache that they
  -- left, whatever the snapshots hold.
  pub load_data-execute_all :
      (cfg : PersistenceConfig) (files : Files) (cs : List (Bytes × List Bytes)) (h : Handler F)
      → cfg.aof.enabled ≡ true
      → h.persistent ≡ true
      → h.launched ≡ []
      → All (IsReplayed fl) cs
      → All IsLoggable cs
      → files.aof ≡ some (log_all (logged_commands (execute_all fl now cs h).launched))
      → load_data fl unmarshal now cfg files h.cache ≡ ((execute_all fl now cs h).cache, true)
  unfolding load_data
  load_data-execute_all cfg files cs h on logged fresh known loggable found =
      let (values, loaded, replayed) = execute_all-load fl now cs h logged fresh known loggable in
      load_data-log cfg files h.cache on found loaded ∙ ap (λ c. (c, true)) replayed

  -- Without the log, a snapshot of rdb.go that is on and has no file leaves the cache as it is, and
  -- the JSON snapshot is not read.
  pub load_data-no_rdb :
      (cfg : PersistenceConfig) (files : Files) (c : Cache F)
      → cfg.aof.enabled ≡ false
      → cfg.rdb.enabled ≡ true
      → files.rdb ≡ none
      → load_data fl unmarshal now cfg files c ≡ (c, true)
  unfolding load_data pendem.Persistence.Rdb.load
  load_data-no_rdb cfg files c off on missing = rw (load_data, off, on, missing) refl
