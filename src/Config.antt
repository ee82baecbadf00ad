-- ===== src/Config.antt =====
-- internal/config/config.go: the configuration, its defaults and its validation. A duration is a
-- number of nanoseconds.
pub mod Parser
pub mod Load
pub mod Validation
pub mod Settings
pub mod Lines
pub mod Search
use Prim.Native.Nat.{bit_and}
use pendem.Base.{
  ℕ, ◌-◌, ◌*◌, ◌^◌, Bool, true, false, not, ◌||◌, ◌&&◌, Option, none, some, List, [], ◌∷◌, Bytes,
  equal, codes, ◌==◌, ltb, leb, if◌then◌else◌,
}
use pendem.Base.Int.{ℤ, pos, negsuc, ltb_ℤ}
use pendem.Engine.Shard.{EngineConfig}

pub record ServerConfig : Type 0 where
  pub port : Bytes
  pub max_connections : ℤ
  pub read_timeout : ℤ
  pub write_timeout : ℤ
  pub idle_timeout : ℤ
  pub require_pass : Bytes

pub record JsonConfig : Type 0 where
  pub enabled : Bool
  pub path : Bytes
  pub interval : ℤ
  pub max_snapshots : ℤ

pub record AofConfig : Type 0 where
  pub enabled : Bool
  pub file_path : Bytes
  pub flush_interval : ℤ
  pub sync_on_write : Bool

pub record RdbConfig : Type 0 where
  pub enabled : Bool
  pub path : Bytes
  pub interval : ℤ

pub record PersistenceConfig : Type 0 where
  pub json : JsonConfig
  pub rdb : RdbConfig
  pub aof : AofConfig

pub record Config : Type 0 where
  pub server : ServerConfig
  pub engine : EngineConfig
  pub persistence : PersistenceConfig

abbrev seconds : ℕ → ℤ
seconds n = pos (n * 10 ^ 9)

abbrev pub default_config : Config
default_config = record {
  server = record {
    port = codes "6379";
    max_connections = pos 50000;
    read_timeout = seconds 120;
    write_timeout = seconds 30;
    idle_timeout = seconds 600;
    require_pass = codes "";
  };
  engine = record {
    max_memory = pos (1024 * 1024 * 1024);
    eviction_policy = codes "lru";
    evictor_capacity = pos 10000;
    shard_count = pos 16;
    default_ttl = pos 0;
  };
  persistence = record {
    json = record {
      enabled = true;
      path = codes "pendem.snapshot.json";
      interval = seconds 3600;
      max_snapshots = pos 5;
    };
    rdb = record { enabled = true; path = codes "pendem.rdb"; interval = seconds 3600 };
    aof = record {
      enabled = true;
      file_path = codes "pendem.aof";
      flush_interval = seconds 300;
      sync_on_write = false;
    };
  };
}

-- The errors of `Validate`, in its order.
pub data Invalid : Type 0 where
  bad_max_connections : Invalid
  bad_max_memory : Invalid
  bad_shard_count : ℤ → Invalid
  bad_rdb_interval : Invalid
  bad_aof_interval : Invalid

-- n > 0
unfoldable pub is_positive : ℤ → Bool
is_positive n = ltb_ℤ (pos 0) n

-- `n <= 0 || n&(n-1) != 0`, negated.
unfoldable pub is_power_of_two : ℤ → Bool
is_power_of_two (pos n) = ltb 0 n && (bit_and n (n - 1) == 0)
is_power_of_two (negsuc n) = false

unfoldable pub validate : Config → Option Invalid
unfolding is_positive is_power_of_two
validate c =
    if not (is_positive c.server.max_connections)
    then some bad_max_connections
    else if not (is_positive c.engine.max_memory)
    then some bad_max_memory
    else if not (is_power_of_two c.engine.shard_count)
    then some (bad_shard_count c.engine.shard_count)
    else if c.persistence.rdb.enabled && not (is_positive c.persistence.rdb.interval)
    then some bad_rdb_interval
    else if c.persistence.aof.enabled && not (is_positive c.persistence.aof.flush_interval)
    then some bad_aof_interval
    else none

-- FindConfigFile: the path that is given, or the first of the default paths, if there is such a
-- file.
unfoldable pub first_file : (Bytes → Bool) → List Bytes → Option Bytes
first_file exists [] = none
first_file exists (p ∷ ps) = let rest = first_file exists ps in if exists p then some p else rest

unfoldable pub find_config_file : (Bytes → Bool) → List Bytes → Bytes → Option Bytes
unfolding first_file
find_config_file exists default_paths path =
    if not (equal path []) && exists path then some path else first_file exists default_paths
