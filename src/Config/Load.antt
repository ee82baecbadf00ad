-- ===== src/Config/Load.antt =====
-- `LoadConfig` of internal/config/config.go.
use pendem.Base.{Bool, true, false, Option, none, some, Bytes, codes}
use pendem.Base.Int.{ℤ}
use pendem.Config.{Config, ServerConfig, JsonConfig, AofConfig, RdbConfig, default_config}
use pendem.Config.Parser.{
  ConfigParser, new_config_parser, parse, get_string, get_int, get_duration, get_bool, get_bytes,
}
use pendem.Engine.Shard.{EngineConfig}

-- `if v, ok := ...; ok { field = v }`
abbrev pub or_else {ℓ} : {A : Type ℓ} → Option A → A → A
or_else none old = old
or_else (some new) old = new

module _ (parse_duration : Bytes → Option ℤ) (p : ConfigParser) where
  server_config : ServerConfig → ServerConfig
  server_config c = record {
    port = or_else (get_string (codes "server") (codes "port") p) c.port;
    max_connections =
        or_else (get_int (codes "server") (codes "max_connections") p) c.max_connections;
    read_timeout =
        or_else (get_duration parse_duration (codes "server") (codes "read_timeout") p)
          c.read_timeout;
    write_timeout =
        or_else (get_duration parse_duration (codes "server") (codes "write_timeout") p)
          c.write_timeout;
    idle_timeout =
        or_else (get_duration parse_duration (codes "server") (codes "idle_timeout") p)
          c.idle_timeout;
    require_pass = or_else (get_string (codes "server") (codes "requirepass") p) c.require_pass;
  }

  engine_config : EngineConfig → EngineConfig
  engine_config c = record {
    max_memory = or_else (get_bytes (codes "engine") (codes "max_memory") p) c.max_memory;
    eviction_policy =
        or_else (get_string (codes "engine") (codes "eviction_policy") p) c.eviction_policy;
    evictor_capacity =
        or_else (get_int (codes "engine") (codes "evictor_capacity") p) c.evictor_capacity;
    shard_count = or_else (get_int (codes "engine") (codes "shard_count") p) c.shard_count;
    default_ttl =
        or_else (get_duration parse_duration (codes "engine") (codes "default_ttl") p)
          c.default_ttl;
  }

  rdb_config : RdbConfig → RdbConfig
  rdb_config c = record {
    enabled = or_else (get_bool (codes "persistence.rdb") (codes "enabled") p) c.enabled;
    path = or_else (get_string (codes "persistence.rdb") (codes "path") p) c.path;
    interval =
        or_else (get_duration parse_duration (codes "persistence.rdb") (codes "interval") p)
          c.interval;
  }

  aof_config : AofConfig → AofConfig
  aof_config c = record {
    enabled = or_else (get_bool (codes "persistence.aof") (codes "enabled") p) c.enabled;
    file_path = or_else (get_string (codes "persistence.aof") (codes "path") p) c.file_path;
    flush_interval =
        or_else (get_duration parse_duration (codes "persistence.aof") (codes "flush_interval") p)
          c.flush_interval;
    sync_on_write =
        or_else (get_bool (codes "persistence.aof") (codes "sync_on_write") p) c.sync_on_write;
  }

  json_config : JsonConfig → JsonConfig
  json_config c = record {
    enabled = or_else (get_bool (codes "persistence.json") (codes "enabled") p) c.enabled;
    path = or_else (get_string (codes "persistence.json") (codes "path") p) c.path;
    interval =
        or_else (get_duration parse_duration (codes "persistence.json") (codes "interval") p)
          c.interval;
    max_snapshots =
        or_else (get_int (codes "persistence.json") (codes "max_snapshots") p) c.max_snapshots;
  }

  -- The values of the file over others.
  unfoldable pub override : Config → Config
  unfolding server_config engine_config rdb_config aof_config json_config
  override c = record {
    server = server_config c.server;
    engine = engine_config c.engine;
    persistence = record {
      json = json_config c.persistence.json;
      rdb = rdb_config c.persistence.rdb;
      aof = aof_config c.persistence.aof;
    };
  }

loaded : (Bytes → Option ℤ) → ConfigParser × Bool → Config × Bool
loaded parse_duration (p, true) = (override parse_duration p default_config, true)
loaded parse_duration (p, false) = (default_config, false)

-- A file that cannot be read, or has a line that is too long, is an error, with the defaults.
unfoldable pub load_config : (Bytes → Option ℤ) → Option Bytes → Config × Bool
unfolding loaded
load_config parse_duration none = (default_config, false)
load_config parse_duration (some content) = loaded parse_duration (parse content new_config_parser)
