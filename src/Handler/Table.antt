-- ===== src/Handler/Table.antt =====
-- The handlers that cmd/main.go registers, by the name of the command. MEMORY prints statistics of
-- the Go runtime and SCAN may panic, so they are not in the table.
use pendem.Base.{[], ◌∷◌, Map, codes}
use pendem.Engine.SortedSet.{Floats}
use pendem.Handler.{Command}
use pendem.Handler.Common.{ping, echo, policy}
use pendem.Handler.Strings.{get, exists, set, delete, ttl, append, strlen}
use pendem.Handler.Hashes.{hset, hget, hgetall, hdel, hlen, hexists, hkeys, hvals}
use pendem.Handler.Lists.{
  lpush_command, rpush_command, lpop_command, rpop_command, lrange_command, llen_command,
}
use pendem.Handler.Sets.{sadd, srem, smembers, sismember, scard}
use pendem.Handler.SortedSets.{zadd, zrange, zrem, zcard, zscore}
use pendem.Handler.Batch.{mget, mset, msetnx}

unfoldable pub handlers : {F : Type 0} → Floats F → Map (Command F)
handlers fl =
    (codes "PING", ping)
    ∷ (codes "ECHO", echo)
    ∷ (codes "POLICY", policy)
    ∷ (codes "GET", get)
    ∷ (codes "EXISTS", exists)
    ∷ (codes "SET", set)
    ∷ (codes "DEL", delete)
    ∷ (codes "TTL", ttl)
    ∷ (codes "APPEND", append)
    ∷ (codes "STRLEN", strlen)
    ∷ (codes "HSET", hset)
    ∷ (codes "HGET", hget)
    ∷ (codes "HGETALL", hgetall)
    ∷ (codes "HDEL", hdel)
    ∷ (codes "HLEN", hlen)
    ∷ (codes "HEXISTS", hexists)
    ∷ (codes "HKEYS", hkeys)
    ∷ (codes "HVALS", hvals)
    ∷ (codes "LPUSH", lpush_command)
    ∷ (codes "RPUSH", rpush_command)
    ∷ (codes "LPOP", lpop_command)
    ∷ (codes "RPOP", rpop_command)
    ∷ (codes "LRANGE", lrange_command)
    ∷ (codes "LLEN", llen_command)
    ∷ (codes "SADD", sadd)
    ∷ (codes "SREM", srem)
    ∷ (codes "SMEMBERS", smembers)
    ∷ (codes "SISMEMBER", sismember)
    ∷ (codes "SCARD", scard)
    ∷ (codes "ZADD", zadd fl)
    ∷ (codes "ZRANGE", zrange fl)
    ∷ (codes "ZREM", zrem)
    ∷ (codes "ZCARD", zcard)
    ∷ (codes "ZSCORE", zscore fl)
    ∷ (codes "MGET", mget)
    ∷ (codes "MSET", mset)
    ∷ (codes "MSETNX", msetnx)
    ∷ []
