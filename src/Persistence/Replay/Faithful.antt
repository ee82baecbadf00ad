-- ===== src/Persistence/Replay/Faithful.antt =====
-- The handlers of the logged commands against `replayCommand`: the commands together. APPEND is not
-- replayed, PX is not understood, and a ZADD that fails may add members that are not logged.
use pendem.Base.{
  ◌▸◌, ◌++◌, ℕ, Bool, true, false, not, none, some, List, [], ◌∷◌, map, Bytes, codes, equal, All,
  lookup, Bool-cases, if◌then◌else◌, ◌≡◌, inl, inr, refl, ap, arith, equal_iff,
}
use pendem.Base.Strconv.{to_upper}
use pendem.Engine.SortedSet.{Floats}
use pendem.Engine.Cache
use pendem.Engine.Cache.{Cache}
use pendem.Handler.{Handler}
use pendem.Handler.Strings.{set, parse_ttl}
use pendem.Handler.Table.{handlers}
use pendem.Server.{mem_name}
use pendem.Persistence.Replay.{replayed_ttl, replay_named, replay_set}
use pendem.Persistence.Replay.Scores.{is_scored, zadd-Replays}
use pendem.Persistence.Replay.Reads.{
  ping-Reads, echo-Reads, policy-Reads, exists-Reads, hget-Reads, hgetall-Reads, hlen-Reads,
  hexists-Reads, hkeys-Reads, hvals-Reads, lrange_command-Reads, llen_command-Reads, smembers-Reads,
  sismember-Reads, scard-Reads, zrange-Reads, zcard-Reads, zscore-Reads,
}
use pendem.Persistence.Replay.Handlers.{
  Replays, delete-replays, hset-replays, hdel-replays, lpush-replays, rpush-replays, lpop-replays,
  rpop-replays, sadd-replays, srem-replays, zrem-replays, mset-replays, msetnx-replays,
}

-- The commands that are logged where they change something, and that the log knows.
abbrev logged_names : List Bytes
logged_names = map codes (
    "SET" ∷ "DEL" ∷ "HSET" ∷ "HDEL" ∷ "LPUSH" ∷ "RPUSH" ∷ "LPOP" ∷ "RPOP" ∷ "SADD" ∷ "SREM" ∷ "ZREM"
    ∷ "MSET" ∷ "MSETNX" ∷ "ZADD" ∷ [])

-- The commands that leave everything as it is.
abbrev reading_names : List Bytes
reading_names = map codes (
    "PING" ∷ "ECHO" ∷ "POLICY" ∷ "EXISTS" ∷ "HGET" ∷ "HGETALL" ∷ "HLEN" ∷ "HEXISTS" ∷ "HKEYS"
    ∷ "HVALS" ∷ "LRANGE" ∷ "LLEN" ∷ "SMEMBERS" ∷ "SISMEMBER" ∷ "SCARD" ∷ "ZRANGE" ∷ "ZCARD"
    ∷ "ZSCORE" ∷ [])

abbrev replayed_commands : List Bytes
replayed_commands = logged_names ++ reading_names

-- Not `PX n`, where the options of SET are.
unfoldable pub lasting : List Bytes → Bool
lasting (key ∷ value ∷ option ∷ n ∷ rest) = not (equal (to_upper option) (codes "PX"))
lasting _ = true

unfoldable pub is_replayed : {F : Type 0} → Floats F → Bytes → List Bytes → Bool
unfolding lasting
is_replayed fl cmd args =
    if mem_name cmd replayed_commands
    then (if equal cmd (codes "SET")
        then lasting args
        else if equal cmd (codes "ZADD")
        then is_scored fl args
        else true)
    else false

mem_name-All :
    (P : Bytes → Type 0) (cmd : Bytes) (names : List Bytes)
    → mem_name cmd names ≡ true
    → All P names
    → P cmd
unfolding mem_name
mem_name-All P cmd [] h all = absurd (ground arith)
mem_name-All P cmd (n ∷ ns) h all = elim (Bool-cases (equal cmd n)) [
  | inl same ↦ rw ((equal_iff cmd n).0 same) all.0
  | inr other ↦ mem_name-All P cmd ns (ground arith) all.1
]

pub replayed_upper :
    {F : Type 0} (fl : Floats F) (cmd : Bytes) (args : List Bytes)
    → is_replayed fl cmd args ≡ true
    → to_upper cmd ≡ cmd
unfolding is_replayed to_upper
replayed_upper fl cmd args h =
    mem_name-All (λ n. to_upper n ≡ n) cmd replayed_commands (ground arith)
      (refl ▸ refl ▸ refl ▸ refl ▸ refl ▸ refl ▸ refl ▸ refl ▸ refl ▸ refl ▸ refl ▸ refl ▸ refl
        ▸ refl ▸ refl ▸ refl ▸ refl ▸ refl ▸ refl ▸ refl ▸ refl ▸ refl ▸ refl ▸ refl ▸ refl ▸ refl
        ▸ refl ▸ refl ▸ refl ▸ refl ▸ refl ▸ refl ▸ tt)

module _ {F : Type 0} (fl : Floats F) where
  -- A command by its name, as the server finds its handler.
  unfoldable pub execute : ℕ → Bytes → List Bytes → Handler F → Handler F
  execute now cmd args h = elim (lookup cmd (handlers fl)) [
    | none ↦ h
    | some command ↦ (command now args h).0
  ]

  lasting-parse_ttl :
      (key value : Bytes) (options : List Bytes)
      → lasting (key ∷ value ∷ options) ≡ true
      → replayed_ttl options ≡ parse_ttl options
  unfolding lasting replayed_ttl parse_ttl
  lasting-parse_ttl key value [] h = refl
  lasting-parse_ttl key value (option ∷ []) h = refl
  lasting-parse_ttl key value (option ∷ n ∷ rest) h = ground arith

  set-Replays :
      (now : ℕ) (args : List Bytes) (h : Handler F)
      → lasting args ≡ true
      → Replays fl now (codes "SET") args h (set now args h).0
  unfolding set replay_named replay_set equal
  set-Replays now (key ∷ value ∷ options) h e = inr (
    Cache.set now key value (parse_ttl options) h.cache,
    ap (λ t. (Cache.set now key value t h.cache, true)) (lasting-parse_ttl key value options e),
    refl,
  )
  set-Replays now [] h e = inl refl
  set-Replays now (a ∷ []) h e = inl refl

  Executes : Bytes → Type 0
  Executes cmd =
      (now : ℕ) (args : List Bytes) (h : Handler F)
      → is_replayed fl cmd args ≡ true
      → Replays fl now cmd args h (execute now cmd args h)

  Executes-All : All Executes replayed_commands
  unfolding Executes execute is_replayed mem_name handlers lookup equal
  Executes-All =
      set-Replays
      ▸ (λ now args h e. delete-replays fl now args h)
      ▸ (λ now args h e. hset-replays fl now args h)
      ▸ (λ now args h e. hdel-replays fl now args h)
      ▸ (λ now args h e. lpush-replays fl now args h)
      ▸ (λ now args h e. rpush-replays fl now args h)
      ▸ (λ now args h e. lpop-replays fl now args h)
      ▸ (λ now args h e. rpop-replays fl now args h)
      ▸ (λ now args h e. sadd-replays fl now args h)
      ▸ (λ now args h e. srem-replays fl now args h)
      ▸ (λ now args h e. zrem-replays fl now args h)
      ▸ (λ now args h e. mset-replays fl now args h)
      ▸ (λ now args h e. msetnx-replays fl now args h)
      ▸ zadd-Replays fl
      ▸ (λ now args h e. inl (ping-Reads now args h))
      ▸ (λ now args h e. inl (echo-Reads now args h))
      ▸ (λ now args h e. inl (policy-Reads now args h))
      ▸ (λ now args h e. inl (exists-Reads now args h))
      ▸ (λ now args h e. inl (hget-Reads now args h))
      ▸ (λ now args h e. inl (hgetall-Reads now args h))
      ▸ (λ now args h e. inl (hlen-Reads now args h))
      ▸ (λ now args h e. inl (hexists-Reads now args h))
      ▸ (λ now args h e. inl (hkeys-Reads now args h))
      ▸ (λ now args h e. inl (hvals-Reads now args h))
      ▸ (λ now args h e. inl (lrange_command-Reads now args h))
      ▸ (λ now args h e. inl (llen_command-Reads now args h))
      ▸ (λ now args h e. inl (smembers-Reads now args h))
      ▸ (λ now args h e. inl (sismember-Reads now args h))
      ▸ (λ now args h e. inl (scard-Reads now args h))
      ▸ (λ now args h e. inl (zrange-Reads fl now args h))
      ▸ (λ now args h e. inl (zcard-Reads now args h))
      ▸ (λ now args h e. inl (zscore-Reads fl now args h))
      ▸ tt

  -- A handler of a command that the log knows, or of one that only reads, leaves everything as it
  -- was and logs nothing, or it logs the command and `replayCommand`, at the same time and on the
  -- cache as it was before, ends without an error with the cache that the handler leaves. The
  -- options of SET are not `PX n`.
  pub execute-replay_named :
      (now : ℕ) (cmd : Bytes) (args : List Bytes) (h : Handler F)
      → is_replayed fl cmd args ≡ true
      → Replays fl now cmd args h (execute now cmd args h)
  unfolding is_replayed Executes
  execute-replay_named now cmd args h e =
      mem_name-All Executes cmd replayed_commands (ground arith) Executes-All now args h e
