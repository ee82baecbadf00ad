-- ===== src/Persistence/Replay/Reads.antt =====
-- The handlers that leave everything as it is, so that nothing of them has to be logged. GET, TTL,
-- STRLEN and MGET are not among them: they move entries in the evictor or drop expired ones.
use pendem.Base.{ℕ, Option, none, some, List, [], ◌∷◌, Bytes, ◌≡◌, refl}
use pendem.Resp.{RespValue}
use pendem.Engine.SortedSet.{Floats}
use pendem.Engine.Cache
use pendem.Handler.{Handler, Command}
use pendem.Handler.Common.{ping, echo, policy}
use pendem.Handler.Strings.{exists}
use pendem.Handler.Hashes.{hget, hgetall, hlen, hexists, hkeys, hvals}
use pendem.Handler.Lists.{lrange_command, llen_command}
use pendem.Handler.Sets.{smembers, sismember, scard}
use pendem.Handler.SortedSets.{zrange, zcard, zscore}

module _ {F : Type 0} where
  abbrev pub Reads : Command F → Type 0
  Reads command = (now : ℕ) (args : List Bytes) (h : Handler F) → (command now args h).0 ≡ h

  option-same :
      {X : Type 0} (o : Option X) (h : Handler F) (missing : RespValue) (found : X → RespValue)
      → (elim o as (λ _. Handler F × RespValue) [ none ↦ (h, missing) | some x ↦ (h, found x) ]).0
        ≡ h
  option-same none h missing found = refl
  option-same (some x) h missing found = refl

  pub ping-Reads : Reads ping
  unfolding ping
  ping-Reads now [] h = refl
  ping-Reads now (arg ∷ args) h = refl

  pub echo-Reads : Reads echo
  unfolding echo
  echo-Reads now [] h = refl
  echo-Reads now (arg ∷ args) h = refl

  pub policy-Reads : Reads policy
  unfolding policy
  policy-Reads now [] h = refl
  policy-Reads now (key ∷ args) h = refl

  pub exists-Reads : Reads exists
  unfolding exists
  exists-Reads now [] h = refl
  exists-Reads now (key ∷ args) h = refl

  pub hget-Reads : Reads hget
  unfolding hget
  hget-Reads now [] h = refl
  hget-Reads now (key ∷ []) h = refl
  hget-Reads now (key ∷ field ∷ args) h = option-same (Cache.get_hash key h.cache) h _ _

  pub hgetall-Reads : Reads hgetall
  unfolding hgetall
  hgetall-Reads now [] h = refl
  hgetall-Reads now (key ∷ args) h = option-same (Cache.get_hash key h.cache) h _ _

  pub hlen-Reads : Reads hlen
  unfolding hlen
  hlen-Reads now [] h = refl
  hlen-Reads now (key ∷ args) h = option-same (Cache.get_hash key h.cache) h _ _

  pub hkeys-Reads : Reads hkeys
  unfolding hkeys
  hkeys-Reads now [] h = refl
  hkeys-Reads now (key ∷ args) h = option-same (Cache.get_hash key h.cache) h _ _

  pub hvals-Reads : Reads hvals
  unfolding hvals
  hvals-Reads now [] h = refl
  hvals-Reads now (key ∷ args) h = option-same (Cache.get_hash key h.cache) h _ _

  pub hexists-Reads : Reads hexists
  unfolding hexists
  hexists-Reads now [] h = refl
  hexists-Reads now (key ∷ []) h = refl
  hexists-Reads now (key ∷ field ∷ args) h = option-same (Cache.get_hash key h.cache) h _ _

  pub lrange_command-Reads : Reads lrange_command
  unfolding lrange_command
  lrange_command-Reads now [] h = refl
  lrange_command-Reads now (key ∷ []) h = refl
  lrange_command-Reads now (key ∷ start ∷ []) h = refl
  lrange_command-Reads now (key ∷ start ∷ stop ∷ args) h = refl

  pub llen_command-Reads : Reads llen_command
  unfolding llen_command
  llen_command-Reads now [] h = refl
  llen_command-Reads now (key ∷ args) h = option-same (Cache.get_list key h.cache) h _ _

  pub smembers-Reads : Reads smembers
  unfolding smembers
  smembers-Reads now [] h = refl
  smembers-Reads now (key ∷ args) h = option-same (Cache.get_set key h.cache) h _ _

  pub sismember-Reads : Reads sismember
  unfolding sismember
  sismember-Reads now [] h = refl
  sismember-Reads now (key ∷ []) h = refl
  sismember-Reads now (key ∷ member ∷ args) h = option-same (Cache.get_set key h.cache) h _ _

  pub scard-Reads : Reads scard
  unfolding scard
  scard-Reads now [] h = refl
  scard-Reads now (key ∷ args) h = option-same (Cache.get_set key h.cache) h _ _

  pub zcard-Reads : Reads zcard
  unfolding zcard
  zcard-Reads now [] h = refl
  zcard-Reads now (key ∷ args) h = option-same (Cache.get_sorted_set key h.cache) h _ _

  pub zrange-Reads : (fl : Floats F) → Reads (zrange fl)
  unfolding zrange
  zrange-Reads fl now [] h = refl
  zrange-Reads fl now (key ∷ []) h = refl
  zrange-Reads fl now (key ∷ start ∷ []) h = refl
  zrange-Reads fl now (key ∷ start ∷ stop ∷ args) h = refl

  pub zscore-Reads : (fl : Floats F) → Reads (zscore fl)
  unfolding zscore
  zscore-Reads fl now [] h = refl
  zscore-Reads fl now (key ∷ []) h = refl
  zscore-Reads fl now (key ∷ member ∷ args) h = option-same (Cache.get_sorted_set key h.cache) h _ _
