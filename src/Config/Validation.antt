-- ===== src/Config/Validation.antt =====
-- What `Validate` of internal/config/config.go accepts, and what a power of two means for the
-- shards.
use native.Mathlib.Nat.{one-le-pow}
use pendem.Base.{
  ℕ, zero, suc, ◌<◌, Bool-cases, ◌%◌, ◌^◌, Bool, true, false, not, ◌&&◌, Option, none, some, Bytes,
  if◌then◌else◌, ◌≡◌, ◌↔◌, ◌⊎◌, inl, inr, refl, ap, sym, ◌∙◌, arith,
}
use pendem.Base.Int.{ℤ, pos, negsuc, pos_part}
use pendem.Base.Bits.{bit_and-power, bit_and-mask}
use pendem.Engine.Shard.{EngineConfig}
use pendem.Engine.Cache.{new_cache, shard_index, fnv32a}
use pendem.Config.{
  Config, Invalid, bad_max_connections, bad_max_memory, bad_shard_count, bad_rdb_interval,
  bad_aof_interval, is_positive, is_power_of_two, validate,
}

-- What is asked of a configuration.
abbrev pub IsUsable : Config → Type 0
IsUsable c =
    (0 < pos_part c.server.max_connections)
    × (0 < pos_part c.engine.max_memory)
    × ((k : ℕ) × (c.engine.shard_count ≡ pos (2 ^ k)))
    × ((c.persistence.rdb.enabled ≡ false) ⊎ (0 < pos_part c.persistence.rdb.interval))
    × ((c.persistence.aof.enabled ≡ false) ⊎ (0 < pos_part c.persistence.aof.flush_interval))

is_positive_lem : (z : ℤ) → (is_positive z ≡ true) ↔ (0 < pos_part z)
unfolding is_positive
is_positive_lem z = (λ h. ground (arith, h), λ h. ground (arith, h))

is_power_of_two-power : (n : ℤ) → (is_power_of_two n ≡ true) ↔ ((k : ℕ) × (n ≡ pos (2 ^ k)))
unfolding is_power_of_two
is_power_of_two-power (pos zero) =
    (λ h. absurd (ground arith), λ (k, e). absurd (omega (arith, ap pos_part e, one-le-pow k 2)))
is_power_of_two-power (pos (suc n)) =
    let power = bit_and-power (suc n) (omega arith) in
    (
      λ h. let (k, e) = power.0 (ground arith) in (k, ap pos e),
      λ (k, e). let none = power.1 (k, ap pos_part e) in ground arith,
    )
is_power_of_two-power (negsuc n) =
    (λ h. absurd (ground arith), λ (k, e). absurd (ground (arith, e)))

module _ (x : Invalid) (rest : Option Invalid) where
  guard :
      (z : ℤ)
      → ((if not (is_positive z) then some x else rest) ≡ none) ↔ ((0 < pos_part z) × (rest ≡ none))
  guard z = elim (Bool-cases (is_positive z)) [
    | inl e ↦ rw e (λ h. ((is_positive_lem z).0 e, h), λ h. h.1)
    | inr e ↦
        rw e
          (λ h. absurd (ground (arith, h)), λ h. absurd (ground (arith, (is_positive_lem z).1 h.0)))
  ]

  guard_shards :
      (a : Bool) → ((if not a then some x else rest) ≡ none) ↔ ((a ≡ true) × (rest ≡ none))
  guard_shards true = (λ h. (refl, h), λ h. h.1)
  guard_shards false = (λ h. absurd (ground (arith, h)), λ h. absurd (ground arith))

  guard_if_enabled :
      (enabled : Bool) (z : ℤ)
      → ((if enabled && not (is_positive z) then some x else rest) ≡ none)
        ↔ (((enabled ≡ false) ⊎ (0 < pos_part z)) × (rest ≡ none))
  guard_if_enabled false z = (λ h. (inl refl, h), λ h. h.1)
  guard_if_enabled true z = (
    λ h. let (positive, none_left) = (guard z).0 h in (inr positive, none_left),
    λ (h, none_left).
        (guard z).1
          (elim h [ inl off ↦ absurd (ground (arith, off)) | inr positive ↦ positive ], none_left),
  )

-- `Validate` finds no error just where there is room for a connection, memory to use, a number of
-- shards that is a power of two, and a positive interval for the binary snapshot and for the log, each
-- where it is on. It asks nothing of the interval of the JSON snapshot.
pub validate-IsUsable : (c : Config) → (validate c ≡ none) ↔ IsUsable c
unfolding validate
validate-IsUsable c =
    let connections = guard bad_max_connections _ c.server.max_connections in
    let memory = guard bad_max_memory _ c.engine.max_memory in
    let shards =
      guard_shards (bad_shard_count c.engine.shard_count) _
        (is_power_of_two c.engine.shard_count) in
    let power = is_power_of_two-power c.engine.shard_count in
    let rdb =
      guard_if_enabled bad_rdb_interval _ c.persistence.rdb.enabled c.persistence.rdb.interval in
    let aof =
      guard_if_enabled bad_aof_interval none c.persistence.aof.enabled
        c.persistence.aof.flush_interval in
    (
      λ h.
          let (a, h1) = connections.0 h in
          let (b, h2) = memory.0 h1 in
          let (d, h3) = shards.0 h2 in
          let (e, h4) = rdb.0 h3 in let (f, h5) = aof.0 h4 in (a, b, power.0 d, e, f),
      λ (a, b, d, e, f).
          connections.1 (a, memory.1 (b, shards.1 (power.1 d, rdb.1 (e, aof.1 (f, refl))))),
    )

module _ (F : Type 0) where
  num_shards-power :
      (cfg : EngineConfig) (k : ℕ)
      → cfg.shard_count ≡ pos (2 ^ k)
      → (new_cache {F = F} cfg).num_shards ≡ 2 ^ k
  unfolding new_cache
  num_shards-power cfg k e = rw e (ground (arith, one-le-pow k 2))

  -- With a number of shards that `Validate` accepts, the cache has this number of shards, and the
  -- mask of `getShard` is the remainder of the hash by it.
  pub shard_index-validate :
      (c : Config) (key : Bytes)
      → validate c ≡ none
      → (pos (new_cache {F = F} c.engine).num_shards ≡ c.engine.shard_count)
        × (shard_index (new_cache {F = F} c.engine).num_shards key
            ≡ fnv32a key % (new_cache {F = F} c.engine).num_shards)
  unfolding shard_index
  shard_index-validate c key h =
      let (k, e) = ((validate-IsUsable c).0 h).2 in
      let n = num_shards-power c.engine k e in
      (ap pos n ∙ sym e, rw n (bit_and-mask k (fnv32a key)))
