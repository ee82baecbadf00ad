-- ===== src/Engine/Cache.antt =====
-- internal/engine/cache.go. Each operation on a key goes to the shard that the key's hash picks.
pub mod Routing
pub mod Pages
pub mod Expiry
use Prim.Native.Nat.{bit_and, bit_xor}
use pendem.Base.{
  ℕ, zero, suc, ◌+◌, ◌-◌, ◌*◌, ◌/◌, ◌%◌, ◌^◌, Bool, true, false, not, ◌&&◌, Option, none, some,
  List, [], ◌∷◌, ◌++◌, Bytes, Map, codes, ltb, leb, if◌then◌else◌, length, get_elem?,
  set as set_elem, drop, replicate, lookup, insert,
}
use pendem.Base.Int.{times_ℕ, ℤ, pos, negsuc, ltb_ℤ, sub_ℕ, pos_part, neg_part, wrap64, neg_ℕ}
use pendem.Engine.Shard
use pendem.Engine.Shard.{Shard, EngineConfig, new_shard}
use pendem.Engine.Hash.{Hash, new_hash}
use pendem.Engine.ListValue.{ListValue, new_list}
use pendem.Engine.SetValue.{SetValue, new_set}
use pendem.Engine.SortedSet.{SortedSet, new_sorted_set}

pub record Cache (F : Type 0) : Type 0 where
  pub shards : List (Shard F)
  pub num_shards : ℕ

-- hash/fnv, New32a: for each byte an exclusive or and a product in 32 bits.
unfoldable pub fnv32a_loop : ℕ → Bytes → ℕ
fnv32a_loop h [] = h
fnv32a_loop h (b ∷ bs) = fnv32a_loop ((bit_xor h b * 16777619) % 2 ^ 32) bs

unfoldable pub fnv32a : Bytes → ℕ
unfolding fnv32a_loop
fnv32a = fnv32a_loop 2166136261

-- `int(hash) & (c.numShards - 1)`, with at least one shard.
unfoldable pub shard_index : ℕ → Bytes → ℕ
shard_index num_shards key = bit_and (fnv32a key) (num_shards - 1)

-- The shard count of the default configuration.
abbrev default_shard_count : ℕ
default_shard_count = 16

abbrev shard_count_of : ℤ → ℕ
shard_count_of (pos n) = if ltb 0 n then n else default_shard_count
shard_count_of (negsuc n) = default_shard_count

abbrev pub widen : List Bytes × ℕ → List Bytes × ℤ
widen (keys, next) = (keys, pos next)

module _ {F : Type 0} where
  unfoldable pub new_cache : EngineConfig → Cache F
  new_cache cfg =
      let n = shard_count_of cfg.shard_count in
      record { shards = replicate n (new_shard cfg); num_shards = n }

  -- The shard of a key. No index is out of range (Routing), where Go would panic.
  unfoldable pub get_shard : Bytes → Cache F → Option (Shard F)
  get_shard key c = get_elem? c.shards (shard_index c.num_shards key)

  -- Reads and calls a method of the key's shard.
  unfoldable pub on_shard :
      {R : Type 0} → Bytes → (Shard F → Shard F × R) → R → Cache F → Cache F × R
  on_shard key method missing c = elim (get_shard key c) [
    | none ↦ (c, missing)
    | some s ↦
        let (s', r) = method s in
        (record c { shards = set_elem c.shards (shard_index c.num_shards key) s' }, r)
  ]

  unfoldable pub has_key : Bytes → Cache F → Bool
  has_key key c = elim (get_shard key c) [ none ↦ false | some s ↦ Shard.has_key key s ]

  unfoldable pub set : ℕ → Bytes → Bytes → ℤ → Cache F → Cache F
  set now key value ttl c = (on_shard key (λ s. (Shard.set now key value ttl s, tt {0})) tt c).0

  unfoldable pub get : ℕ → Bytes → Cache F → Cache F × Option Bytes
  get now key c = on_shard key (Shard.get now key) none c

  unfoldable pub delete : Bytes → Cache F → Cache F × Bool
  delete key c = on_shard key (Shard.delete key) false c

  unfoldable pub ttl : ℕ → Bytes → Cache F → Cache F × ℤ
  ttl now key c = on_shard key (Shard.ttl now key) (negsuc 1) c

  sum_shards : (Shard F → ℕ) → List (Shard F) → ℕ
  sum_shards f [] = 0
  sum_shards f (s ∷ ss) = f s + sum_shards f ss

  unfoldable pub memory_usage : Cache F → ℕ
  unfolding sum_shards
  memory_usage c = sum_shards Shard.memory_usage c.shards

  unfoldable pub size : Cache F → ℕ
  unfolding sum_shards
  size c = sum_shards Shard.size c.shards

  unfoldable pub policy : Cache F → Bytes
  policy c = elim c.shards [ [] ↦ codes "unknown" | s ∷ ss ↦ s.policy ]

  unfoldable pub max_capacity : Cache F → ℤ
  max_capacity c = elim c.shards [ [] ↦ pos 0 | s ∷ ss ↦ Shard.max_capacity s ]

  unfoldable pub total_capacity : Cache F → ℤ
  total_capacity c = elim c.shards [
    | [] ↦ pos 0
    | s ∷ ss ↦ times_ℕ (Shard.max_capacity s) c.num_shards
  ]

  -- GetShard; an index out of range panics.
  unfoldable pub shard_at : ℕ → Cache F → Option (Shard F)
  shard_at id c = get_elem? c.shards id

  cleanup_all : ℕ → List (Shard F) → List (Shard F)
  cleanup_all now [] = []
  cleanup_all now (s ∷ ss) = Shard.cleanup_expired now s ∷ cleanup_all now ss

  -- One round of `cleanupLoop`.
  unfoldable pub cleanup_round : ℕ → Cache F → Cache F
  unfolding cleanup_all
  cleanup_round now c = record c { shards = cleanup_all now c.shards }

  unfoldable pub get_hash : Bytes → Cache F → Option Hash
  get_hash key c = elim (get_shard key c) [ none ↦ none | some s ↦ Shard.get_hash key s ]

  unfoldable pub get_list : Bytes → Cache F → Option ListValue
  get_list key c = elim (get_shard key c) [ none ↦ none | some s ↦ Shard.get_list key s ]

  unfoldable pub get_set : Bytes → Cache F → Option SetValue
  get_set key c = elim (get_shard key c) [ none ↦ none | some s ↦ Shard.get_set key s ]

  unfoldable pub get_sorted_set : Bytes → Cache F → Option (SortedSet F)
  get_sorted_set key c = elim (get_shard key c) [
    | none ↦ none
    | some s ↦ Shard.get_sorted_set key s
  ]

  unfoldable pub get_or_create_hash : Bytes → Cache F → Cache F × Hash
  get_or_create_hash key c = on_shard key (Shard.get_or_create_hash key) new_hash c

  unfoldable pub get_or_create_list : Bytes → Cache F → Cache F × ListValue
  get_or_create_list key c = on_shard key (Shard.get_or_create_list key) new_list c

  unfoldable pub get_or_create_set : Bytes → Cache F → Cache F × SetValue
  get_or_create_set key c = on_shard key (Shard.get_or_create_set key) new_set c

  unfoldable pub get_or_create_sorted_set : Bytes → Cache F → Cache F × SortedSet F
  get_or_create_sorted_set key c =
      on_shard key (Shard.get_or_create_sorted_set key) new_sorted_set c

  -- Writes through the pointer that the key's entry holds.
  unfoldable pub store_hash : Bytes → Hash → Cache F → Cache F
  store_hash key h c =
      (on_shard key (λ s. (record s { hashes = insert key h s.hashes }, tt {0})) tt c).0

  unfoldable pub store_list : Bytes → ListValue → Cache F → Cache F
  store_list key l c =
      (on_shard key (λ s. (record s { lists = insert key l s.lists }, tt {0})) tt c).0

  unfoldable pub store_set : Bytes → SetValue → Cache F → Cache F
  store_set key v c = (on_shard key (λ s. (record s { sets = insert key v s.sets }, tt {0})) tt c).0

  unfoldable pub store_sorted_set : Bytes → SortedSet F → Cache F → Cache F
  store_sorted_set key v c =
      (on_shard key (λ s. (record s { sorted_sets = insert key v s.sorted_sets }, tt {0})) tt c).0

  -- The loop of `Scan` over the shards from number `i`: the keys found so far and their number.
  unfoldable pub scan_shards : ℕ → Bytes → ℤ → ℕ → ℕ → List Bytes → List (Shard F) → List Bytes × ℕ
  scan_shards now pattern count i offset keys [] = (keys, 0)
  scan_shards now pattern count i offset keys (s ∷ ss) =
      let left = sub_ℕ (pos_part count) (neg_part count + length keys) in
      let (found, next) = Shard.scan now offset pattern left s in
      let keys' = keys ++ found in
      let rest = scan_shards now pattern count (i + 1) 0 keys' ss in
      if not (ltb_ℤ (pos (length keys')) count) then (keys', i * 10000 + next) else rest

  -- `none` is a panic of the runtime, on an index below zero. A cursor from -1 to -9999 is the first
  -- shard with a negative offset, which is not read with a count that lets no key be read.
  unfoldable pub scan : ℕ → ℤ → Bytes → ℤ → Cache F → Option (List Bytes × ℤ)
  unfolding scan_shards
  scan now (pos cursor) pattern count c =
      let first = cursor / 10000 in
      some (widen (scan_shards now pattern count first (cursor % 10000) [] (drop first c.shards)))
  scan now (negsuc cursor) pattern count c =
      if ltb cursor 9999 && not (ltb_ℤ (pos 0) count) then some ([], negsuc cursor) else none
