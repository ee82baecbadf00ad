-- ===== src/Engine/Shard.antt =====
-- internal/engine/shard.go. A method that takes the lock once is one step; `get` and `ttl` take it
-- twice, and are the two steps in a row. The containers are reached by pointers that the maps keep
-- for good, so a write through one is a write of the map's entry.
pub mod Race
pub mod Fill
pub mod Live
use pendem.Base.{
  ℕ, zero, suc, ◌+◌, ◌-◌, ◌*◌, ◌/◌, ◌^◌, Bool, true, false, ◌&&◌, not, Option, none, some, List, [],
  ◌∷◌, ◌++◌, Bytes, Map, codes, equal, length, drop, ltb, if◌then◌else◌, lookup, insert,
}
use pendem.Base.Int.{ℤ, pos, negsuc, ltb_ℤ, pos_part}
use pendem.Engine.Item.{Item, new_item, is_expired, item_ttl}
use pendem.Engine.Lru
use pendem.Engine.Lru.{Lru}
use pendem.Engine.Hash.{Hash, new_hash}
use pendem.Engine.ListValue.{ListValue, new_list}
use pendem.Engine.SetValue.{SetValue, new_set}
use pendem.Engine.SortedSet.{SortedSet, new_sorted_set}
use pendem.Engine.Pattern.{match_pattern}

-- The fields of `config.EngineConfig` that the engine reads.
pub record EngineConfig : Type 0 where
  pub max_memory : ℤ
  pub eviction_policy : Bytes
  pub evictor_capacity : ℤ
  pub shard_count : ℤ
  pub default_ttl : ℤ

pub record Shard (F : Type 0) : Type 0 where
  pub policy : Bytes
  pub evictor : Lru
  pub hashes : Map Hash
  pub lists : Map ListValue
  pub sets : Map SetValue
  pub sorted_sets : Map (SortedSet F)

-- `int64(ttl.Seconds())` of a duration that is not negative. (Beyond some fifty days the sum in
-- float64 may round up to the next second; here the quotient is exact.)
abbrev seconds : ℕ → ℤ
seconds ns = pos (ns / 10 ^ 9)

-- The walk over the map, which removes what it finds expired.
unfoldable pub cleanup_loop : ℕ → Map ℕ → Lru → Lru
cleanup_loop now [] l = l
cleanup_loop now ((key, i) ∷ m) l = elim (Lru.find_element i l.order) [
  | none ↦ cleanup_loop now m l
  | some e ↦
      let l' : Lru = if is_expired now e.value then (Lru.remove key l).0 else l in
      cleanup_loop now m l'
]

unfoldable pub restore_loop : Map Item → Lru → Lru
restore_loop [] l = l
restore_loop ((key, item) ∷ m) l = restore_loop m (Lru.add key item l)

-- The loop of `Scan` over the keys from the offset, at most `limit` of them that match.
unfoldable pub scan_loop : Bytes → ℕ → List Bytes → List Bytes
scan_loop pattern limit [] = []
scan_loop pattern zero (key ∷ rest) = []
scan_loop pattern (suc limit) (key ∷ rest) = elim (match_pattern key pattern) [
  | true ↦ key ∷ scan_loop pattern limit rest
  | false ↦ scan_loop pattern (suc limit) rest
]

module _ {F : Type 0} where
  -- Every policy ends as "lru".
  unfoldable pub new_shard : EngineConfig → Shard F
  new_shard cfg = record {
    policy = codes "lru";
    evictor = Lru.new_lru_with_memory cfg.evictor_capacity cfg.max_memory;
    hashes = [];
    lists = [];
    sets = [];
    sorted_sets = [];
  }

  unfoldable pub has_key : Bytes → Shard F → Bool
  has_key key s = Lru.has key s.evictor

  unfoldable pub set : ℕ → Bytes → Bytes → ℤ → Shard F → Shard F
  set now key value ttl s = record s { evictor = Lru.add key (new_item now value ttl) s.evictor }

  -- The first half of `Get` and `TTL`: the entry, with the move to the front.
  unfoldable pub fetch : Bytes → Shard F → Shard F × Option Item
  fetch key s =
      let (evictor, item) = Lru.get key s.evictor in (record s { evictor = evictor }, item)

  -- `evictor.Remove(key)` under the lock.
  unfoldable pub delete : Bytes → Shard F → Shard F × Bool
  delete key s =
      let (evictor, found) = Lru.remove key s.evictor in (record s { evictor = evictor }, found)

  -- The second half of `Get`: an entry that is expired is removed.
  unfoldable pub finish_get : ℕ → Bytes → Option Item → Shard F → Shard F × Option Bytes
  finish_get now key none s = (s, none)
  finish_get now key (some item) s =
      if is_expired now item then ((delete key s).0, none) else (s, some item.value)

  unfoldable pub get : ℕ → Bytes → Shard F → Shard F × Option Bytes
  get now key s = let (s', item) = fetch key s in finish_get now key item s'

  unfoldable pub finish_ttl : ℕ → Bytes → Option Item → Shard F → Shard F × ℤ
  finish_ttl now key none s = (s, negsuc 1)
  finish_ttl now key (some item) s =
      if is_expired now item
      then ((delete key s).0, negsuc 1)
      else (s, elim (item_ttl now item) [ negsuc n ↦ negsuc 0 | pos ns ↦ seconds ns ])

  unfoldable pub ttl : ℕ → Bytes → Shard F → Shard F × ℤ
  ttl now key s = let (s', item) = fetch key s in finish_ttl now key item s'

  unfoldable pub memory_usage : Shard F → ℕ
  memory_usage s = Lru.memory_usage s.evictor

  unfoldable pub size : Shard F → ℕ
  size s = Lru.len s.evictor

  unfoldable pub max_capacity : Shard F → ℤ
  max_capacity s = s.evictor.capacity

  unfoldable pub cleanup_expired : ℕ → Shard F → Shard F
  cleanup_expired now s = record s { evictor = cleanup_loop now s.evictor.items s.evictor }

  unfoldable pub get_items : ℕ → Shard F → Map Item
  get_items now s = Lru.get_items now s.evictor

  unfoldable pub restore : Map Item → Shard F → Shard F
  unfolding restore_loop
  restore items s = record s { evictor = restore_loop items s.evictor }

  -- GetHash and the like.
  abbrev pub get_hash : Bytes → Shard F → Option Hash
  get_hash key s = lookup key s.hashes

  abbrev pub get_list : Bytes → Shard F → Option ListValue
  get_list key s = lookup key s.lists

  abbrev pub get_set : Bytes → Shard F → Option SetValue
  get_set key s = lookup key s.sets

  abbrev pub get_sorted_set : Bytes → Shard F → Option (SortedSet F)
  get_sorted_set key s = lookup key s.sorted_sets

  unfoldable pub get_or_create_hash : Bytes → Shard F → Shard F × Hash
  get_or_create_hash key s = elim (lookup key s.hashes) [
    | some h ↦ (s, h)
    | none ↦ (record s { hashes = insert key new_hash s.hashes }, new_hash)
  ]

  unfoldable pub get_or_create_list : Bytes → Shard F → Shard F × ListValue
  get_or_create_list key s = elim (lookup key s.lists) [
    | some l ↦ (s, l)
    | none ↦ (record s { lists = insert key new_list s.lists }, new_list)
  ]

  unfoldable pub get_or_create_set : Bytes → Shard F → Shard F × SetValue
  get_or_create_set key s = elim (lookup key s.sets) [
    | some v ↦ (s, v)
    | none ↦ (record s { sets = insert key new_set s.sets }, new_set)
  ]

  unfoldable pub get_or_create_sorted_set : Bytes → Shard F → Shard F × SortedSet F
  get_or_create_sorted_set key s = elim (lookup key s.sorted_sets) [
    | some v ↦ (s, v)
    | none ↦ (record s { sorted_sets = insert key new_sorted_set s.sorted_sets }, new_sorted_set)
  ]

  -- A limit that is not positive finds nothing. The next offset is the old one and the number of
  -- keys found.
  unfoldable pub scan : ℕ → ℕ → Bytes → ℤ → Shard F → List Bytes × ℕ
  unfolding scan_loop
  scan now offset pattern limit s =
      let keys = scan_loop pattern (pos_part limit) (drop offset (Lru.get_keys now s.evictor)) in
      (keys, offset + length keys)
