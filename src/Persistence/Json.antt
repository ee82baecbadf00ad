-- ===== src/Persistence/Json.antt =====
-- The data of the snapshots of internal/persistence/json.go. Its text is that of encoding/json,
-- which is a parameter of `load`: it reads the data, or refuses the text.
pub mod Info
pub mod RoundTrip
use pendem.Base.{
  ℕ, suc, ◌+◌, ◌/◌, ◌^◌, Option, none, some, List, [], ◌∷◌, Bytes, Map, codes, equal, length,
  set as set_elem, if◌then◌else◌,
}
use pendem.Base.Int.{ℤ, pos, negsuc}
use pendem.Engine.Item.{Item}
use pendem.Engine.Shard
use pendem.Engine.Shard.{Shard}
use pendem.Engine.Cache.{Cache, shard_at}

pub record JsonShard : Type 0 where
  pub id : ℤ
  pub items : Map Item

pub record JsonData : Type 0 where
  pub version : Bytes
  pub timestamp : ℤ
  pub num_shards : ℤ
  pub total_items : ℤ
  pub shards : List JsonShard

-- How `Load` ends: a panic is of the runtime.
pub data JsonEnd : Type 0 where
  restored refused crashed : JsonEnd

count_items : List JsonShard → ℕ
count_items [] = 0
count_items (s ∷ ss) = length s.items + count_items ss

module _ {F : Type 0} where
  unfoldable collect_shards : ℕ → ℕ → List (Shard F) → List JsonShard
  collect_shards now id [] = []
  collect_shards now id (s ∷ ss) =
      record { id = pos id; items = Shard.get_items now s } ∷ collect_shards now (suc id) ss

  -- collectData, at one time.
  unfoldable pub collect_data : ℕ → Cache F → JsonData
  unfolding collect_shards count_items
  collect_data now c =
      let shards = collect_shards now 0 c.shards in
      record {
        version = codes "1.0";
        timestamp = pos (now / 10 ^ 9);
        num_shards = pos c.num_shards;
        total_items = pos (count_items shards);
        shards = shards;
      }

  -- `GetShard` panics on a number out of range, so that no shard is skipped.
  unfoldable restore_into : ℤ → Map Item → Cache F → Option (Cache F)
  restore_into (negsuc n) items c = none
  restore_into (pos n) items c = elim (shard_at n c) [
    | none ↦ none
    | some s ↦ some (record c { shards = set_elem c.shards n (Shard.restore items s) })
  ]

  unfoldable restore_shards : List JsonShard → Cache F → Cache F × JsonEnd
  unfolding restore_into
  restore_shards [] c = (c, restored)
  restore_shards (s ∷ ss) c = elim (restore_into s.id s.items c) [
    | none ↦ (c, crashed)
    | some c' ↦ restore_shards ss c'
  ]

  -- restoreData
  unfoldable pub restore_data : JsonData → Cache F → Cache F × JsonEnd
  unfolding restore_shards
  restore_data d c =
      if equal d.version (codes "1.0") then restore_shards d.shards c else (c, refused)

  -- With no file the cache stays as it is, and that is no error.
  unfoldable pub load : (Bytes → Option JsonData) → Option Bytes → Cache F → Cache F × JsonEnd
  unfolding restore_data
  load unmarshal none c = (c, restored)
  load unmarshal (some text) c = elim (unmarshal text) [
    | none ↦ (c, refused)
    | some d ↦ restore_data d c
  ]
