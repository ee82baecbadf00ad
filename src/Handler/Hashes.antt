-- ===== src/Handler/Hashes.antt =====
-- internal/handler/hash.go.
use pendem.Base.{ℕ, ◌+◌, none, some, List, [], ◌∷◌, Bytes, Map, codes, if◌then◌else◌}
use pendem.Resp.{null_bulk}
use pendem.Engine.Hash
use pendem.Engine.Hash.{Hash}
use pendem.Engine.Cache
use pendem.Engine.Cache.{Cache}
use pendem.Handler.{
  Command, log_command, wrong_args, count_reply, bulk_or_null, bulk_array, pairs_of,
}

-- The loop of HSET: the fields that were not there are counted.
unfoldable pub set_fields : List (Bytes × Bytes) → Hash → ℕ → Hash × ℕ
set_fields [] hash count = (hash, count)
set_fields ((field, value) ∷ ps) hash count =
    set_fields ps (Hash.set hash field value) (if Hash.has hash field then count else count + 1)

-- The loop of HDEL.
unfoldable pub delete_fields : List Bytes → Hash → ℕ → Hash × ℕ
delete_fields [] hash count = (hash, count)
delete_fields (field ∷ fields) hash count =
    let (hash', found) = Hash.delete_field hash field in
    delete_fields fields hash' (if found then count + 1 else count)

flatten_fields : Map Bytes → List Bytes
flatten_fields [] = []
flatten_fields ((field, value) ∷ m) = field ∷ value ∷ flatten_fields m

module _ {F : Type 0} where
  -- `GetOrCreateHash` and the writes through the pointer that it returns.
  unfoldable pub hset_cache : Bytes → List (Bytes × Bytes) → Cache F → Cache F × ℕ
  unfolding set_fields
  hset_cache key ps c =
      let (c', hash) = Cache.get_or_create_hash key c in
      let (hash', count) = set_fields ps hash 0 in (Cache.store_hash key hash' c', count)

  unfoldable pub hset : Command F
  unfolding hset_cache pairs_of
  hset now (key ∷ field ∷ value ∷ rest) h = elim (pairs_of (field ∷ value ∷ rest)) [
    | none ↦ (h, wrong_args (codes "hset"))
    | some ps ↦
        let (cache, count) = hset_cache key ps h.cache in
        (
          log_command (codes "HSET") (key ∷ field ∷ value ∷ rest) (record h { cache = cache }),
          count_reply count,
        )
  ]
  hset now _ h = (h, wrong_args (codes "hset"))

  unfoldable pub hget : Command F
  hget now (key ∷ field ∷ args) h = elim (Cache.get_hash key h.cache) [
    | none ↦ (h, null_bulk)
    | some hash ↦ (h, bulk_or_null (Hash.get hash field))
  ]
  hget now _ h = (h, wrong_args (codes "hget"))

  unfoldable pub hgetall : Command F
  unfolding flatten_fields
  hgetall now [] h = (h, wrong_args (codes "hgetall"))
  hgetall now (key ∷ args) h = elim (Cache.get_hash key h.cache) [
    | none ↦ (h, bulk_array [])
    | some hash ↦ (h, bulk_array (flatten_fields (Hash.get_all hash)))
  ]

  unfoldable pub hdel : Command F
  unfolding delete_fields
  hdel now (key ∷ field ∷ fields) h = elim (Cache.get_hash key h.cache) [
    | none ↦ (h, count_reply 0)
    | some hash ↦
        let (hash', count) = delete_fields (field ∷ fields) hash 0 in
        (
          log_command (codes "HDEL") (key ∷ field ∷ fields)
              (record h { cache = Cache.store_hash key hash' h.cache }),
          count_reply count,
        )
  ]
  hdel now _ h = (h, wrong_args (codes "hdel"))

  unfoldable pub hlen : Command F
  hlen now [] h = (h, wrong_args (codes "hlen"))
  hlen now (key ∷ args) h = elim (Cache.get_hash key h.cache) [
    | none ↦ (h, count_reply 0)
    | some hash ↦ (h, count_reply (Hash.len hash))
  ]

  unfoldable pub hexists : Command F
  hexists now (key ∷ field ∷ args) h = elim (Cache.get_hash key h.cache) [
    | none ↦ (h, count_reply 0)
    | some hash ↦ (h, elim (Hash.get hash field) [ none ↦ count_reply 0 | some v ↦ count_reply 1 ])
  ]
  hexists now _ h = (h, wrong_args (codes "hexists"))

  unfoldable pub hkeys : Command F
  hkeys now [] h = (h, wrong_args (codes "hkeys"))
  hkeys now (key ∷ args) h = elim (Cache.get_hash key h.cache) [
    | none ↦ (h, bulk_array [])
    | some hash ↦ (h, bulk_array (Hash.keys hash))
  ]

  unfoldable pub hvals : Command F
  hvals now [] h = (h, wrong_args (codes "hvals"))
  hvals now (key ∷ args) h = elim (Cache.get_hash key h.cache) [
    | none ↦ (h, bulk_array [])
    | some hash ↦ (h, bulk_array (Hash.values hash))
  ]
