-- ===== src/Handler/Sets.antt =====
-- internal/handler/set.go.
use pendem.Base.{ℕ, none, some, List, [], ◌∷◌, Bytes, codes, if◌then◌else◌}
use pendem.Engine.SetValue
use pendem.Engine.SetValue.{SetValue}
use pendem.Engine.Cache
use pendem.Engine.Cache.{Cache}
use pendem.Handler.{Command, log_command, wrong_args, count_reply, bulk_array}

module _ {F : Type 0} where
  -- `GetOrCreateSet`, and `Add` through the pointer that it returns.
  unfoldable pub sadd_cache : Bytes → List Bytes → Cache F → Cache F × ℕ
  sadd_cache key members c =
      let (c', set) = Cache.get_or_create_set key c in
      let (set', count) = SetValue.add set members in (Cache.store_set key set' c', count)

  unfoldable pub sadd : Command F
  unfolding sadd_cache
  sadd now (key ∷ member ∷ members) h =
      let (cache, count) = sadd_cache key (member ∷ members) h.cache in
      (
        log_command (codes "SADD") (key ∷ member ∷ members) (record h { cache = cache }),
        count_reply count,
      )
  sadd now _ h = (h, wrong_args (codes "sadd"))

  unfoldable pub srem : Command F
  srem now (key ∷ member ∷ members) h = elim (Cache.get_set key h.cache) [
    | none ↦ (h, count_reply 0)
    | some set ↦
        let (set', count) = SetValue.remove set (member ∷ members) in
        (
          log_command (codes "SREM") (key ∷ member ∷ members)
              (record h { cache = Cache.store_set key set' h.cache }),
          count_reply count,
        )
  ]
  srem now _ h = (h, wrong_args (codes "srem"))

  unfoldable pub smembers : Command F
  smembers now [] h = (h, wrong_args (codes "smembers"))
  smembers now (key ∷ args) h = elim (Cache.get_set key h.cache) [
    | none ↦ (h, bulk_array [])
    | some set ↦ (h, bulk_array (SetValue.members_of set))
  ]

  unfoldable pub sismember : Command F
  sismember now (key ∷ member ∷ args) h = elim (Cache.get_set key h.cache) [
    | none ↦ (h, count_reply 0)
    | some set ↦ (h, count_reply (if SetValue.is_member set member then 1 else 0))
  ]
  sismember now _ h = (h, wrong_args (codes "sismember"))

  unfoldable pub scard : Command F
  scard now [] h = (h, wrong_args (codes "scard"))
  scard now (key ∷ args) h = elim (Cache.get_set key h.cache) [
    | none ↦ (h, count_reply 0)
    | some set ↦ (h, count_reply (SetValue.len set))
  ]
