-- ===== src/Persistence/Replay/Handlers.antt =====
-- The handlers of the logged commands against `replayCommand`: one command
-- at a time.
use pendem.Base.{
  ℕ, ◌+◌, Bool, true, false, Option, none, some, List, [], ◌∷◌, Bytes, codes, equal, if◌then◌else◌,
  ◌≡◌, ◌⊎◌, inl, inr, refl, ap,
}
use pendem.Resp.{RespValue, null_bulk, bulk_string}
use pendem.Engine.ListValue.{ListValue, lpush, rpush, lpop, rpop}
use pendem.Engine.SetValue
use pendem.Engine.SortedSet.{Floats}
use pendem.Engine.Cache
use pendem.Engine.Cache.{Cache}
use pendem.Handler.{Handler, Command, log_command, pairs_of, count_reply}
use pendem.Handler.Strings.{delete, delete_loop}
use pendem.Handler.Hashes.{hset, hset_cache, hdel, delete_fields}
use pendem.Handler.Lists.{lpush_command, rpush_command, lpop_command, rpop_command, push_cache}
use pendem.Handler.Sets.{sadd, sadd_cache, srem}
use pendem.Handler.SortedSets.{zrem, remove_members}
use pendem.Handler.Batch.{mset, msetnx, set_all, any_key}
use pendem.Persistence.Replay.{
  delete_all, replay_named, replay_del, replay_hset, replay_hdel, replay_push, replay_pop,
  replay_sadd, replay_srem, replay_zrem, replay_mset, replay_msetnx,
}

module _ {F : Type 0} (fl : Floats F) where
  -- The handler logs nothing and changes nothing, or what it logs is replayed to its cache.
  abbrev pub ReplaysTo : Bytes → List Bytes → Cache F × Bool → Handler F → Handler F → Type 0
  ReplaysTo cmd args replayed h h' =
      (h' ≡ h)
      ⊎ ((c : Cache F) × (replayed ≡ (c, true))
          × (h' ≡ log_command cmd args (record h { cache = c })))

  abbrev pub Replays : ℕ → Bytes → List Bytes → Handler F → Handler F → Type 0
  Replays now cmd args h h' = ReplaysTo cmd args (replay_named fl now cmd args h.cache) h h'

  abbrev pub Faithful : Bytes → Command F → Type 0
  Faithful cmd command =
      (now : ℕ) (args : List Bytes) (h : Handler F) → Replays now cmd args h (command now args h).0

  option-replays :
      {X : Type 0} (o : Option X) (cmd : Bytes) (args : List Bytes) (h : Handler F)
      (keep : RespValue) (missing : Cache F × Bool) (next : X → Cache F × Bool)
      (step : X → Handler F × RespValue)
      → ((x : X) → ReplaysTo cmd args (next x) h (step x).0)
      → ReplaysTo cmd args
          (elim o [ none ↦ missing | some x ↦ next x ])
          h
          (elim o as (λ _. Handler F × RespValue) [ none ↦ (h, keep) | some x ↦ step x ]).0
  option-replays none cmd args h keep missing next step each = inl refl
  option-replays (some x) cmd args h keep missing next step each = each x

  delete_loop-delete_all :
      (keys : List Bytes) (c : Cache F) (n : ℕ) → (delete_loop keys c n).0 ≡ delete_all keys c
  unfolding delete_loop delete_all
  delete_loop-delete_all [] c n = refl
  delete_loop-delete_all (key ∷ keys) c n =
      delete_loop-delete_all keys (Cache.delete key c).0
        (if (Cache.delete key c).1 then n + 1 else n)

  pub delete-replays : Faithful (codes "DEL") delete
  unfolding delete replay_named replay_del equal
  delete-replays now [] h = inl refl
  delete-replays now (key ∷ keys) h = inr (
    delete_all (key ∷ keys) h.cache,
    refl,
    ap (λ c. log_command (codes "DEL") (key ∷ keys) (record h { cache = c }))
        (delete_loop-delete_all (key ∷ keys) h.cache 0),
  )

  pub hset-replays : Faithful (codes "HSET") hset
  unfolding hset replay_named replay_hset equal
  hset-replays now (key ∷ field ∷ value ∷ rest) h =
      option-replays (pairs_of (field ∷ value ∷ rest)) (codes "HSET") (key ∷ field ∷ value ∷ rest) h
        _ _ _ _ (λ ps. inr ((hset_cache key ps h.cache).0, refl, refl))
  hset-replays now [] h = inl refl
  hset-replays now (a ∷ []) h = inl refl
  hset-replays now (a ∷ b ∷ []) h = inl refl

  pub hdel-replays : Faithful (codes "HDEL") hdel
  unfolding hdel replay_named replay_hdel equal
  hdel-replays now (key ∷ field ∷ fields) h =
      option-replays (Cache.get_hash key h.cache) (codes "HDEL") (key ∷ field ∷ fields) h _ _ _ _
        (λ hash.
          inr (Cache.store_hash key (delete_fields (field ∷ fields) hash 0).0 h.cache, refl, refl))
  hdel-replays now [] h = inl refl
  hdel-replays now (a ∷ []) h = inl refl

  pub lpush-replays : Faithful (codes "LPUSH") lpush_command
  unfolding lpush_command replay_named replay_push equal
  lpush-replays now (key ∷ value ∷ values) h =
      inr ((push_cache lpush key (value ∷ values) h.cache).0, refl, refl)
  lpush-replays now [] h = inl refl
  lpush-replays now (a ∷ []) h = inl refl

  pub rpush-replays : Faithful (codes "RPUSH") rpush_command
  unfolding rpush_command replay_named replay_push equal
  rpush-replays now (key ∷ value ∷ values) h =
      inr ((push_cache rpush key (value ∷ values) h.cache).0, refl, refl)
  rpush-replays now [] h = inl refl
  rpush-replays now (a ∷ []) h = inl refl

  pop_step :
      (cmd key : Bytes) (args : List Bytes) (h : Handler F) (list : ListValue) (o : Option Bytes)
      → ReplaysTo cmd
          (key ∷ args)
          (Cache.store_list key list h.cache, true)
          h
          (elim o as (λ _. Handler F × RespValue) [
            | none ↦ (h, null_bulk)
            | some v ↦ (
              log_command cmd (key ∷ args) (record h { cache = Cache.store_list key list h.cache }),
              bulk_string v,
            )
          ]).0
  pop_step cmd key args h list none = inl refl
  pop_step cmd key args h list (some v) = inr (Cache.store_list key list h.cache, refl, refl)

  pub lpop-replays : Faithful (codes "LPOP") lpop_command
  unfolding lpop_command replay_named replay_pop equal
  lpop-replays now [] h = inl refl
  lpop-replays now (key ∷ args) h =
      option-replays (Cache.get_list key h.cache) (codes "LPOP") (key ∷ args) h _ _ _ _
        (λ list. pop_step (codes "LPOP") key args h (lpop list).0 (lpop list).1)

  pub rpop-replays : Faithful (codes "RPOP") rpop_command
  unfolding rpop_command replay_named replay_pop equal
  rpop-replays now [] h = inl refl
  rpop-replays now (key ∷ args) h =
      option-replays (Cache.get_list key h.cache) (codes "RPOP") (key ∷ args) h _ _ _ _
        (λ list. pop_step (codes "RPOP") key args h (rpop list).0 (rpop list).1)

  pub sadd-replays : Faithful (codes "SADD") sadd
  unfolding sadd replay_named replay_sadd equal
  sadd-replays now (key ∷ member ∷ members) h =
      inr ((sadd_cache key (member ∷ members) h.cache).0, refl, refl)
  sadd-replays now [] h = inl refl
  sadd-replays now (a ∷ []) h = inl refl

  pub srem-replays : Faithful (codes "SREM") srem
  unfolding srem replay_named replay_srem equal
  srem-replays now (key ∷ member ∷ members) h =
      option-replays (Cache.get_set key h.cache) (codes "SREM") (key ∷ member ∷ members) h _ _ _ _
        (λ s.
          inr (Cache.store_set key (SetValue.remove s (member ∷ members)).0 h.cache, refl, refl))
  srem-replays now [] h = inl refl
  srem-replays now (a ∷ []) h = inl refl

  pub zrem-replays : Faithful (codes "ZREM") zrem
  unfolding zrem replay_named replay_zrem equal
  zrem-replays now (key ∷ member ∷ members) h =
      option-replays (Cache.get_sorted_set key h.cache) (codes "ZREM") (key ∷ member ∷ members) h _
        _ _ _
        (λ ss. inr (
          Cache.store_sorted_set key (remove_members (member ∷ members) ss 0).0 h.cache,
          refl,
          refl,
        ))
  zrem-replays now [] h = inl refl
  zrem-replays now (a ∷ []) h = inl refl

  pub mset-replays : Faithful (codes "MSET") mset
  unfolding mset replay_named replay_mset equal
  mset-replays now (key ∷ value ∷ rest) h =
      option-replays (pairs_of (key ∷ value ∷ rest)) (codes "MSET") (key ∷ value ∷ rest) h _ _ _ _
        (λ ps. inr (set_all now ps h.cache, refl, refl))
  mset-replays now [] h = inl refl
  mset-replays now (a ∷ []) h = inl refl

  msetnx_step :
      (there : Bool) (c : Cache F) (args : List Bytes) (h : Handler F)
      → ReplaysTo
          (codes "MSETNX")
          args
          ((if there then h.cache else c), true)
          h
          (let step : Handler F × RespValue =
              if there
              then (h, count_reply 0)
              else (log_command (codes "MSETNX") args (record h { cache = c }), count_reply 1) in
            step.0)
  msetnx_step true c args h = inl refl
  msetnx_step false c args h = inr (c, refl, refl)

  pub msetnx-replays : Faithful (codes "MSETNX") msetnx
  unfolding msetnx replay_named replay_msetnx equal
  msetnx-replays now (key ∷ value ∷ rest) h =
      option-replays (pairs_of (key ∷ value ∷ rest)) (codes "MSETNX") (key ∷ value ∷ rest) h _ _ _ _
        (λ ps. msetnx_step (any_key ps h.cache) (set_all now ps h.cache) (key ∷ value ∷ rest) h)
  msetnx-replays now [] h = inl refl
  msetnx-replays now (a ∷ []) h = inl refl
