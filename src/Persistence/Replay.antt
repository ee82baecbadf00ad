-- ===== src/Persistence/Replay.antt =====
-- `replayCommand` of internal/persistence/aof.go: what a logged command does to the cache when the
-- log is loaded. The flag is false where the code returns an error.
pub mod Handlers
pub mod Reads
pub mod Scores
pub mod Faithful
pub mod History
use pendem.Base.{
  ℕ, ◌^◌, Bool, true, false, Option, none, some, List, [], ◌∷◌, Bytes, codes, equal, if◌then◌else◌,
}
use pendem.Base.Int.{ℤ, pos}
use pendem.Base.Strconv.{parse_int, to_upper}
use pendem.Resp.{RespValue, elements}
use pendem.Engine.Hash.{Hash}
use pendem.Engine.ListValue.{ListValue, lpush, rpush, lpop, rpop}
use pendem.Engine.SetValue
use pendem.Engine.SortedSet.{SortedSet, Floats}
use pendem.Engine.Cache
use pendem.Engine.Cache.{Cache}
use pendem.Handler.{pairs_of}
use pendem.Handler.Strings.{ttl_of}
use pendem.Handler.Hashes.{hset_cache, delete_fields}
use pendem.Handler.Lists.{push_cache}
use pendem.Handler.Sets.{sadd_cache}
use pendem.Handler.SortedSets.{zadd_cache, remove_members}
use pendem.Handler.Batch.{set_all, any_key}
use pendem.Server.{parse_cmd}

-- Only EX is understood.
unfoldable pub replayed_ttl : List Bytes → ℤ
replayed_ttl (option ∷ n ∷ rest) =
    if equal (to_upper option) (codes "EX") then ttl_of (parse_int n) (10 ^ 9) else pos 0
replayed_ttl _ = pos 0

module _ {F : Type 0} where
  unfoldable pub replay_set : ℕ → List Bytes → Cache F → Cache F × Bool
  unfolding replayed_ttl
  replay_set now (key ∷ value ∷ options) c =
      (Cache.set now key value (replayed_ttl options) c, true)
  replay_set now _ c = (c, false)

  unfoldable pub delete_all : List Bytes → Cache F → Cache F
  delete_all [] c = c
  delete_all (key ∷ keys) c = delete_all keys (Cache.delete key c).0

  unfoldable pub replay_del : List Bytes → Cache F → Cache F × Bool
  unfolding delete_all
  replay_del [] c = (c, false)
  replay_del (key ∷ keys) c = (delete_all (key ∷ keys) c, true)

  unfoldable pub replay_hset : List Bytes → Cache F → Cache F × Bool
  replay_hset (key ∷ field ∷ value ∷ rest) c = elim (pairs_of (field ∷ value ∷ rest)) [
    | none ↦ (c, false)
    | some ps ↦ ((hset_cache key ps c).0, true)
  ]
  replay_hset _ c = (c, false)

  unfoldable pub replay_hdel : List Bytes → Cache F → Cache F × Bool
  replay_hdel (key ∷ field ∷ fields) c = elim (Cache.get_hash key c) [
    | none ↦ (c, true)
    | some hash ↦ (Cache.store_hash key (delete_fields (field ∷ fields) hash 0).0 c, true)
  ]
  replay_hdel _ c = (c, false)

  unfoldable pub replay_push :
      (ListValue → List Bytes → ListValue × ℕ) → List Bytes → Cache F → Cache F × Bool
  replay_push push (key ∷ value ∷ values) c = ((push_cache push key (value ∷ values) c).0, true)
  replay_push push _ c = (c, false)

  -- The list is written back whether or not there was an element.
  unfoldable pub replay_pop :
      (ListValue → ListValue × Option Bytes) → List Bytes → Cache F → Cache F × Bool
  replay_pop pop [] c = (c, false)
  replay_pop pop (key ∷ args) c = elim (Cache.get_list key c) [
    | none ↦ (c, true)
    | some list ↦ (Cache.store_list key (pop list).0 c, true)
  ]

  unfoldable pub replay_sadd : List Bytes → Cache F → Cache F × Bool
  replay_sadd (key ∷ member ∷ members) c = ((sadd_cache key (member ∷ members) c).0, true)
  replay_sadd _ c = (c, false)

  unfoldable pub replay_srem : List Bytes → Cache F → Cache F × Bool
  replay_srem (key ∷ member ∷ members) c = elim (Cache.get_set key c) [
    | none ↦ (c, true)
    | some set ↦ (Cache.store_set key (SetValue.remove set (member ∷ members)).0 c, true)
  ]
  replay_srem _ c = (c, false)

  unfoldable pub replay_zrem : List Bytes → Cache F → Cache F × Bool
  replay_zrem (key ∷ member ∷ members) c = elim (Cache.get_sorted_set key c) [
    | none ↦ (c, true)
    | some ss ↦ (Cache.store_sorted_set key (remove_members (member ∷ members) ss 0).0 c, true)
  ]
  replay_zrem _ c = (c, false)

  unfoldable pub replay_mset : ℕ → List Bytes → Cache F → Cache F × Bool
  replay_mset now (key ∷ value ∷ rest) c = elim (pairs_of (key ∷ value ∷ rest)) [
    | none ↦ (c, false)
    | some ps ↦ (set_all now ps c, true)
  ]
  replay_mset now _ c = (c, false)

  unfoldable pub replay_msetnx : ℕ → List Bytes → Cache F → Cache F × Bool
  replay_msetnx now (key ∷ value ∷ rest) c = elim (pairs_of (key ∷ value ∷ rest)) [
    | none ↦ (c, false)
    | some ps ↦ (if any_key ps c then c else set_all now ps c, true)
  ]
  replay_msetnx now _ c = (c, false)

module _ {F : Type 0} (fl : Floats F) where
  unfoldable pub added : Cache F × Option ℕ → Cache F × Bool
  added (c, none) = (c, false)
  added (c, some count) = (c, true)

  -- A score that is no float ends the command with what was added before it.
  unfoldable pub replay_zadd : List Bytes → Cache F → Cache F × Bool
  unfolding added
  replay_zadd (key ∷ score ∷ member ∷ rest) c = elim (pairs_of (score ∷ member ∷ rest)) [
    | none ↦ (c, false)
    | some ps ↦ added (zadd_cache fl key ps c)
  ]
  replay_zadd _ c = (c, false)

  -- What is not listed is skipped, without an error.
  unfoldable pub replay_named : ℕ → Bytes → List Bytes → Cache F → Cache F × Bool
  unfolding replay_set replay_del replay_hset replay_hdel replay_push replay_pop replay_sadd
      replay_srem replay_zadd replay_zrem replay_mset replay_msetnx
  replay_named now cmd args c =
      if equal cmd (codes "SET")
      then replay_set now args c
      else if equal cmd (codes "DEL")
      then replay_del args c
      else if equal cmd (codes "HSET")
      then replay_hset args c
      else if equal cmd (codes "HDEL")
      then replay_hdel args c
      else if equal cmd (codes "LPUSH")
      then replay_push lpush args c
      else if equal cmd (codes "RPUSH")
      then replay_push rpush args c
      else if equal cmd (codes "LPOP")
      then replay_pop lpop args c
      else if equal cmd (codes "RPOP")
      then replay_pop rpop args c
      else if equal cmd (codes "SADD")
      then replay_sadd args c
      else if equal cmd (codes "SREM")
      then replay_srem args c
      else if equal cmd (codes "ZADD")
      then replay_zadd args c
      else if equal cmd (codes "ZREM")
      then replay_zrem args c
      else if equal cmd (codes "MSET")
      then replay_mset now args c
      else if equal cmd (codes "MSETNX")
      then replay_msetnx now args c
      else (c, true)

  -- The command and its bulk strings are taken as the server takes them.
  unfoldable pub replay_command : ℕ → RespValue → Cache F → Cache F × Bool
  unfolding replay_named
  replay_command now value c = elim (elements value) [
    | [] ↦ (c, false)
    | v ∷ vs ↦ let (cmd, args) = parse_cmd (v ∷ vs) in replay_named now cmd args c
  ]

  -- The loop of `Load` over the values of the log; an error is logged and passed over.
  unfoldable pub replay_all : ℕ → List RespValue → Cache F → Cache F
  replay_all now [] c = c
  replay_all now (v ∷ vs) c = replay_all now vs (replay_command now v c).0
