-- ===== src/Handler/Batch.antt =====
-- internal/handler/batch.go.
use pendem.Base.{ℕ, Bool, false, ◌||◌, none, some, List, [], ◌∷◌, Bytes, codes, if◌then◌else◌}
use pendem.Base.Int.{pos}
use pendem.Resp.{RespValue, simple_string, array, from_list}
use pendem.Engine.Cache
use pendem.Engine.Cache.{Cache}
use pendem.Handler.{Command, log_command, wrong_args, count_reply, bulk_or_null, pairs_of}

module _ {F : Type 0} where
  unfoldable pub get_all : ℕ → List Bytes → Cache F → Cache F × List RespValue
  get_all now [] c = (c, [])
  get_all now (key ∷ keys) c =
      let (c', value) = Cache.get now key c in
      let (c'', values) = get_all now keys c' in (c'', bulk_or_null value ∷ values)

  unfoldable pub mget : Command F
  unfolding get_all
  mget now [] h = (h, wrong_args (codes "mget"))
  mget now (key ∷ keys) h =
      let (cache, values) = get_all now (key ∷ keys) h.cache in
      (record h { cache = cache }, array (from_list values))

  unfoldable pub set_all : ℕ → List (Bytes × Bytes) → Cache F → Cache F
  set_all now [] c = c
  set_all now ((key, value) ∷ ps) c = set_all now ps (Cache.set now key value (pos 0) c)

  unfoldable pub any_key : List (Bytes × Bytes) → Cache F → Bool
  any_key [] c = false
  any_key ((key, value) ∷ ps) c = Cache.has_key key c || any_key ps c

  unfoldable pub mset : Command F
  unfolding set_all pairs_of
  mset now (key ∷ value ∷ rest) h = elim (pairs_of (key ∷ value ∷ rest)) [
    | none ↦ (h, wrong_args (codes "mset"))
    | some ps ↦ (
      log_command (codes "MSET") (key ∷ value ∷ rest) (record h { cache = set_all now ps h.cache }),
      simple_string (codes "OK"),
    )
  ]
  mset now _ h = (h, wrong_args (codes "mset"))

  unfoldable pub msetnx : Command F
  unfolding set_all any_key pairs_of
  msetnx now (key ∷ value ∷ rest) h = elim (pairs_of (key ∷ value ∷ rest)) [
    | none ↦ (h, wrong_args (codes "msetnx"))
    | some ps ↦ if any_key ps h.cache then (h, count_reply 0) else (
      log_command (codes "MSETNX") (key ∷ value ∷ rest)
          (record h { cache = set_all now ps h.cache }),
      count_reply 1,
    )
  ]
  msetnx now _ h = (h, wrong_args (codes "msetnx"))
