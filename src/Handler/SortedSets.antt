-- ===== src/Handler/SortedSets.antt =====
-- internal/handler/sortedset.go.
use pendem.Base.{
  ℕ, ◌+◌, Bool, false, Option, none, some, List, [], ◌∷◌, Bytes, codes, equal, if◌then◌else◌,
}
use pendem.Base.Int.{ℤ}
use pendem.Base.Strconv.{parse_int}
use pendem.Resp.{RespValue, error, null_bulk, bulk_string}
use pendem.Engine.SortedSet
use pendem.Engine.SortedSet.{SortedSet, Floats}
use pendem.Engine.Cache
use pendem.Engine.Cache.{Cache}
use pendem.Handler.{
  Handler, Command, log_command, wrong_args, not_an_integer, count_reply, bulk_array, pairs_of,
}

module _ {F : Type 0} (fl : Floats F) where
  -- The loop of ZADD: it stops at a score that is no float, with what was added before it; then
  -- there is no count.
  unfoldable pub add_scores : List (Bytes × Bytes) → SortedSet F → ℕ → SortedSet F × Option ℕ
  add_scores [] ss count = (ss, some count)
  add_scores ((s, member) ∷ ps) ss count = elim (fl.parse_float s) [
    | none ↦ (ss, none)
    | some score ↦
        let (ss', fresh) = SortedSet.add ss score member in
        add_scores ps ss' (if fresh then count + 1 else count)
  ]

  -- `GetOrCreateSortedSet`, and the additions through the pointer that it returns.
  unfoldable pub zadd_cache : Bytes → List (Bytes × Bytes) → Cache F → Cache F × Option ℕ
  unfolding add_scores
  zadd_cache key ps c =
      let (c', ss) = Cache.get_or_create_sorted_set key c in
      let (ss', count) = add_scores ps ss 0 in (Cache.store_sorted_set key ss' c', count)

  unfoldable pub zadd_reply : List Bytes → Handler F → Cache F × Option ℕ → Handler F × RespValue
  zadd_reply args h (cache, none) =
      (record h { cache = cache }, error (codes "ERR value is not a valid float"))
  zadd_reply args h (cache, some count) =
      (log_command (codes "ZADD") args (record h { cache = cache }), count_reply count)

  unfoldable pub zadd : Command F
  unfolding zadd_cache zadd_reply pairs_of
  zadd now (key ∷ score ∷ member ∷ rest) h = elim (pairs_of (score ∷ member ∷ rest)) [
    | none ↦ (h, wrong_args (codes "zadd"))
    | some ps ↦ zadd_reply (key ∷ score ∷ member ∷ rest) h (zadd_cache key ps h.cache)
  ]
  zadd now _ h = (h, wrong_args (codes "zadd"))

  -- Names and, on demand, scores.
  with_scores : Bool → List (Bytes × F) → List Bytes
  with_scores scores [] = []
  with_scores scores ((m, s) ∷ ms) =
      let rest = with_scores scores ms in m ∷ (if scores then fl.format_float s ∷ rest else rest)

  range_reply : Bool → Option (SortedSet F) → Option ℤ → Option ℤ → RespValue
  range_reply scores found (some start) (some stop) = elim found [
    | none ↦ bulk_array []
    | some ss ↦ bulk_array (with_scores scores (SortedSet.range fl ss start stop))
  ]
  range_reply scores found _ _ = not_an_integer

  abbrev asks_scores : List Bytes → Bool
  asks_scores [] = false
  asks_scores (option ∷ rest) = equal option (codes "WITHSCORES")

  unfoldable pub zrange : Command F
  unfolding range_reply with_scores
  zrange now (key ∷ start ∷ stop ∷ args) h = (
    h,
    range_reply (asks_scores args) (Cache.get_sorted_set key h.cache) (parse_int start)
        (parse_int stop),
  )
  zrange now _ h = (h, wrong_args (codes "zrange"))

  unfoldable pub zscore : Command F
  zscore now (key ∷ member ∷ args) h = elim (Cache.get_sorted_set key h.cache) [
    | none ↦ (h, null_bulk)
    | some ss ↦ (
      h,
      elim (SortedSet.score ss member) [
        | none ↦ null_bulk
        | some s ↦ bulk_string (fl.format_float s)
      ],
    )
  ]
  zscore now _ h = (h, wrong_args (codes "zscore"))

module _ {F : Type 0} where
  -- The loop of ZREM.
  unfoldable pub remove_members : List Bytes → SortedSet F → ℕ → SortedSet F × ℕ
  remove_members [] ss count = (ss, count)
  remove_members (m ∷ ms) ss count =
      let (ss', found) = SortedSet.remove ss m in
      remove_members ms ss' (if found then count + 1 else count)

  unfoldable pub zrem : Command F
  unfolding remove_members
  zrem now (key ∷ member ∷ members) h = elim (Cache.get_sorted_set key h.cache) [
    | none ↦ (h, count_reply 0)
    | some ss ↦
        let (ss', count) = remove_members (member ∷ members) ss 0 in
        (
          log_command (codes "ZREM") (key ∷ member ∷ members)
              (record h { cache = Cache.store_sorted_set key ss' h.cache }),
          count_reply count,
        )
  ]
  zrem now _ h = (h, wrong_args (codes "zrem"))

  unfoldable pub zcard : Command F
  zcard now [] h = (h, wrong_args (codes "zcard"))
  zcard now (key ∷ args) h = elim (Cache.get_sorted_set key h.cache) [
    | none ↦ (h, count_reply 0)
    | some ss ↦ (h, count_reply (SortedSet.len ss))
  ]
