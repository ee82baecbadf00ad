-- ===== src/CacheTests.antt =====
-- Runs of the theorems on the containers, the cache and the string handlers at concrete inputs.
use mathlib.Core.List.{Perm}
use pendem.Base.{◌↔◌, All, ◌*◌, ◌⊎◌}
use pendem.Engine.Lru
use pendem.Base.Strconv.{parse_uint, format_uint}
use pendem.Engine.SortedSet.{Floats, SortedSet, range}
use pendem.Engine.SortedSet.Order.{IsOrder, IsOrdered, range-IsOrdered}
use pendem.Base.{
  ℕ, ◌+◌, ◌<◌, ◌≤◌, ltb, Bool, true, false, not, ◌&&◌, ◌||◌, Option, none, some, List, [], ◌∷◌,
  ◌++◌, reverse, Bytes, codes, equal, length, replicate, take, drop, lookup, insert, delete,
  if◌then◌else◌, ◌≡◌, ◌∙◌, refl, arith,
}
use pendem.Base.Int.{ℤ, pos, negsuc, pos_part}
use pendem.Engine.Item.{new_item, is_expired}
use pendem.Engine.Lru.Invariant.{IsValid, new_lru-IsValid}
use pendem.Engine.Lru.Lookups.{find, find-add_self, get-find}
use pendem.Engine.ListValue.{ListValue, lrange}
use pendem.Engine.ListValue.Ranges.{before, up_to, lrange-drop-take}
use pendem.Engine.SetValue
use pendem.Engine.SetValue.{SetValue, is_member}
use pendem.Engine.SetValue.Counts.{IsSetValue, mem_of, add-counts}
use pendem.Engine.Shard
use pendem.Engine.Shard.{Shard, EngineConfig, new_shard}
use pendem.Engine.Shard.Race.{visible, set-IsValid, finish_get-loses_set}
use pendem.Engine.Cache
use pendem.Engine.Cache.{Cache, new_cache}
use pendem.Engine.Cache.Expiry.{lives, get-set_until}
use pendem.Engine.Cache.Routing.{IsWhole, set-IsWhole, view, new_cache-IsWhole, view-set}
use pendem.Engine.Pattern.{has_prefix, has_suffix, match_pattern, star}
use pendem.Engine.Pattern.Globs.{match_pattern-glob}
use pendem.Engine.Cache.Pages.{remaining, IsSmall, scan-remaining}
use pendem.Handler.{Handler, count_reply, bulk_or_null}
use pendem.Handler.Strings
use pendem.Handler.Strings.{appended, parse_ttl}
use pendem.Handler.Strings.Replies.{get-append, or_empty}

abbrev letters : ListValue
letters = record { items = codes "a" ∷ codes "b" ∷ codes "c" ∷ codes "d" ∷ [] }

lrange-drop-take_example :
    lrange letters (negsuc 2) (pos 9)
    ≡ drop
        (before (length letters.items) (negsuc 2))
        (take (up_to (length letters.items) (pos 9)) letters.items)
lrange-drop-take_example = lrange-drop-take letters (negsuc 2) (pos 9)

abbrev two_values : List Bytes
two_values = codes "x" ∷ codes "y" ∷ []

abbrev two_members : SetValue
two_members = record { members = (codes "a", tt) ∷ (codes "b", tt) ∷ [] }

two_members-IsSetValue : IsSetValue two_members
unfolding lookup equal
two_members-IsSetValue = (refl, (refl, tt))

abbrev given : List Bytes
given = codes "b" ∷ codes "c" ∷ codes "c" ∷ []

add-counts_example :
    IsSetValue (SetValue.add two_members given).0
    × (SetValue.len (SetValue.add two_members given).0
        ≡ SetValue.len two_members + (SetValue.add two_members given).1)
    × ((x : Bytes)
        → is_member (SetValue.add two_members given).0 x
          ≡ (is_member two_members x || mem_of x given))
add-counts_example = add-counts two_members given two_members-IsSetValue

abbrev small_config : EngineConfig
small_config = record {
  max_memory = pos 1000;
  eviction_policy = codes "lru";
  evictor_capacity = pos 2;
  shard_count = pos 4;
  default_ttl = pos 0;
}

-- A key that lives ten seconds, in a cache of four shards.
abbrev used_cache : Cache (Unit {0})
used_cache = Cache.set 1 (codes "k") (codes "old") (pos 10000000000) (new_cache small_config)

used_cache-IsWhole : IsWhole used_cache
used_cache-IsWhole =
    set-IsWhole 1 (codes "k") (codes "old") (pos 10000000000) (new_cache small_config)
      (new_cache-IsWhole small_config)

used_cache_held : view (codes "k") used_cache ≡ some (new_item 1 (codes "old") (pos 10000000000))
used_cache_held =
    view-set 1 (codes "k") (codes "old") (pos 10000000000) (new_cache small_config)
      (new_cache-IsWhole small_config)

used_cache_expired : is_expired 10000000002 (new_item 1 (codes "old") (pos 10000000000)) ≡ true
unfolding is_expired new_item pendem.Base.Int.wrap64 pendem.Base.Int.◌+ℤ◌
used_cache_expired = refl

get-set_until_example :
    (Cache.get 5 (codes "k") (Cache.set 2 (codes "k") (codes "new") (pos 100) used_cache)).1
    ≡ (if lives 2 (pos 100) 5 then some (codes "new") else none)
get-set_until_example =
    get-set_until 2 5 (codes "k") (codes "new") (pos 100) used_cache used_cache-IsWhole
      (omega arith)

abbrev handler : Handler (Unit {0})
handler = record { cache = used_cache; persistent = true; launched = [] }

get-append_example :
    let left = or_empty (visible 2 (view (codes "k") used_cache)) ++ codes "er" in
    let after = Strings.append 2 (codes "k" ∷ codes "er" ∷ []) handler in
    (after.1 ≡ count_reply (length left))
    × ((Strings.get 99 (codes "k" ∷ []) after.0).1 ≡ bulk_or_null (some left))
get-append_example = get-append 2 99 (codes "k") (codes "er") handler used_cache-IsWhole

abbrev empty_shard : Shard (Unit {0})
empty_shard = new_shard small_config

-- A key whose time is over at the time 10.
abbrev used_shard : Shard (Unit {0})
used_shard = Shard.set 1 (codes "k") (codes "old") (pos 5) empty_shard

used_shard-IsValid : IsValid used_shard.evictor
unfolding new_shard
used_shard-IsValid =
    set-IsValid 1 (codes "k") (codes "old") (pos 5) empty_shard (new_lru-IsValid (pos 2) (pos 1000))

used_shard_fetched :
    (Shard.fetch (codes "k") used_shard).1 ≡ some (new_item 1 (codes "old") (pos 5))
unfolding Shard.fetch Shard.set new_shard
used_shard_fetched =
    (get-find (codes "k") used_shard.evictor used_shard-IsValid).0
    ∙ find-add_self (codes "k") (new_item 1 (codes "old") (pos 5)) empty_shard.evictor
        (new_lru-IsValid (pos 2) (pos 1000))

used_shard_expired : is_expired 10 (new_item 1 (codes "old") (pos 5)) ≡ true
unfolding is_expired new_item pendem.Base.Int.wrap64 pendem.Base.Int.◌+ℤ◌
used_shard_expired = refl

abbrev rewritten : Shard (Unit {0})
rewritten = Shard.set 10 (codes "k") (codes "new") (pos 0) (Shard.fetch (codes "k") used_shard).0

finish_get-loses_set_example :
    (find (codes "k") rewritten.evictor ≡ some (new_item 10 (codes "new") (pos 0)))
    × (find
          (codes "k")
          (Shard.finish_get 10
            (codes "k")
            (Shard.fetch (codes "k") used_shard).1
            rewritten).0.evictor
        ≡ none)
finish_get-loses_set_example =
    finish_get-loses_set 10 10 (codes "k") (codes "new") (pos 0) (new_item 1 (codes "old") (pos 5))
      used_shard used_shard-IsValid used_shard_fetched used_shard_expired

-- Numbers in place of floats.
abbrev floats : Floats ℕ
floats = record { parse_float = parse_uint; format_float = format_uint; less = ltb }

abbrev IsAny : ℕ → Type 0
IsAny n = Unit {0}

floats-IsOrder : IsOrder floats IsAny
floats-IsOrder = record {
  less_asym = λ a b ha hb h. ground arith;
  less_neg_trans = λ a b c ha hb hc h k. ground arith;
}

abbrev scores : SortedSet ℕ
scores = record { members = (codes "a", 5) ∷ (codes "b", 2) ∷ (codes "c", 9) ∷ [] }

range-IsOrdered_example :
    (sorted : List (Bytes × ℕ)) × IsOrdered floats sorted
    × Perm sorted scores.members
    × (range floats scores (pos 0) (negsuc 1)
        ≡ drop (before (length sorted) (pos 0)) (take (up_to (length sorted) (negsuc 1)) sorted))
range-IsOrdered_example =
    range-IsOrdered floats IsAny scores (pos 0) (negsuc 1) floats-IsOrder (tt, (tt, (tt, tt)))

-- Two shards, one with two keys.
abbrev scanned_cache : Cache (Unit {0})
scanned_cache = record {
  shards =
      Shard.set 1 (codes "b") (codes "2") (pos 0)
        (Shard.set 1 (codes "a") (codes "1") (pos 0) empty_shard)
      ∷ Shard.set 1 (codes "c") (codes "3") (pos 0) empty_shard
      ∷ [];
  num_shards = 2;
}

scanned_cache-AreSmall : All (IsSmall 5) scanned_cache.shards
unfolding Shard.set pendem.Engine.Shard.new_shard Lru.new_lru_with_memory Lru.add Lru.element_of
    Lru.make_memory Lru.evict_loop Lru.push_element Lru.calculate_size Lru.get_keys Lru.live_entries
    Lru.find_element is_expired new_item lookup insert equal pendem.Base.Int.wrap64
    pendem.Base.Int.◌+ℤ◌
scanned_cache-AreSmall = (omega arith, (omega arith, tt))

scan-remaining_example :
    let left = remaining 5 1 (drop 0 scanned_cache.shards) in
    let reply = Cache.scan 5 (pos (0 * 10000 + 1)) star (pos 1) scanned_cache in
    ((length left < 1) × (reply ≡ some (left, pos 0)))
    ⊎ ((1 ≤ length left)
        × ((j : ℕ) × (p : ℕ) × (reply ≡ some (take 1 left, pos (j * 10000 + p)))
            × (0 < p)
            × (p < 10000)
            × (remaining 5 p (drop j scanned_cache.shards) ≡ drop 1 left)))
scan-remaining_example =
    scan-remaining 5 0 1 1 scanned_cache scanned_cache-AreSmall (omega arith) (omega arith)

abbrev text : Bytes
text = codes "ey"

text-no_first : has_prefix text star ≡ false
unfolding has_prefix
text-no_first = refl

text-no_last : has_suffix text star ≡ false
unfolding has_suffix equal
text-no_last = refl

match_pattern-glob_example :
    ((match_pattern (codes "key1") text ≡ true) ↔ (codes "key1" ≡ text))
    × ((match_pattern (codes "key1") (star ++ text) ≡ true)
        ↔ ((q : Bytes) × (codes "key1" ≡ q ++ text)))
    × ((match_pattern (codes "key1") (text ++ star) ≡ true)
        ↔ ((r : Bytes) × (codes "key1" ≡ text ++ r)))
    × ((match_pattern (codes "key1") (star ++ (text ++ star)) ≡ true)
        ↔ ((q : Bytes) × (r : Bytes) × (codes "key1" ≡ q ++ (text ++ r))))
match_pattern-glob_example = match_pattern-glob text (codes "key1") text-no_first text-no_last
