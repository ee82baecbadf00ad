-- ===== src/Engine/SortedSet.antt =====
-- internal/engine/sortedset.go. The scores are `float64`: a type with the operations that the
-- program uses, which is a parameter.
pub mod Order
use pendem.Base.{
  ℕ, ◌+◌, ◌-◌, Bool, true, false, not, ◌||◌, Option, none, some, List, [], ◌∷◌, Bytes, Map, length,
  take, drop, lookup, insert, delete, if◌then◌else◌,
}
use pendem.Base.Int.{ℤ, pos, ltb_ℤ, pos_part}
use pendem.Engine.ListValue.{clamp_start, clamp_stop}

-- float64, strconv.ParseFloat(s, 64), strconv.FormatFloat(f, 'f', -1, 64) and `<`.
pub record Floats (F : Type 0) : Type 0 where
  pub parse_float : Bytes → Option F
  pub format_float : F → Bytes
  pub less : F → F → Bool

pub record SortedSet (F : Type 0) : Type 0 where
  pub members : Map F

module _ {F : Type 0} where
  abbrev pub new_sorted_set : SortedSet F
  new_sorted_set = record { members = [] }

  unfoldable pub add : SortedSet F → F → Bytes → SortedSet F × Bool
  add ss score member = (
    record { members = insert member score ss.members },
    elim (lookup member ss.members) [ none ↦ true | some s ↦ false ],
  )

  unfoldable pub remove : SortedSet F → Bytes → SortedSet F × Bool
  remove ss member = elim (lookup member ss.members) [
    | none ↦ (ss, false)
    | some s ↦ (record { members = delete member ss.members }, true)
  ]

  unfoldable pub len : SortedSet F → ℕ
  len ss = length ss.members

  unfoldable pub score : SortedSet F → Bytes → Option F
  score ss member = lookup member ss.members

  -- `sort.Slice` by score. It leaves the order of equal scores open; here equal scores keep the
  -- order of the map.
  insert_by_score : Floats F → Bytes × F → List (Bytes × F) → List (Bytes × F)
  insert_by_score fl m [] = m ∷ []
  insert_by_score fl m (n ∷ ns) =
      let rest = insert_by_score fl m ns in if fl.less n.1 m.1 then n ∷ rest else m ∷ n ∷ ns

  unfoldable pub sort_by_score : Floats F → List (Bytes × F) → List (Bytes × F)
  unfolding insert_by_score
  sort_by_score fl [] = []
  sort_by_score fl (m ∷ ms) = insert_by_score fl m (sort_by_score fl ms)

  -- `members[start : stop+1]`; here both indices are in range, so they are natural numbers.
  unfoldable pub range : Floats F → SortedSet F → ℤ → ℤ → List (Bytes × F)
  unfolding sort_by_score
  range fl ss start stop =
      let members = sort_by_score fl ss.members in
      let n = length members in
      let start' = clamp_start n start in
      let stop' = clamp_stop n stop in
      if ltb_ℤ stop' start' || not (ltb_ℤ start' (pos n))
      then []
      else take (pos_part stop' + 1 - pos_part start') (drop (pos_part start') members)
