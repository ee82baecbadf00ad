-- ===== src/Engine/ListValue.antt =====
-- internal/engine/list.go, with the elements of the linked list from front to back.
pub mod Ranges
pub mod Ends
use pendem.Base.{
  ℕ, zero, suc, ◌+◌, ◌-◌, Bool, true, false, ◌&&◌, not, Option, none, some, List, [], ◌∷◌, ◌++◌,
  Bytes, length, if◌then◌else◌,
}
use pendem.Base.Int.{ℤ, pos, negsuc, ◌+ℤ◌, ltb_ℤ}

pub record ListValue : Type 0 where
  pub items : List Bytes

abbrev pub new_list : ListValue
new_list = record { items = [] }

-- The loop of `PushFront`.
unfoldable pub push_front_all : List Bytes → List Bytes → List Bytes
push_front_all [] items = items
push_front_all (v ∷ values) items = push_front_all values (v ∷ items)

unfoldable pub push_back_all : List Bytes → List Bytes → List Bytes
push_back_all [] items = items
push_back_all (v ∷ values) items = push_back_all values (items ++ v ∷ [])

unfoldable pub lpush : ListValue → List Bytes → ListValue × ℕ
lpush l values =
    let items = push_front_all values l.items in (record l { items = items }, length items)

unfoldable pub rpush : ListValue → List Bytes → ListValue × ℕ
rpush l values =
    let items = push_back_all values l.items in (record l { items = items }, length items)

front : List Bytes → Option (Bytes × List Bytes)
front [] = none
front (x ∷ xs) = some (x, xs)

cons_rest : Bytes → Option (Bytes × List Bytes) → Option (Bytes × List Bytes)
cons_rest x none = some (x, [])
cons_rest x (some (y, ys)) = some (y, x ∷ ys)

-- The last element, and the list without it.
unfoldable pub take_back : List Bytes → Option (Bytes × List Bytes)
unfolding cons_rest
take_back [] = none
take_back (x ∷ xs) = cons_rest x (take_back xs)

abbrev after_pop : ListValue → Option (Bytes × List Bytes) → ListValue × Option Bytes
after_pop l none = (l, none)
after_pop l (some (x, rest)) = (record { items = rest }, some x)

unfoldable pub lpop : ListValue → ListValue × Option Bytes
unfolding front
lpop l = after_pop l (front l.items)

unfoldable pub rpop : ListValue → ListValue × Option Bytes
unfolding take_back
rpop l = after_pop l (take_back l.items)

-- `i` is the counter of the loop; behind `stop` it breaks.
unfoldable pub range_loop : ℕ → ℤ → ℤ → List Bytes → List Bytes
range_loop i start stop [] = []
range_loop i start stop (x ∷ xs) =
    let rest = range_loop (i + 1) start stop xs in
    let more = if ltb_ℤ stop (pos i) then [] else rest in
    if not (ltb_ℤ (pos i) start) && not (ltb_ℤ stop (pos i)) then x ∷ more else more

-- `if i < 0 { i = length + i }`
unfoldable pub from_end : ℕ → ℤ → ℤ
unfolding ◌+ℤ◌
from_end n i = if ltb_ℤ i (pos 0) then pos n +ℤ i else i

-- The indices after the adjustments of `LRange`, which SortedSet.Range makes too.
unfoldable pub clamp_start : ℕ → ℤ → ℤ
unfolding from_end
clamp_start n start = let i = from_end n start in if ltb_ℤ i (pos 0) then pos 0 else i

unfoldable pub clamp_stop : ℕ → ℤ → ℤ
unfolding from_end
clamp_stop n stop =
    let i = from_end n stop in if not (ltb_ℤ i (pos n)) then pos n +ℤ negsuc 0 else i

unfoldable pub lrange : ListValue → ℤ → ℤ → List Bytes
unfolding clamp_start clamp_stop range_loop
lrange l start stop =
    let n = length l.items in
    let start' = clamp_start n start in
    let stop' = clamp_stop n stop in
    if not (ltb_ℤ (pos 0) (pos n))
    then []
    else if ltb_ℤ stop' start'
    then []
    else range_loop 0 start' stop' l.items

unfoldable pub llen : ListValue → ℕ
llen l = length l.items
