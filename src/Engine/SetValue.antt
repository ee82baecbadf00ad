-- ===== src/Engine/SetValue.antt =====
-- internal/engine/set.go.
pub mod Counts
use pendem.Base.{
  ℕ, ◌+◌, Bool, true, false, Option, none, some, List, [], ◌∷◌, Bytes, Map, length, lookup, insert,
  delete,
}

pub record SetValue : Type 0 where
  pub members : Map (Unit {0})

abbrev pub new_set : SetValue
new_set = record { members = [] }

-- The loops carry the map and the count.
unfoldable pub add_loop : List Bytes → Map (Unit {0}) → ℕ → Map (Unit {0}) × ℕ
add_loop [] members count = (members, count)
add_loop (m ∷ ms) members count = elim (lookup m members) [
  | none ↦ add_loop ms (insert m tt members) (count + 1)
  | some u ↦ add_loop ms members count
]

unfoldable pub remove_loop : List Bytes → Map (Unit {0}) → ℕ → Map (Unit {0}) × ℕ
remove_loop [] members count = (members, count)
remove_loop (m ∷ ms) members count = elim (lookup m members) [
  | none ↦ remove_loop ms members count
  | some u ↦ remove_loop ms (delete m members) (count + 1)
]

unfoldable pub add : SetValue → List Bytes → SetValue × ℕ
unfolding add_loop
add s ms = let (members, count) = add_loop ms s.members 0 in (record { members = members }, count)

unfoldable pub remove : SetValue → List Bytes → SetValue × ℕ
unfolding remove_loop
remove s ms =
    let (members, count) = remove_loop ms s.members 0 in (record { members = members }, count)

unfoldable pub is_member : SetValue → Bytes → Bool
is_member s m = elim (lookup m s.members) [ none ↦ false | some u ↦ true ]

names : Map (Unit {0}) → List Bytes
names [] = []
names ((m, u) ∷ ms) = m ∷ names ms

unfoldable pub members_of : SetValue → List Bytes
unfolding names
members_of s = names s.members

unfoldable pub len : SetValue → ℕ
len s = length s.members
