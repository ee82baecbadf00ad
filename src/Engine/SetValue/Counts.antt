-- ===== src/Engine/SetValue/Counts.antt =====
-- What SADD and SREM report and leave.
use pendem.Base.{
  ℕ, ◌+◌, Bool, true, false, ◌||◌, not, ◌&&◌, Option, none, some, Option-cases, inl, inr, List, [],
  ◌∷◌, Bytes, Map, equal, equal_iff, length, lookup, insert, delete, lookup-insert, lookup-delete,
  insert-IsMap, delete-IsMap, length-insert, length-delete, IsMap, ◌≡◌, refl, arith,
}
use pendem.Engine.SetValue.{SetValue, add, add_loop, remove, remove_loop, is_member, len}

unfoldable pub mem_of : Bytes → List Bytes → Bool
mem_of x [] = false
mem_of x (m ∷ ms) = mem_of x ms || equal m x

-- No member stands twice.
abbrev pub IsSetValue : SetValue → Type 0
IsSetValue s = IsMap s.members

add_loop_lem :
    (ms : List Bytes) (members : Map (Unit {0})) (count : ℕ)
    → IsMap members
    → IsMap (add_loop ms members count).0
      × (length (add_loop ms members count).0 + count
          ≡ length members + (add_loop ms members count).1)
unfolding add_loop
add_loop_lem [] members count v = (v, refl)
add_loop_lem (m ∷ ms) members count v = elim (Option-cases (lookup m members)) [
  | inl e ↦
      let rest = add_loop_lem ms (insert m tt members) (count + 1) (insert-IsMap m tt members v) in
      rw (add_loop, e) (rest.0, ground (arith, rest.1, length-insert m tt members))
  | inr (u, e) ↦ rw (add_loop, e) (add_loop_lem ms members count v)
]

remove_loop_lem :
    (ms : List Bytes) (members : Map (Unit {0})) (count : ℕ)
    → IsMap members
    → IsMap (remove_loop ms members count).0
      × (length (remove_loop ms members count).0 + (remove_loop ms members count).1
          ≡ length members + count)
unfolding remove_loop
remove_loop_lem [] members count v = (v, refl)
remove_loop_lem (m ∷ ms) members count v = elim (Option-cases (lookup m members)) [
  | inl e ↦ rw (remove_loop, e) (remove_loop_lem ms members count v)
  | inr (u, e) ↦
      let rest = remove_loop_lem ms (delete m members) (count + 1) (delete-IsMap m members v) in
      rw (remove_loop, e) (rest.0, ground (arith, rest.1, length-delete m members v))
]

is_there : Option (Unit {0}) → Bool
is_there none = false
is_there (some u) = true

add_loop-lookup :
    (x : Bytes) (ms : List Bytes) (members : Map (Unit {0})) (count : ℕ)
    → is_there (lookup x (add_loop ms members count).0)
      ≡ (is_there (lookup x members) || mem_of x ms)
unfolding add_loop mem_of is_there
add_loop-lookup x [] members count = ground arith
add_loop-lookup x (m ∷ ms) members count = elim (Option-cases (lookup m members)) [
  | inl e ↦
      rw (add_loop, e)
        (ground (
          arith,
          add_loop-lookup x ms (insert m tt members) (count + 1),
          lookup-insert m x tt members,
        ))
  | inr (u, e) ↦
      rw (add_loop, e) (ground (arith, add_loop-lookup x ms members count, equal_iff m x))
]

remove_loop-lookup :
    (x : Bytes) (ms : List Bytes) (members : Map (Unit {0})) (count : ℕ)
    → is_there (lookup x (remove_loop ms members count).0)
      ≡ (is_there (lookup x members) && not (mem_of x ms))
unfolding remove_loop mem_of is_there
remove_loop-lookup x [] members count = ground arith
remove_loop-lookup x (m ∷ ms) members count = elim (Option-cases (lookup m members)) [
  | inl e ↦
      rw (remove_loop, e) (ground (arith, remove_loop-lookup x ms members count, equal_iff m x))
  | inr (u, e) ↦
      rw (remove_loop, e)
        (ground (
          arith,
          remove_loop-lookup x ms (delete m members) (count + 1),
          lookup-delete m x members,
        ))
]

-- On a set that holds each member once, SADD reports how many members are new: the set grows by that
-- number, holds each member once, and its members are those it had and those given.
pub add-counts :
    (s : SetValue) (ms : List Bytes)
    → IsSetValue s
    → IsSetValue (add s ms).0
      × (len (add s ms).0 ≡ len s + (add s ms).1)
      × ((x : Bytes) → is_member (add s ms).0 x ≡ (is_member s x || mem_of x ms))
unfolding add len is_member is_there
add-counts s ms v =
    let (kept, counted) = add_loop_lem ms s.members 0 v in
    (kept, omega arith, λ x. add_loop-lookup x ms s.members 0)

-- On a set that holds each member once, SREM reports how many members it took away: the set shrinks
-- by that number, still holds each member once, and its members are those it had and that are not
-- given.
pub remove-counts :
    (s : SetValue) (ms : List Bytes)
    → IsSetValue s
    → IsSetValue (remove s ms).0
      × (len (remove s ms).0 + (remove s ms).1 ≡ len s)
      × ((x : Bytes) → is_member (remove s ms).0 x ≡ (is_member s x && not (mem_of x ms)))
unfolding remove len is_member is_there
remove-counts s ms v =
    let (kept, counted) = remove_loop_lem ms s.members 0 v in
    (kept, omega arith, λ x. remove_loop-lookup x ms s.members 0)
