-- ===== src/Base/Dict.antt =====
-- Go maps with string keys as association lists. Go leaves the order of iteration open; here it is
-- the order of insertion.
use mathlib.Core.Path.{◌≡◌, refl}
use mathlib.Core.Option.{Option, none, some}
use mathlib.Core.List.{List, [], ◌∷◌}
use native.Mathlib.Omega.{arith}
use Prim.Native.Nat.{◌+◌}
use mathlib.Core.Logic.{inl, inr}
use pendem.Base.Tests.{if◌then◌else◌, Bool-cases}
use pendem.Base.Lists.{length}
use pendem.Base.Strings.{Bytes, equal, equal_iff, equal_refl}

abbrev pub Map {ℓ} : Type ℓ → Type ℓ
Map V = List (Bytes × V)

module _ {ℓ} {V : Type ℓ} where
  -- v, exists := m[k]
  unfoldable pub lookup : Bytes → Map V → Option V
  lookup k [] = none
  lookup k ((j, v) ∷ m) = if equal j k then some v else lookup k m

  -- m[k] = v
  unfoldable pub insert : Bytes → V → Map V → Map V
  insert k v [] = (k, v) ∷ []
  insert k v ((j, w) ∷ m) = if equal j k then (k, v) ∷ m else (j, w) ∷ insert k v m

  -- delete(m, k)
  unfoldable pub delete : Bytes → Map V → Map V
  delete k [] = []
  delete k ((j, v) ∷ m) = let rest = delete k m in if equal j k then rest else (j, v) ∷ rest

  pub lookup-insert :
      (k j : Bytes) (v : V) (m : Map V)
      → lookup j (insert k v m) ≡ (if equal k j then some v else lookup j m)
  unfolding lookup insert
  lookup-insert k j v [] = refl
  lookup-insert k j v ((i, w) ∷ m) =
      ground (arith, equal_iff k j, equal_iff i k, equal_iff i j, lookup-insert k j v m)

  pub lookup-delete :
      (k j : Bytes) (m : Map V) → lookup j (delete k m) ≡ (if equal k j then none else lookup j m)
  unfolding lookup delete
  lookup-delete k j [] = ground arith
  lookup-delete k j ((i, w) ∷ m) =
      ground (arith, equal_iff k j, equal_iff i k, equal_iff i j, lookup-delete k j m)

  pub lookup-insert_self : (k : Bytes) (v : V) (m : Map V) → lookup k (insert k v m) ≡ some v
  lookup-insert_self k v m = ground (arith, lookup-insert k k v m, equal_refl k)

  -- No key stands twice.
  abbrev pub IsMap : Map V → Type ℓ
  IsMap [] = Unit
  IsMap ((k, v) ∷ m) = (lookup k m ≡ none) × IsMap m

  pub insert-IsMap : (k : Bytes) (v : V) (m : Map V) → IsMap m → IsMap (insert k v m)
  unfolding insert lookup
  insert-IsMap k v [] h = (refl, tt)
  insert-IsMap k v ((j, w) ∷ m) h = elim (Bool-cases (equal j k)) [
    | inl here ↦ let e = (equal_iff j k).0 here in rw (here, insert) (rw (← e) h.0, h.1)
    | inr later ↦
        rw (later, insert)
          (ground (arith, lookup-insert k j v m, h.0, equal_iff k j), insert-IsMap k v m h.1)
  ]

  pub delete-IsMap : (k : Bytes) (m : Map V) → IsMap m → IsMap (delete k m)
  unfolding delete
  delete-IsMap k [] h = tt
  delete-IsMap k ((j, w) ∷ m) h = elim (Bool-cases (equal j k)) [
    | inl here ↦ rw (here, delete) (delete-IsMap k m h.1)
    | inr later ↦
        rw (later, delete) (ground (arith, lookup-delete k j m, h.0), delete-IsMap k m h.1)
  ]

  delete_absent : (k : Bytes) (m : Map V) → lookup k m ≡ none → delete k m ≡ m
  unfolding delete lookup
  delete_absent k [] h = refl
  delete_absent k ((j, w) ∷ m) h = ground (arith, delete_absent k m)

  -- len(m) after a write and after a removal.
  pub length-insert :
      (k : Bytes) (v : V) (m : Map V)
      → length (insert k v m) ≡ elim (lookup k m) [ none ↦ length m + 1 | some w ↦ length m ]
  unfolding insert lookup
  length-insert k v [] = omega arith
  length-insert k v ((j, w) ∷ m) = ground (arith, length-insert k v m)

  pub length-delete :
      (k : Bytes) (m : Map V)
      → IsMap m
      → length m
        ≡ elim (lookup k m) [ none ↦ length (delete k m) | some w ↦ length (delete k m) + 1 ]
  unfolding delete lookup
  length-delete k [] h = refl
  length-delete k ((j, w) ∷ m) h =
      ground (arith, length-delete k m, delete_absent k m, equal_iff j k, h.0)

pub ruleset map_laws = (lookup-insert, lookup-delete)
