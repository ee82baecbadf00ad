-- ===== src/Engine/Shard/Live.antt =====
-- What `GetItems` takes out of an evictor.
use pendem.Base.{
  ℕ, ◌≡◌, refl, ◌∙◌, Option, none, some, [], ◌∷◌, Bytes, Map, IsMap, lookup, arith, inl, inr,
  Bool-cases, Option-cases, equal_iff, if◌then◌else◌,
}
use pendem.Engine.Item.{Item, is_expired}
use pendem.Engine.Lru.{Lru, find_element, live_entries, get_items}
use pendem.Engine.Lru.Order.{find_key, find_element-find_key}
use pendem.Engine.Lru.Invariant.{IsValid}
use pendem.Engine.Lru.Lookups.{find, value_of}

-- An entry that is not expired.
unfoldable pub live : ℕ → Option Item → Option Item
live now none = none
live now (some i) = if is_expired now i then none else some i

at_id : ℕ → Lru → Option ℕ → Option Item
at_id now l none = none
at_id now l (some i) = live now (value_of (find_element i l.order))

lookup-live_entries :
    (now : ℕ) (m : Map ℕ) (l : Lru) (k : Bytes)
    → IsMap m
    → lookup k (live_entries now m l) ≡ at_id now l (lookup k m)
unfolding live_entries lookup at_id live
lookup-live_entries now [] l k u = refl
lookup-live_entries now ((j, i) ∷ m) l k (absent, u) =
    let rest = lookup-live_entries now m l k u in
    elim (Option-cases (find_element i l.order)) [
      | inl e ↦ ground (arith, e, absent, rest, equal_iff j k)
      | inr (x, e) ↦ ground (arith, e, absent, rest, equal_iff j k)
    ]

live_entries-IsMap : (now : ℕ) (m : Map ℕ) (l : Lru) → IsMap m → IsMap (live_entries now m l)
unfolding live_entries at_id
live_entries-IsMap now [] l u = tt
live_entries-IsMap now ((j, i) ∷ m) l (absent, u) =
    let rest = live_entries-IsMap now m l u in
    elim (Option-cases (find_element i l.order)) [
      | inl e ↦ rw (live_entries, e) rest
      | inr (x, e) ↦ elim (Bool-cases (is_expired now x.value)) [
        | inl old ↦ rw (live_entries, e, old) rest
        | inr live_one ↦
            rw (live_entries, e, live_one)
              (lookup-live_entries now m l j u ∙ (rw absent refl), rest)
      ]
    ]

pub get_items-IsMap : (now : ℕ) (l : Lru) → IsValid l → IsMap (get_items now l)
unfolding get_items
get_items-IsMap now l v = live_entries-IsMap now l.items l v.unique

-- What `GetItems` lists of a valid evictor under a key is what the evictor holds under it, unless
-- it is expired.
pub lookup-get_items :
    (now : ℕ) (l : Lru) (k : Bytes) → IsValid l → lookup k (get_items now l) ≡ live now (find k l)
unfolding get_items find at_id live
lookup-get_items now l k v =
    lookup-live_entries now l.items l k v.unique
    ∙ (rw (v.keyed k) (elim (Option-cases (find_key k l.order)) [
      | inl e ↦ rw e refl
      | inr (x, e) ↦ rw (e, find_element-find_key k l.order {e = x} v.distinct e) refl
    ]))
