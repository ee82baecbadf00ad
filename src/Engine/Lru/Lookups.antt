-- ===== src/Engine/Lru/Lookups.antt =====
-- What can be looked up after each operation, by the recency list.
use pendem.Base.{
  ℕ, ◌+◌, ◌≤◌, ◌<◌, ◌≡◌, ◌≢◌, refl, Bool, true, false, ◌&&◌, Option, none, some, List, [], ◌∷◌,
  ◌++◌, Bytes, ltb, if◌then◌else◌, arith, inl, inr, Bool-cases, Option-cases, equal, equal_iff,
  equal_refl,
}
use pendem.Base.Int.{pos_part}
use pendem.Engine.Item.{Item}
use pendem.Engine.Lru.{
  Element, Lru, back, drop_element, remove_oldest, make_memory, is_full, update_element,
  push_element, calculate_size, add, get, over_memory, remove, has,
}
use pendem.Engine.Lru.Order.{find_key, find_key-key, find_key-remove, find_element-back}
use pendem.Engine.Lru.Invariant.{IsValid, element_of-find_key, make_memory-IsValid}
use pendem.Engine.Lru.Evict.{Evicts, make_memory-Evicts}
use pendem.Engine.Lru.Operations.{found_by_name}

abbrev pub value_of : Option Element → Option Item
value_of none = none
value_of (some e) = some e.value

-- The value that the evictor holds for a key.
unfoldable pub find : Bytes → Lru → Option Item
find k l = value_of (find_key k l.order)

abbrev pub is_some {ℓ} : {A : Type ℓ} → Option A → Bool
is_some none = false
is_some (some a) = true

-- On a valid evictor, `Get` returns the value held, and changes no value.
pub get-find :
    (k : Bytes) (l : Lru)
    → IsValid l
    → ((get k l).1 ≡ find k l) × ((j : Bytes) → find j (get k l).0 ≡ find j l)
unfolding get find find_key
get-find k l v = elim (Option-cases (find_key k l.order)) [
  | inl e ↦ rw (element_of-find_key k l v, e, get) (refl, λ j. refl)
  | inr (x, e) ↦
      rw (element_of-find_key k l v, e, get)
        (
          refl,
          λ j. ground (
            arith,
            find_key-remove x.id j l.order {e = x} v.distinct (found_by_name k l x v e),
            find_key-key k l.order e,
            equal_iff x.key j,
          ),
        )
]

pub has-find : (k : Bytes) (l : Lru) → IsValid l → has k l ≡ is_some (find k l)
unfolding has find
has-find k l v = elim (Option-cases (find_key k l.order)) [
  | inl e ↦ ground (arith, v.keyed k)
  | inr (x, e) ↦ ground (arith, v.keyed k)
]

-- On a valid evictor, `Remove` takes away the key and no other, and reports whether it was there.
pub remove-find :
    (k : Bytes) (l : Lru)
    → IsValid l
    → ((remove k l).1 ≡ is_some (find k l))
      × ((j : Bytes) → find j (remove k l).0 ≡ (if equal k j then none else find j l))
unfolding remove find drop_element
remove-find k l v = elim (Option-cases (find_key k l.order)) [
  | inl e ↦ rw (element_of-find_key k l v, e, remove) (refl, λ j. ground (arith, equal_iff k j))
  | inr (x, e) ↦
      rw (element_of-find_key k l v, e, remove)
        (
          refl,
          λ j. ground (
            arith,
            find_key-remove x.id j l.order {e = x} v.distinct (found_by_name k l x v e),
            find_key-key k l.order e,
          ),
        )
]

-- `Add` stores the value under the key.
pub find-add_self :
    (k : Bytes) (value : Item) (l : Lru) → IsValid l → find k (add k value l) ≡ some value
unfolding add find find_key update_element push_element
find-add_self k value l v = elim (Option-cases (find_key k l'.order)) [
  | inl e ↦ rw (element_of-find_key k l' v', e, add) (ground (arith, equal_refl k))
  | inr (x, e) ↦
      rw (element_of-find_key k l' v', e, add)
        (ground (arith, find_key-key k l'.order e, equal_refl k))
]
  where
    l' : Lru
    l' = make_memory (calculate_size k value.value) l

    v' : IsValid l'
    v' = make_memory-IsValid (calculate_size k value.value) l v

find_key-append :
    (j : Bytes) (o p : List Element) {e : Element}
    → find_key j o ≡ some e
    → find_key j (o ++ p) ≡ some e
unfolding find_key
find_key-append j [] p h = ground arith
find_key-append j (x ∷ o) p {e} h = ground (arith, find_key-append j o p {e = e})

kept-remove_oldest :
    (j : Bytes) (l : Lru) {e : Element}
    → IsValid l
    → find_key j (remove_oldest l).order ≡ some e
    → find_key j l.order ≡ some e
unfolding remove_oldest drop_element
kept-remove_oldest j l {e} v h = elim (Option-cases (back l.order)) [
  | inl b ↦ ground arith
  | inr (x, b) ↦ ground (
    arith,
    find_key-remove x.id j l.order {e = x} v.distinct (find_element-back l.order v.distinct b),
  )
]

module _ (k j : Bytes) (value : Item) (size : ℕ) (l : Lru) (v : IsValid l) (ne : k ≢ j) where
  find-update :
      (e : Element)
      → find_key k l.order ≡ some e
      → find j (update_element value size e l) ≡ find j l
  unfolding update_element find find_key
  find-update e h = ground (
    arith,
    find_key-remove e.id j l.order {e = e} v.distinct (found_by_name k l e v h),
    find_key-key k l.order h,
    equal_iff e.key j,
  )

  find-push :
      {e : Element}
      → find_key j (push_element k value size l).order ≡ some e
      → find_key j l.order ≡ some e
  unfolding push_element find_key
  find-push {e} h = elim (Bool-cases (is_full l)) [
    | inl full ↦ kept-remove_oldest j l {e = e} v (ground (arith, equal_iff k j))
    | inr rest ↦ ground (arith, equal_iff k j)
  ]

  -- With room for one more element nothing is lost either.
  find-push_room : is_full l ≡ false → find j (push_element k value size l) ≡ find j l
  unfolding push_element find find_key
  find-push_room room = ground (arith, equal_iff k j)

value_of-some :
    (o : Option Element) {i : Item}
    → value_of o ≡ some i
    → (e : Element) × (o ≡ some e) × (e.value ≡ i)
value_of-some none h = absurd (ground arith)
value_of-some (some e) h = (e, refl, ground arith)

find_inv :
    (j : Bytes) (l : Lru) {i : Item}
    → find j l ≡ some i
    → (e : Element) × (find_key j l.order ≡ some e) × (e.value ≡ i)
unfolding find
find_inv j l h = value_of-some (find_key j l.order) h

find-Evicts :
    (j : Bytes) (size : ℕ) (l l' : Lru) {i : Item}
    → Evicts size l l'
    → find j l' ≡ some i
    → find j l ≡ some i
unfolding find
find-Evicts j size l l' ev h =
    let (e, found, same) = value_of-some (find_key j l'.order) h in
    rw (ev.order, find_key-append j l'.order ev.dropped found, same)

-- `Add` invents nothing: what another key holds afterwards it held before.
pub find-add_ne :
    (k j : Bytes) (value : Item) {i : Item} (l : Lru)
    → IsValid l
    → k ≢ j
    → find j (add k value l) ≡ some i
    → find j l ≡ some i
unfolding add
find-add_ne k j value {i} l v ne h = elim (Option-cases (find_key k l'.order)) [
  | inl e ↦
      let pushed : find j (push_element k value size l') ≡ some i =
        rw (element_of-find_key k l' v', e, add) at h in
      let (x, found, same) = find_inv j (push_element k value size l') pushed in
      back_to_l (unfold find in rw (find-push k j value size l' v' ne found, same))
  | inr (x, e) ↦
      let updated : find j (update_element value size x l') ≡ some i =
        rw (element_of-find_key k l' v', e, add) at h in
      back_to_l (rw (find-update k j value size l' v' ne x e) at updated)
]
  where
    size : ℕ
    size = calculate_size k value.value

    l' : Lru
    l' = make_memory size l

    v' : IsValid l'
    v' = make_memory-IsValid size l v

    back_to_l : find j l' ≡ some i → find j l ≡ some i
    back_to_l = find-Evicts j size l l' (make_memory-Evicts size l v)

pub make_memory_room :
    (size : ℕ) (l : Lru)
    → (0 < pos_part l.max_memory → l.current_mem + size ≤ pos_part l.max_memory)
    → make_memory size l ≡ l
unfolding make_memory
make_memory_room size l h =
    elim (Bool-cases (ltb 0 (pos_part l.max_memory) && over_memory size l)) [
      | inl more ↦ absurd (ground (arith, h))
      | inr done ↦ rw done
    ]

-- On a valid evictor, where neither the memory nor the capacity calls for an eviction, every key
-- other than the one that is added keeps its value.
pub find-add_room :
    (k j : Bytes) (value : Item) (l : Lru)
    → IsValid l
    → k ≢ j
    → (0 < pos_part l.max_memory
        → l.current_mem + calculate_size k value.value ≤ pos_part l.max_memory)
    → is_full l ≡ false
    → find j (add k value l) ≡ find j l
unfolding add
find-add_room k j value l v ne fits room = elim (Option-cases (find_key k l.order)) [
  | inl e ↦ ground (
    arith,
    make_memory_room size l fits,
    element_of-find_key k l v,
    find-push_room k j value size l v ne room,
  )
  | inr (x, e) ↦ ground (
    arith,
    make_memory_room size l fits,
    element_of-find_key k l v,
    find-update k j value size l v ne x e,
  )
]
  where
    size : ℕ
    size = calculate_size k value.value
