-- ===== src/Engine/Lru/Invariant.antt =====
-- The invariant of the evictor, and that each operation keeps it.
use pendem.Base.{
  IsMap, insert-IsMap, delete-IsMap, ℕ, zero, suc, ◌+◌, ◌≤◌, ◌<◌, ◌≡◌, refl, ◌&&◌, Option, none,
  some, List, [], ◌∷◌, Bytes, ltb, length, equal_iff, All, arith, inl, inr, Bool-cases,
  Option-cases, lookup, insert, delete, lookup-insert, lookup-delete,
}
use pendem.Base.Int.{ℤ, pos_part}
use pendem.Engine.Item.{Item}
use pendem.Engine.Lru.{
  Element, Lru, new_lru_with_memory, find_element, remove_element, back, drop_element,
  remove_oldest, evict_loop, make_memory, over_memory, update_element, element_of,
}
use pendem.Engine.Lru.Order.{
  find_key, sizes, IsDistinct, find_element-find_key, find_key-find_element, find_key-remove,
  find_element-remove_self, remove-IsDistinct, All-remove, All-found, sizes-remove, length-remove,
  find_element_fresh, find_element-back,
}

abbrev id_of : Option Element → Option ℕ
id_of none = none
id_of (some e) = some e.id

-- The map and the list agree on every key, no key stands twice in the map, the counter is the sum of
-- the sizes, and a positive capacity is not exceeded.
pub record IsValid (l : Lru) : Type 0 where
  pub keyed : (k : Bytes) → lookup k l.items ≡ id_of (find_key k l.order)
  pub distinct : IsDistinct l.order
  pub below_fresh : All (λ e. e.id < l.fresh) l.order
  pub mem : l.current_mem ≡ sizes l.order
  pub unique : IsMap l.items
  pub bounded : 0 < pos_part l.capacity → length l.order ≤ pos_part l.capacity

pub new_lru-IsValid : (capacity max_memory : ℤ) → IsValid (new_lru_with_memory capacity max_memory)
unfolding new_lru_with_memory find_key sizes lookup
new_lru-IsValid capacity max_memory = record {
  keyed = λ k. refl;
  distinct = tt;
  below_fresh = tt;
  mem = refl;
  unique = tt;
  bounded = λ h. omega arith;
}

-- The element that the map points to is the one with the key.
pub element_of-find_key : (k : Bytes) (l : Lru) → IsValid l → element_of k l ≡ find_key k l.order
unfolding element_of
element_of-find_key k l v = elim (Option-cases (find_key k l.order)) [
  | inl e ↦ ground (arith, v.keyed k)
  | inr (x, e) ↦ ground (arith, v.keyed k, find_element-find_key k l.order {e = x} v.distinct e)
]

module _ (l : Lru) (e : Element) (v : IsValid l) (found : find_element e.id l.order ≡ some e) where
  drop-keyed :
      (k : Bytes)
      → lookup k (delete e.key l.items) ≡ id_of (find_key k (remove_element e.id l.order))
  drop-keyed k = ground (
    arith,
    lookup-delete e.key k l.items,
    v.keyed k,
    find_key-remove e.id k l.order {e = e} v.distinct found,
  )

  pub drop_element-IsValid : IsValid (drop_element e l)
  unfolding drop_element
  drop_element-IsValid = record {
    keyed = drop-keyed;
    distinct = remove-IsDistinct e.id l.order v.distinct;
    below_fresh = All-remove _ e.id l.order v.below_fresh;
    mem = omega (arith, sizes-remove e.id l.order found, v.mem);
    unique = delete-IsMap e.key l.items v.unique;
    bounded = λ h. omega (arith, length-remove e.id l.order found, v.bounded h);
  }

  -- The element goes to the front, with another value and size.
  move-keyed :
      (f : Element)
      → f.key ≡ e.key
      → f.id ≡ e.id
      → (k : Bytes) → lookup k l.items ≡ id_of (find_key k (f ∷ remove_element e.id l.order))
  unfolding find_key
  move-keyed f p q k = ground (
    arith,
    v.keyed k,
    find_key-remove e.id k l.order {e = e} v.distinct found,
    find_key-find_element e.id l.order {e = e} v.distinct found,
    equal_iff f.key k,
    equal_iff e.key k,
  )

  move-IsDistinct :
      (f : Element) → f.key ≡ e.key → f.id ≡ e.id → IsDistinct (f ∷ remove_element e.id l.order)
  move-IsDistinct f p q = (
    ground
        (arith, find_key-remove e.id f.key l.order {e = e} v.distinct found, equal_iff e.key f.key),
    ground (arith, find_element-remove_self e.id l.order v.distinct),
    remove-IsDistinct e.id l.order v.distinct,
  )

  move-below :
      (f : Element) → f.id ≡ e.id → All (λ x. x.id < l.fresh) (f ∷ remove_element e.id l.order)
  move-below f q = (
    omega (arith, q, All-found (λ x. x.id < l.fresh) e.id l.order v.below_fresh found),
    All-remove _ e.id l.order v.below_fresh,
  )

  pub update_element-IsValid : (value : Item) (size : ℕ) → IsValid (update_element value size e l)
  unfolding update_element sizes
  update_element-IsValid value size = record {
    keyed = move-keyed (record e { value = value; size = size }) refl refl;
    distinct = move-IsDistinct (record e { value = value; size = size }) refl refl;
    below_fresh = move-below (record e { value = value; size = size }) refl;
    mem = omega (arith, sizes-remove e.id l.order found, v.mem);
    unique = v.unique;
    bounded = λ h. omega (arith, length-remove e.id l.order found, v.bounded h);
  }

  pub to_front-IsValid : IsValid (record l { order = e ∷ remove_element e.id l.order })
  unfolding sizes
  to_front-IsValid = record {
    keyed = move-keyed e refl refl;
    distinct = move-IsDistinct e refl refl;
    below_fresh = move-below e refl;
    mem = omega (arith, sizes-remove e.id l.order found, v.mem);
    unique = v.unique;
    bounded = λ h. omega (arith, length-remove e.id l.order found, v.bounded h);
  }

pub remove_oldest-IsValid : (l : Lru) → IsValid l → IsValid (remove_oldest l)
unfolding remove_oldest
remove_oldest-IsValid l v = elim (Option-cases (back l.order)) [
  | inl empty ↦ rw (empty, remove_oldest) v
  | inr (e, last) ↦
      rw (last, remove_oldest)
        (drop_element-IsValid l e v (find_element-back l.order v.distinct last))
]

pub evict_loop-IsValid : (f size : ℕ) (l : Lru) → IsValid l → IsValid (evict_loop f size l)
unfolding evict_loop
evict_loop-IsValid zero size l v = v
evict_loop-IsValid (suc f) size l v =
    elim (Bool-cases (over_memory size l && ltb 0 (length l.order))) [
      | inl more ↦
          rw (more, evict_loop)
            (evict_loop-IsValid f size (remove_oldest l) (remove_oldest-IsValid l v))
      | inr done ↦ rw (done, evict_loop) v
    ]

pub make_memory-IsValid : (size : ℕ) (l : Lru) → IsValid l → IsValid (make_memory size l)
unfolding make_memory
make_memory-IsValid size l v =
    elim (Bool-cases (ltb 0 (pos_part l.max_memory) && over_memory size l)) [
      | inl more ↦ rw (more, make_memory) (evict_loop-IsValid (length l.order) size l v)
      | inr done ↦ rw (done, make_memory) v
    ]

-- The list behind a new front element, of which none has the key.
pub record HasRoom (key : Bytes) (l : Lru) : Type 0 where
  pub valid : IsValid l
  pub absent : find_key key l.order ≡ none
  pub room : 0 < pos_part l.capacity → length l.order < pos_part l.capacity

pub push-IsValid :
    (key : Bytes) (value : Item) (size : ℕ) (l : Lru)
    → HasRoom key l
    → IsValid (record l {
      current_mem = l.current_mem + size;
      order = record { id = l.fresh; key = key; value = value; size = size } ∷ l.order;
      items = insert key l.fresh l.items;
      fresh = l.fresh + 1;
    })
unfolding sizes find_key
push-IsValid key value size l h = record {
  keyed =
      λ k. ground (arith, lookup-insert key k l.fresh l.items, h.valid.keyed k, equal_iff key k);
  distinct = (h.absent, find_element_fresh l.fresh l.order h.valid.below_fresh, h.valid.distinct);
  below_fresh = (omega arith, All_weaken l.order h.valid.below_fresh);
  mem = omega (arith, h.valid.mem);
  unique = insert-IsMap key l.fresh l.items h.valid.unique;
  bounded = λ p. omega (arith, h.room p);
}
  where
    All_weaken : (o : List Element) → All (λ e. e.id < l.fresh) o → All (λ e. e.id < l.fresh + 1) o
    All_weaken [] a = tt
    All_weaken (x ∷ o) a = (omega (arith, a.0), All_weaken o a.1)
