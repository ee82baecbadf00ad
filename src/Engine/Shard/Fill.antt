-- ===== src/Engine/Shard/Fill.antt =====
-- Adding entries one after another where there is room for all of them.
use pendem.Base.{
  ℕ, ◌+◌, ◌≤◌, ◌<◌, ◌≡◌, ◌≢◌, refl, ◌∙◌, false, Option, none, some, [], ◌∷◌, Bytes, Map, IsMap,
  length, lookup, arith, inl, inr, Bool-cases, Option-cases, equal, equal_iff,
}
use pendem.Base.Int.{pos_part}
use pendem.Engine.Item.{Item}
use pendem.Engine.Lru.{
  Element, Lru, find_element, make_memory, is_full, update_element, push_element, calculate_size,
  add,
}
use pendem.Engine.Lru.Order.{find_key, sizes-remove, length-remove}
use pendem.Engine.Lru.Invariant.{IsValid, element_of-find_key}
use pendem.Engine.Lru.Operations.{add-IsValid, found_by_name}
use pendem.Engine.Shard.{restore_loop}
use pendem.Engine.Lru.Lookups.{find, make_memory_room, find-add_self, find-add_room}

-- The sizes of the entries of a map.
unfoldable pub total_size : Map Item → ℕ
total_size [] = 0
total_size ((k, i) ∷ m) = calculate_size k i.value + total_size m

-- The limits of the evictor leave room for the entries.
pub record HasRoomFor (m : Map Item) (l : Lru) : Type 0 where
  pub memory : 0 < pos_part l.max_memory → l.current_mem + total_size m ≤ pos_part l.max_memory
  pub places : 0 < pos_part l.capacity → length l.order + length m ≤ pos_part l.capacity

entry_memory :
    (k : Bytes) (i : Item) (m : Map Item) (l : Lru)
    → HasRoomFor ((k, i) ∷ m) l
    → 0 < pos_part l.max_memory
    → l.current_mem + calculate_size k i.value ≤ pos_part l.max_memory
unfolding total_size
entry_memory k i m l r h = omega (arith, r.memory h)

entry_room :
    (k : Bytes) (i : Item) (m : Map Item) (l : Lru) → HasRoomFor ((k, i) ∷ m) l → is_full l ≡ false
entry_room k i m l r = ground (arith, r.places)

ne_of : (j k : Bytes) → equal j k ≡ false → j ≢ k
ne_of j k e p = cc ((equal_iff j k).1 p)

push-HasRoomFor :
    (k : Bytes) (i : Item) (m : Map Item) (l : Lru)
    → is_full l ≡ false
    → HasRoomFor ((k, i) ∷ m) l
    → HasRoomFor m (push_element k i (calculate_size k i.value) l)
unfolding push_element total_size
push-HasRoomFor k i m l room r =
    rw (push_element, room)
      (record { memory = λ h. omega (arith, r.memory h); places = λ h. omega (arith, r.places h) })

update-HasRoomFor :
    (k : Bytes) (i : Item) (m : Map Item) (l : Lru) (x : Element)
    → IsValid l
    → find_element x.id l.order ≡ some x
    → HasRoomFor ((k, i) ∷ m) l
    → HasRoomFor m (update_element i (calculate_size k i.value) x l)
unfolding update_element total_size
update-HasRoomFor k i m l x v found r = record {
  memory = λ h. omega (arith, r.memory h, v.mem, sizes-remove x.id l.order {e = x} found);
  places = λ h. omega (arith, r.places h, length-remove x.id l.order {e = x} found);
}

add-HasRoomFor :
    (k : Bytes) (i : Item) (m : Map Item) (l : Lru)
    → IsValid l
    → HasRoomFor ((k, i) ∷ m) l
    → HasRoomFor m (add k i l)
unfolding add total_size
add-HasRoomFor k i m l v r = elim (Option-cases (find_key k l.order)) [
  | inl e ↦
      rw (add, same, element_of-find_key k l v, e, same)
        (push-HasRoomFor k i m l (entry_room k i m l r) r)
  | inr (x, e) ↦
      rw (add, same, element_of-find_key k l v, e, same)
        (update-HasRoomFor k i m l x v (found_by_name k l x v e) r)
]
  where
    same : make_memory (calculate_size k i.value) l ≡ l
    same = make_memory_room (calculate_size k i.value) l (entry_memory k i m l r)

-- The value that a map holds, or else that the evictor does.
unfoldable pub first_found : Option Item → Option Item → Option Item
first_found (some i) o = some i
first_found none o = o

-- Where a valid evictor has room for the entries of a map in which no key stands twice, it holds all
-- of them after they are added, and what it held under other keys.
pub find-restore_loop :
    (m : Map Item) (l : Lru) (k : Bytes)
    → IsMap m
    → IsValid l
    → HasRoomFor m l
    → find k (restore_loop m l) ≡ first_found (lookup k m) (find k l)
unfolding restore_loop first_found lookup
find-restore_loop [] l k u v r = refl
find-restore_loop ((j, i) ∷ m) l k (absent, u) v r =
    find-restore_loop m (add j i l) k u (add-IsValid j i l v) (add-HasRoomFor j i m l v r)
    ∙ elim (Bool-cases (equal j k)) [
      | inl e ↦ let same = (equal_iff j k).0 e in rw (e, ← same, absent, find-add_self j i l v) refl
      | inr e ↦
          rw
            (
              e,
              find-add_room j k i l v (λ p. ne_of j k e p) (entry_memory j i m l r)
                  (entry_room j i m l r),
            )
            refl
    ]

pub restore_loop-IsValid : (m : Map Item) (l : Lru) → IsValid l → IsValid (restore_loop m l)
unfolding restore_loop
restore_loop-IsValid [] l v = v
restore_loop-IsValid ((j, i) ∷ m) l v = restore_loop-IsValid m (add j i l) (add-IsValid j i l v)
