-- ===== src/Engine/Lru/Operations.antt =====
-- `Add`, `Get` and `Remove` keep the invariant, the limits and the memory bound.
use pendem.Base.{
  ℕ, ◌+◌, ◌≤◌, ◌<◌, ◌≡◌, ap, none, some, List, [], ◌∷◌, Bytes, if◌then◌else◌, arith, inl, inr,
  Bool-cases, Option-cases,
}
use pendem.Base.Int.{pos_part}
use pendem.Engine.Item.{Item}
use pendem.Engine.Lru.{
  Element, Lru, find_element, back, drop_element, remove_oldest, make_memory, is_full,
  update_element, push_element, calculate_size, add, get, remove,
}
use pendem.Engine.Lru.Order.{find_key, find_element-find_key, find_key-remove, find_element-back}
use pendem.Engine.Lru.Invariant.{
  IsValid, HasRoom, element_of-find_key, drop_element-IsValid, update_element-IsValid,
  to_front-IsValid, remove_oldest-IsValid, make_memory-IsValid, push-IsValid,
}
use pendem.Engine.Lru.Evict.{
  limits-remove_oldest, remove_oldest-DropsBack, length-DropsBack, make_memory_fits,
}

-- An element found by its key is found by its name.
pub found_by_name :
    (k : Bytes) (l : Lru) (e : Element)
    → IsValid l
    → find_key k l.order ≡ some e
    → find_element e.id l.order ≡ some e
found_by_name k l e v h = find_element-find_key k l.order v.distinct h

absent-remove_oldest :
    (k : Bytes) (l : Lru)
    → IsValid l
    → find_key k l.order ≡ none
    → find_key k (remove_oldest l).order ≡ none
unfolding remove_oldest drop_element
absent-remove_oldest k l v h = elim (Option-cases (back l.order)) [
  | inl e ↦ rw (e, remove_oldest) h
  | inr (x, e) ↦
      rw (e, remove_oldest)
        (ground (
          arith,
          find_key-remove x.id k l.order {e = x} v.distinct
              (find_element-back l.order v.distinct e),
        ))
]

-- The element that makes room in front of a push.
abbrev with_room : Lru → Lru
with_room l = if is_full l then remove_oldest l else l

with_room-HasRoom :
    (k : Bytes) (l : Lru) → IsValid l → find_key k l.order ≡ none → HasRoom k (with_room l)
with_room-HasRoom k l v h = elim (Bool-cases (is_full l)) [
  | inl full ↦ rw full (record {
    valid = remove_oldest-IsValid l v;
    absent = absent-remove_oldest k l v h;
    room = λ p.
        let s = limits-remove_oldest l in
        let d = remove_oldest-DropsBack l v (ground arith) in
        let cap = ap pos_part s.capacity in
        omega (arith, length-DropsBack d, cap, v.bounded (omega (arith, cap)));
  })
  | inr rest ↦ rw rest (record { valid = v; absent = h; room = λ p. ground arith })
]

push_element-IsValid :
    (key : Bytes) (value : Item) (size : ℕ) (l : Lru)
    → IsValid l
    → find_key key l.order ≡ none
    → IsValid (push_element key value size l)
unfolding push_element
push_element-IsValid key value size l v h =
    push-IsValid key value size (with_room l) (with_room-HasRoom key l v h)

pub add-IsValid : (key : Bytes) (value : Item) (l : Lru) → IsValid l → IsValid (add key value l)
unfolding add
add-IsValid key value l v = elim (Option-cases (find_key key l'.order)) [
  | inl e ↦ rw (element_of-find_key key l' v', e, add) (push_element-IsValid key value size l' v' e)
  | inr (x, e) ↦
      rw (element_of-find_key key l' v', e, add)
        (update_element-IsValid l' x v' (found_by_name key l' x v' e) value size)
]
  where
    size : ℕ
    size = calculate_size key value.value

    l' : Lru
    l' = make_memory size l

    v' : IsValid l'
    v' = make_memory-IsValid size l v

pub get-IsValid : (key : Bytes) (l : Lru) → IsValid l → IsValid (get key l).0
unfolding get
get-IsValid key l v = elim (Option-cases (find_key key l.order)) [
  | inl e ↦ rw (element_of-find_key key l v, e, get) v
  | inr (x, e) ↦
      rw (element_of-find_key key l v, e, get) (to_front-IsValid l x v (found_by_name key l x v e))
]

pub remove-IsValid : (key : Bytes) (l : Lru) → IsValid l → IsValid (remove key l).0
unfolding remove
remove-IsValid key l v = elim (Option-cases (find_key key l.order)) [
  | inl e ↦ rw (element_of-find_key key l v, e, remove) v
  | inr (x, e) ↦
      rw (element_of-find_key key l v, e, remove)
        (drop_element-IsValid l x v (found_by_name key l x v e))
]

-- The calls that change an evictor.
pub data Call : Type 0 where
  add_call : Bytes → Item → Call
  get_call remove_call : Bytes → Call

unfoldable pub call : Call → Lru → Lru
call (add_call key value) l = add key value l
call (get_call key) l = (get key l).0
call (remove_call key) l = (remove key l).0

unfoldable pub run : List Call → Lru → Lru
unfolding call
run [] l = l
run (c ∷ cs) l = run cs (call c l)

call-IsValid : (c : Call) (l : Lru) → IsValid l → IsValid (call c l)
unfolding call
call-IsValid (add_call key value) l v = add-IsValid key value l v
call-IsValid (get_call key) l v = get-IsValid key l v
call-IsValid (remove_call key) l v = remove-IsValid key l v

-- Whatever is called on an evictor that is valid, the map and the list agree, the memory counter is
-- the sum of the sizes held, and a positive capacity is not exceeded.
pub run-IsValid : (cs : List Call) (l : Lru) → IsValid l → IsValid (run cs l)
unfolding run
run-IsValid [] l v = v
run-IsValid (c ∷ cs) l v = run-IsValid cs (call c l) (call-IsValid c l v)

with_room-mem : (l : Lru) → IsValid l → (with_room l).current_mem ≤ l.current_mem
with_room-mem l v = elim (Bool-cases (is_full l)) [
  | inl full ↦ rw full (let d = remove_oldest-DropsBack l v (ground arith) in omega (arith, d.mem))
  | inr rest ↦ rw rest (omega arith)
]

-- On a valid evictor with a memory limit, an entry that fits under the limit on its own is added
-- within the limit.
pub add_memory_bound :
    (key : Bytes) (value : Item) (l : Lru)
    → IsValid l
    → 0 < pos_part l.max_memory
    → calculate_size key value.value ≤ pos_part l.max_memory
    → (add key value l).current_mem ≤ pos_part l.max_memory
unfolding add
add_memory_bound key value l v h h' = elim (Option-cases (find_key key l'.order)) [
  | inl e ↦
      rw (element_of-find_key key l' v', e, add)
        (unfold push_element in omega (arith, with_room-mem l' v', fits))
  | inr (x, e) ↦
      rw (element_of-find_key key l' v', e, add) (unfold update_element in omega (arith, fits))
]
  where
    size : ℕ
    size = calculate_size key value.value

    l' : Lru
    l' = make_memory size l

    v' : IsValid l'
    v' = make_memory-IsValid size l v

    fits : l'.current_mem + size ≤ pos_part l.max_memory
    fits = make_memory_fits size l v h h'
