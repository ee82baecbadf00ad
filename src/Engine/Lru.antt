-- ===== src/Engine/Lru.antt =====
-- internal/engine/lru.go. A `*list.Element` is a number that names an element of `order`, most
-- recently used first; `items` maps a key to the name of its element, as the source's map does.
pub mod Order
pub mod Invariant
pub mod Evict
pub mod Operations
pub mod Lookups
use pendem.Base.{
  ℕ, zero, suc, ◌+◌, ◌-◌, Bool, true, false, ◌&&◌, not, Option, none, some, List, [], ◌∷◌, Bytes,
  Map, ltb, leb, ◌==◌, if◌then◌else◌, length, lookup, insert, delete,
}
use pendem.Base.Int.{ℤ, pos, pos_part}
use pendem.Engine.Item.{Item, is_expired}

-- A `list.Element` with the `lruEntry` that it holds.
pub record Element : Type 0 where
  pub id : ℕ
  pub key : Bytes
  pub value : Item
  pub size : ℕ

pub record Lru : Type 0 where
  pub capacity : ℤ
  pub max_memory : ℤ
  pub current_mem : ℕ
  pub items : Map ℕ
  pub order : List Element
  -- the name of the next element that is allocated
  pub fresh : ℕ

unfoldable pub new_lru_with_memory : ℤ → ℤ → Lru
new_lru_with_memory capacity max_memory = record {
  capacity = capacity;
  max_memory = max_memory;
  current_mem = 0;
  items = [];
  order = [];
  fresh = 0;
}

unfoldable pub new_lru : ℤ → Lru
unfolding new_lru_with_memory
new_lru capacity = new_lru_with_memory capacity (pos 0)

-- elem.Value
unfoldable pub find_element : ℕ → List Element → Option Element
find_element i [] = none
find_element i (e ∷ es) = if e.id == i then some e else find_element i es

-- l.order.Remove(elem)
unfoldable pub remove_element : ℕ → List Element → List Element
remove_element i [] = []
remove_element i (e ∷ es) = if e.id == i then es else e ∷ remove_element i es

-- l.order.Back()
unfoldable pub back : List Element → Option Element
back [] = none
back (e ∷ []) = some e
back (e ∷ f ∷ es) = back (f ∷ es)

unfoldable pub calculate_size : Bytes → Bytes → ℕ
calculate_size key value = length key + length value

unfoldable pub drop_element : Element → Lru → Lru
drop_element e l = record l {
  current_mem = l.current_mem - e.size;
  order = remove_element e.id l.order;
  items = delete e.key l.items;
}

unfoldable pub remove_oldest : Lru → Lru
unfolding drop_element
remove_oldest l = elim (back l.order) [ none ↦ l | some e ↦ drop_element e l ]

-- `l.currentMem+itemSize > l.maxMemory`, where `maxMemory` is positive.
abbrev pub over_memory : ℕ → Lru → Bool
over_memory size l = ltb (pos_part l.max_memory) (l.current_mem + size)

-- The loop that evicts until there is memory; its fuel is the number of elements.
unfoldable pub evict_loop : ℕ → ℕ → Lru → Lru
evict_loop zero size l = l
evict_loop (suc f) size l = elim (over_memory size l && ltb 0 (length l.order)) [
  | true ↦ evict_loop f size (remove_oldest l)
  | false ↦ l
]

unfoldable pub make_memory : ℕ → Lru → Lru
unfolding evict_loop
make_memory size l =
    if ltb 0 (pos_part l.max_memory) && over_memory size l
    then evict_loop (length l.order) size l
    else l

-- `l.capacity > 0 && l.order.Len() >= l.capacity`
abbrev pub is_full : Lru → Bool
is_full l = ltb 0 (pos_part l.capacity) && leb (pos_part l.capacity) (length l.order)

-- The key is there: its element goes to the front with the new value.
unfoldable pub update_element : Item → ℕ → Element → Lru → Lru
update_element value size e l = record l {
  current_mem = l.current_mem - e.size + size;
  order = record e { value = value; size = size } ∷ remove_element e.id l.order;
}

-- The key is new: the oldest element makes room, and a new one comes in front.
unfoldable pub push_element : Bytes → Item → ℕ → Lru → Lru
push_element key value size l =
    let l' : Lru = if is_full l then remove_oldest l else l in
    record l' {
      current_mem = l'.current_mem + size;
      order = record { id = l'.fresh; key = key; value = value; size = size } ∷ l'.order;
      items = insert key l'.fresh l'.items;
      fresh = l'.fresh + 1;
    }

-- The element that a key of the map points to.
unfoldable pub element_of : Bytes → Lru → Option Element
element_of key l = elim (lookup key l.items) [ none ↦ none | some i ↦ find_element i l.order ]

unfoldable pub add : Bytes → Item → Lru → Lru
unfolding calculate_size
add key value l =
    let size = calculate_size key value.value in
    let l' = make_memory size l in
    elim (element_of key l') [
      | some e ↦ update_element value size e l'
      | none ↦ push_element key value size l'
    ]

unfoldable pub has : Bytes → Lru → Bool
has key l = elim (lookup key l.items) [ none ↦ false | some i ↦ true ]

unfoldable pub get : Bytes → Lru → Lru × Option Item
get key l = elim (element_of key l) [
  | none ↦ (l, none)
  | some e ↦ (record l { order = e ∷ remove_element e.id l.order }, some e.value)
]

unfoldable pub remove : Bytes → Lru → Lru × Bool
unfolding drop_element
remove key l = elim (element_of key l) [ none ↦ (l, false) | some e ↦ (drop_element e l, true) ]

unfoldable pub len : Lru → ℕ
len l = length l.order

unfoldable pub memory_usage : Lru → ℕ
memory_usage l = l.current_mem

-- The entries of the map that are not expired, in the order of iteration.
unfoldable pub live_entries : ℕ → Map ℕ → Lru → List (Bytes × Item)
live_entries now [] l = []
live_entries now ((key, i) ∷ m) l =
    let rest = live_entries now m l in
    elim (find_element i l.order) [
      | none ↦ rest
      | some e ↦ if is_expired now e.value then rest else (key, e.value) ∷ rest
    ]

unfoldable pub get_items : ℕ → Lru → Map Item
unfolding live_entries
get_items now l = live_entries now l.items l

keys : Map Item → List Bytes
keys [] = []
keys ((k, i) ∷ m) = k ∷ keys m

unfoldable pub get_keys : ℕ → Lru → List Bytes
unfolding live_entries keys
get_keys now l = keys (live_entries now l.items l)
