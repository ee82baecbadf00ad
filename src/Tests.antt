-- ===== src/Tests.antt =====
-- Runs of the theorems at concrete inputs.
use pendem.Base.{
  ◌⊎◌, All, ℕ, ◌+◌, ◌<◌, ◌≤◌, ltb, Bool, true, false, not, ◌&&◌, ◌||◌, Option, none, some, List, [],
  ◌∷◌, ◌++◌, reverse, Bytes, codes, equal, length, replicate, take, drop, lookup, insert, delete,
  if◌then◌else◌, ◌≡◌, refl, arith,
}
use pendem.Base.Int.{ℤ, pos, negsuc, pos_part}
use pendem.Resp.{from_list, RespValue, integer, bulk_string, null_bulk, array, nil, cons, ok}
use pendem.Resp.Encode.{encode}
use pendem.Resp.Parse.{read, max_resp_depth}
use pendem.Resp.RoundTrip.{IsReadable, read-encode}
use pendem.Resp.Progress.{read-progress}
use pendem.Persistence.Aof.{IsLoggable, command_value}
use pendem.Engine.Item.{Item, new_item}
use pendem.Engine.Lru
use pendem.Engine.Lru.{Lru}
use pendem.Engine.Lru.Invariant.{IsValid, new_lru-IsValid}
use pendem.Engine.Lru.Evict.{Evicts, make_memory-needed, evict_loop_ends}
use pendem.Engine.Lru.Operations.{
  Call, add_call, get_call, remove_call, run, run-IsValid, add_memory_bound,
}

abbrev request : RespValue
request = array (
    cons (bulk_string (codes "GET"))
      (cons (integer (negsuc 6)) (cons (array (cons null_bulk nil)) nil)))

request-IsReadable : IsReadable request max_resp_depth
request-IsReadable = (
  omega arith,
  omega arith,
  ((omega arith, omega arith), (omega arith, ((omega arith, omega arith, (tt, tt)), tt))),
)

read-request : read (encode request ++ codes "*") ≡ ok request (codes "*")
read-request = read-encode request (codes "*") request-IsReadable

read-encode_example : read (encode request ++ codes "*") ≡ ok request (codes "*")
read-encode_example = read-encode request (codes "*") request-IsReadable

abbrev log : List (Bytes × List Bytes)
log = (codes "SET", codes "k" ∷ codes "v" ∷ []) ∷ (codes "DEL", codes "k" ∷ []) ∷ []

log-AllLoggable : All IsLoggable log
unfolding command_value from_list
log-AllLoggable = (
  (
    omega arith,
    omega arith,
    ((omega arith, omega arith), ((omega arith, omega arith), ((omega arith, omega arith), tt))),
  ),
  ((omega arith, omega arith, ((omega arith, omega arith), ((omega arith, omega arith), tt))), tt),
)

read-progress_example : length (codes "*") < length (encode request ++ codes "*")
read-progress_example = read-progress (encode request ++ codes "*") (codes "*") request read-request

-- Three keys in an evictor of two entries and 200 bytes.
abbrev item : Bytes → Item
item text = new_item 0 text (pos 0)

abbrev calls : List Call
calls =
    add_call (codes "a") (item (codes "1"))
    ∷ add_call (codes "b") (item (codes "2"))
    ∷ get_call (codes "a")
    ∷ add_call (codes "c") (item (codes "3"))
    ∷ remove_call (codes "c")
    ∷ []

abbrev empty_lru : Lru
empty_lru = Lru.new_lru_with_memory (pos 2) (pos 200)

abbrev used_lru : Lru
used_lru = run calls empty_lru

empty_lru-IsValid : IsValid empty_lru
empty_lru-IsValid = new_lru-IsValid (pos 2) (pos 200)

run-IsValid_example : IsValid (run calls empty_lru)
run-IsValid_example = run-IsValid calls empty_lru empty_lru-IsValid

used_lru-IsValid : IsValid used_lru
used_lru-IsValid = run-IsValid calls empty_lru empty_lru-IsValid

used_lru_facts :
    (pos_part used_lru.max_memory ≡ 200)
    × (length used_lru.order ≡ 1)
    × (Lru.is_full used_lru ≡ false)
    × (used_lru.current_mem + Lru.calculate_size (codes "d") (item (codes "4")).value ≤ 200)
unfolding run pendem.Engine.Lru.Operations.call Lru.remove Lru.element_of lookup insert delete
    Lru.add Lru.make_memory Lru.get Lru.new_lru_with_memory new_item pendem.Base.Int.wrap64
    pendem.Base.Int.◌+ℤ◌ Lru.push_element Lru.update_element Lru.drop_element Lru.evict_loop equal
    Lru.find_element Lru.remove_element Lru.remove_oldest Lru.back Lru.calculate_size
used_lru_facts = (refl, refl, refl, omega arith)

make_memory-needed_example :
    Evicts 150 used_lru (Lru.make_memory 150 used_lru)
    × ((Lru.make_memory 150 used_lru ≡ used_lru)
        ⊎ ((0 < pos_part used_lru.max_memory)
            × (pos_part used_lru.max_memory < used_lru.current_mem + 150)))
make_memory-needed_example = make_memory-needed 150 used_lru used_lru-IsValid

add_memory_bound_example :
    (Lru.add (codes "d") (item (codes "4")) used_lru).current_mem ≤ pos_part used_lru.max_memory
add_memory_bound_example =
    add_memory_bound (codes "d") (item (codes "4")) used_lru used_lru-IsValid
      (rw (used_lru_facts.0) (omega arith))
      (rw (used_lru_facts.0) (omega (arith, used_lru_facts.3)))

evict_loop_ends_example :
    (Lru.over_memory 150 (Lru.evict_loop 2 150 used_lru)
      && ltb 0 (length (Lru.evict_loop 2 150 used_lru).order))
    ≡ false
evict_loop_ends_example =
    evict_loop_ends 2 150 used_lru used_lru-IsValid (rw (used_lru_facts.1) (omega arith))
