-- ===== src/Engine/ListValue/Ends.antt =====
-- Pushes and pops at the two ends.
use pendem.Base.{
  ◌+◌, ◌≡◌, refl, ap, some, List, [], ◌∷◌, ◌++◌, Bytes, length, reverse, append_assoc, append-nil,
  arith, length-append,
}
use mathlib.Core.List.{reverse-append}
use pendem.Engine.ListValue.{
  ListValue, push_front_all, push_back_all, lpush, rpush, cons_rest, take_back, lpop, rpop,
}

push_front_all-reverse : (vs items : List Bytes) → push_front_all vs items ≡ reverse vs ++ items
unfolding push_front_all
push_front_all-reverse [] items = refl
push_front_all-reverse (v ∷ vs) items =
    rw (push_front_all-reverse vs (v ∷ items), reverse-append (v ∷ []) vs, append_assoc)

push_back_all-append : (vs items : List Bytes) → push_back_all vs items ≡ items ++ vs
unfolding push_back_all
push_back_all-append [] items = rw append-nil
push_back_all-append (v ∷ vs) items = rw (push_back_all-append vs (items ++ v ∷ []), append_assoc)

-- LPUSH puts the values in front, the last one first; RPUSH puts them behind in their order; both
-- return the new length.
pub push-items :
    (l : ListValue) (vs : List Bytes)
    → ((lpush l vs).0.items ≡ reverse vs ++ l.items)
      × ((rpush l vs).0.items ≡ l.items ++ vs)
      × ((lpush l vs).1 ≡ length (lpush l vs).0.items)
      × ((rpush l vs).1 ≡ length l.items + length vs)
unfolding lpush rpush
push-items l vs = (
  push_front_all-reverse vs l.items,
  push_back_all-append vs l.items,
  refl,
  omega
      (arith, ap (length {A = Bytes}) (push_back_all-append vs l.items), length-append l.items vs),
)

take_back-append : (xs : List Bytes) (v : Bytes) → take_back (xs ++ v ∷ []) ≡ some (v, xs)
unfolding take_back
take_back-append [] v = refl
take_back-append (x ∷ xs) v = rw (take_back-append xs v, cons_rest)

-- A pop takes back the last value that was pushed at its end, and leaves the list as it was.
pub pop-push :
    (l : ListValue) (v : Bytes)
    → (lpop (lpush l (v ∷ [])).0 ≡ (l, some v)) × (rpop (rpush l (v ∷ [])).0 ≡ (l, some v))
unfolding lpop rpop lpush rpush push_front_all push_back_all
pop-push l v = (refl, rw take_back-append)
