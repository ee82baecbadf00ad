-- ===== src/Engine/ListValue/Ranges.antt =====
-- `LRange` against the elements between two positions.
use pendem.Base.{
  ℕ, zero, suc, ◌+◌, ◌-◌, ◌≤◌, ◌<◌, ◌≡◌, refl, ap, sym, ◌∙◌, inl, inr, Bool-cases, List, [], ◌∷◌,
  Bytes, length, take, drop, ltb, if◌then◌else◌, arith,
}
use pendem.Base.Int.{ℤ, pos, negsuc, ◌+ℤ◌, ltb_ℤ}
use pendem.Engine.ListValue.{ListValue, range_loop, clamp_start, clamp_stop, lrange}

-- How many elements of a list of `n` stand before the index `start`; a negative index counts from
-- the end.
abbrev pub before : ℕ → ℤ → ℕ
before n (pos i) = i
before n (negsuc i) = n - suc i

-- How many stand at the index `stop` or before it.
abbrev pub up_to : ℕ → ℤ → ℕ
up_to n (pos i) = suc i
up_to n (negsuc i) = n - i

range_loop_over :
    (i stop : ℕ) (start : ℤ) (xs : List Bytes) → stop < i → range_loop i start (pos stop) xs ≡ []
unfolding range_loop
range_loop_over i stop start [] h = refl
range_loop_over i stop start (x ∷ xs) h = ground arith

range_loop-take :
    (i s k : ℕ) (xs : List Bytes) → s ≤ i → range_loop i (pos s) (pos (i + k)) xs ≡ take (suc k) xs
unfolding range_loop
range_loop-take i s k [] h = refl
range_loop-take i s zero (x ∷ xs) h = ground (arith, range_loop_over (i + 1) (i + 0) (pos s) xs)
range_loop-take i s (suc k) (x ∷ xs) h =
    let e : i + suc k ≡ i + 1 + k = omega arith in
    rw e (ground (arith, range_loop-take (i + 1) s k xs))

-- The loop keeps the elements from `i + a` to `i + b`.
range_loop-drop :
    (i a b : ℕ) (xs : List Bytes)
    → a ≤ b
    → range_loop i (pos (i + a)) (pos (i + b)) xs ≡ drop a (take (suc b) xs)
unfolding range_loop
range_loop-drop i zero b xs h =
    let e : i + 0 ≡ i = omega arith in rw e (range_loop-take i i b xs (omega arith))
range_loop-drop i (suc a) zero xs h = absurd (omega arith)
range_loop-drop i (suc a) (suc b) [] h = refl
range_loop-drop i (suc a) (suc b) (x ∷ xs) h =
    let e : i + suc a ≡ i + 1 + a = omega arith in
    let f : i + suc b ≡ i + 1 + b = omega arith in
    rw (e, f) (ground (arith, range_loop-drop (i + 1) a b xs))

pub drop-take_none {ℓ} : {A : Type ℓ} (a b : ℕ) (xs : List A) → b ≤ a → drop a (take b xs) ≡ []
drop-take_none zero zero xs h = refl
drop-take_none zero (suc b) xs h = absurd (omega arith)
drop-take_none (suc a) zero xs h = refl
drop-take_none (suc a) (suc b) [] h = refl
drop-take_none (suc a) (suc b) (x ∷ xs) h = drop-take_none a b xs (omega arith)

pub take_all {ℓ} : {A : Type ℓ} (n : ℕ) (xs : List A) → length xs ≤ n → take n xs ≡ xs
take_all zero [] h = refl
take_all zero (x ∷ xs) h = absurd (omega arith)
take_all (suc n) [] h = refl
take_all (suc n) (x ∷ xs) h = ap (◌∷◌ x) (take_all n xs (omega arith))

pub clamp_start-before : (n : ℕ) (z : ℤ) → clamp_start n z ≡ pos (before n z)
unfolding clamp_start ◌+ℤ◌
clamp_start-before n (pos i) = ground arith
clamp_start-before n (negsuc i) = ground arith

loop_lem :
    (a h : ℕ) (items : List Bytes)
    → (if ltb_ℤ (pos h) (pos a) then [] else range_loop 0 (pos a) (pos h) items)
      ≡ drop a (take (suc h) items)
loop_lem a h items = elim (Bool-cases (ltb_ℤ (pos h) (pos a))) [
  | inl over ↦ rw over (sym (drop-take_none a (suc h) items (ground arith)))
  | inr fits ↦
      let e : 0 + a ≡ a = omega arith in
      let f : 0 + h ≡ h = omega arith in
      rw fits (rw (e, f) at (range_loop-drop 0 a h items (ground arith)))
]

pub no_items {ℓ} :
    {A : Type ℓ} (a b : ℕ) (items : List A) → length items ≡ 0 → drop a (take b items) ≡ []
no_items zero zero [] h = refl
no_items zero (suc b) [] h = refl
no_items (suc a) zero [] h = refl
no_items (suc a) (suc b) [] h = refl
no_items a b (x ∷ items) h = absurd (omega arith)

-- The index of the last element, if there is one.
pub data Stop (n : ℕ) (z : ℤ) (s : ℤ) : Type 0 where
  inside : (h : ℕ) → s ≡ pos h → suc h ≡ up_to n z → Stop n z s
  behind : (h : ℕ) → s ≡ pos h → suc h ≡ n → n ≤ up_to n z → Stop n z s
  nothing : (h : ℕ) → s ≡ negsuc h → up_to n z ≡ 0 → Stop n z s

pub clamp_stop-Stop : (n : ℕ) (z : ℤ) → 0 < n → Stop n z (clamp_stop n z)
unfolding clamp_stop ◌+ℤ◌
clamp_stop-Stop n (pos i) h = elim (Bool-cases (ltb i n)) [
  | inl small ↦ Stop.inside i (ground arith) refl
  | inr large ↦ Stop.behind (n - 1) (ground arith) (omega arith) (ground arith)
]
clamp_stop-Stop n (negsuc i) h = elim (Bool-cases (ltb i n)) [
  | inl small ↦ Stop.inside (n - suc i) (ground arith) (ground arith)
  | inr large ↦ Stop.nothing (i - n) (ground arith) (ground arith)
]

range_lem :
    (a : ℕ) (z s : ℤ) (items : List Bytes)
    → Stop (length items) z s
    → (if ltb_ℤ s (pos a) then [] else range_loop 0 (pos a) s items)
      ≡ drop a (take (up_to (length items) z) items)
range_lem a z s items (inside h e f) = rw (e, ← f) (loop_lem a h items)
range_lem a z s items (behind h e f g) = rw e (
    loop_lem a h items
    ∙ ap (drop a)
        (take_all (suc h) items (omega arith) ∙ sym (take_all (up_to (length items) z) items g)))
range_lem a z s items (nothing h e f) = rw (e, f) (ground (arith, drop-take_none a 0 items))

-- LRANGE returns the elements from `start` to `stop`, where a negative index counts from the end.
pub lrange-drop-take :
    (l : ListValue) (start stop : ℤ)
    → lrange l start stop
      ≡ drop (before (length l.items) start) (take (up_to (length l.items) stop) l.items)
unfolding lrange
lrange-drop-take l start stop = elim (Bool-cases (ltb 0 (length l.items))) [
  | inl some_left ↦ rw (clamp_start-before (length l.items) start) (
      ground (
        arith,
        range_lem (before (length l.items) start) stop (clamp_stop (length l.items) stop) l.items
            (clamp_stop-Stop (length l.items) stop (ground arith)),
      ))
  | inr empty ↦
      ground (arith, no_items (before (length l.items) start) (up_to (length l.items) stop) l.items)
]
