-- ===== src/Engine/SortedSet/Order.antt =====
-- `Range` of internal/engine/sortedset.go: the members in the order of their scores.
use mathlib.Core.List.{Perm}
use mathlib.Core.List.Perm
use pendem.Base.{
  ℕ, zero, suc, ◌+◌, ◌-◌, ◌≤◌, ◌≡◌, refl, sym, ap, ◌∙◌, true, false, not, ◌||◌, inl, inr,
  Bool-cases, List, [], ◌∷◌, Bytes, All, length, take, drop, ltb, if◌then◌else◌, arith,
}
use pendem.Base.Int.{ℤ, pos, negsuc, ltb_ℤ, pos_part}
use pendem.Engine.ListValue.{clamp_start, clamp_stop}
use pendem.Engine.ListValue.Ranges.{
  before, up_to, drop-take_none, take_all, no_items, clamp_start-before, clamp_stop-Stop, Stop,
  inside, behind, nothing,
}
use pendem.Engine.SortedSet.{Floats, SortedSet, insert_by_score, sort_by_score, range}

-- What `<` is on the floats that are no NaN: none is below one that is below it, and where it is
-- below one it is not below those that are above.
pub record IsOrder {F : Type 0} (fl : Floats F) (IsNumber : F → Type 0) : Type 0 where
  pub less_asym : (a b : F) → IsNumber a → IsNumber b → fl.less a b ≡ true → fl.less b a ≡ false
  pub less_neg_trans :
      (a b c : F)
      → IsNumber a
      → IsNumber b
      → IsNumber c
      → fl.less b a ≡ false
      → fl.less c b ≡ false
      → fl.less c a ≡ false

module _ {F : Type 0} (fl : Floats F) where
  -- No member has a lower score than one before it.
  abbrev pub IsOrdered : List (Bytes × F) → Type 0
  IsOrdered [] = Unit
  IsOrdered (m ∷ ms) = All (λ n. fl.less n.1 m.1 ≡ false) ms × IsOrdered ms

  insert_by_score-perm :
      (m : Bytes × F) (ns : List (Bytes × F)) → Perm (insert_by_score fl m ns) (m ∷ ns)
  unfolding insert_by_score
  insert_by_score-perm m [] = Perm.refl (m ∷ [])
  insert_by_score-perm m (n ∷ ns) = elim (Bool-cases (fl.less n.1 m.1)) [
    | inl e ↦
        rw (e, insert_by_score)
          (Perm.trans (Perm.cons n (insert_by_score-perm m ns)) (Perm.swap m n ns))
    | inr e ↦ rw (e, insert_by_score) (Perm.refl (m ∷ n ∷ ns))
  ]

  sort_by_score-perm : (ms : List (Bytes × F)) → Perm (sort_by_score fl ms) ms
  unfolding sort_by_score
  sort_by_score-perm [] = Perm.refl []
  sort_by_score-perm (m ∷ ms) =
      Perm.trans (insert_by_score-perm m (sort_by_score fl ms))
        (Perm.cons m (sort_by_score-perm ms))

  insert_by_score-All :
      (P : Bytes × F → Type 0) (m : Bytes × F) (ns : List (Bytes × F))
      → P m
      → All P ns
      → All P (insert_by_score fl m ns)
  unfolding insert_by_score
  insert_by_score-All P m [] h hs = (h, tt)
  insert_by_score-All P m (n ∷ ns) h hs = elim (Bool-cases (fl.less n.1 m.1)) [
    | inl e ↦ rw (e, insert_by_score) (hs.0, insert_by_score-All P m ns h hs.1)
    | inr e ↦ rw (e, insert_by_score) (h, hs)
  ]

  sort_by_score-All :
      (P : Bytes × F → Type 0) (ms : List (Bytes × F)) → All P ms → All P (sort_by_score fl ms)
  unfolding sort_by_score
  sort_by_score-All P [] h = tt
  sort_by_score-All P (m ∷ ms) h =
      insert_by_score-All P m (sort_by_score fl ms) h.0 (sort_by_score-All P ms h.1)

  module _ (IsNumber : F → Type 0) (order : IsOrder fl IsNumber) where
    abbrev Numbers : List (Bytes × F) → Type 0
    Numbers = All (λ m. IsNumber m.1)

    All-above :
        (m n : Bytes × F) (ns : List (Bytes × F))
        → IsNumber m.1
        → IsNumber n.1
        → Numbers ns
        → fl.less n.1 m.1 ≡ false
        → All (λ k. fl.less k.1 n.1 ≡ false) ns
        → All (λ k. fl.less k.1 m.1 ≡ false) ns
    All-above m n [] hm hn hs e h = tt
    All-above m n (k ∷ ns) hm hn hs e h =
        (order.less_neg_trans m.1 n.1 k.1 hm hn hs.0 e h.0, All-above m n ns hm hn hs.1 e h.1)

    insert_by_score-IsOrdered :
        (m : Bytes × F) (ns : List (Bytes × F))
        → IsNumber m.1
        → Numbers ns
        → IsOrdered ns
        → IsOrdered (insert_by_score fl m ns)
    unfolding insert_by_score
    insert_by_score-IsOrdered m [] hm hs o = (tt, tt)
    insert_by_score-IsOrdered m (n ∷ ns) hm hs o = elim (Bool-cases (fl.less n.1 m.1)) [
      | inl e ↦
          rw (e, insert_by_score)
            (
              insert_by_score-All _ m ns (order.less_asym n.1 m.1 hs.0 hm e) o.0,
              insert_by_score-IsOrdered m ns hm hs.1 o.1,
            )
      | inr e ↦ rw (e, insert_by_score) ((e, All-above m n ns hm hs.0 hs.1 e o.0), o)
    ]

    sort_by_score-IsOrdered : (ms : List (Bytes × F)) → Numbers ms → IsOrdered (sort_by_score fl ms)
    unfolding sort_by_score
    sort_by_score-IsOrdered [] h = tt
    sort_by_score-IsOrdered (m ∷ ms) h =
        insert_by_score-IsOrdered m (sort_by_score fl ms) h.0 (sort_by_score-All _ ms h.1)
          (sort_by_score-IsOrdered ms h.1)

take-none {ℓ} : {A : Type ℓ} (n : ℕ) → take {A = A} n [] ≡ []
take-none zero = refl
take-none (suc n) = refl

take-drop {ℓ} : {A : Type ℓ} (a b : ℕ) (xs : List A) → take (b - a) (drop a xs) ≡ drop a (take b xs)
take-drop zero b xs = let e : b - 0 ≡ b = omega arith in rw e refl
take-drop (suc a) b [] = take-none (b - suc a) ∙ sym (rw (take-none b) refl)
take-drop (suc a) zero (x ∷ xs) = let e : 0 - suc a ≡ 0 = omega arith in rw e refl
take-drop (suc a) (suc b) (x ∷ xs) =
    let e : suc b - suc a ≡ b - a = omega arith in rw e (take-drop a b xs)

drop-take_behind {ℓ} :
    {A : Type ℓ} (a b : ℕ) (xs : List A) → length xs ≤ a → drop a (take b xs) ≡ []
drop-take_behind zero zero xs h = refl
drop-take_behind zero (suc b) [] h = refl
drop-take_behind zero (suc b) (x ∷ xs) h = absurd (omega arith)
drop-take_behind (suc a) zero xs h = refl
drop-take_behind (suc a) (suc b) [] h = refl
drop-take_behind (suc a) (suc b) (x ∷ xs) h = drop-take_behind a b xs (omega arith)

-- The slice of `Range` at the indices after the adjustments.
abbrev slice {ℓ} : {A : Type ℓ} → ℤ → ℤ → List A → List A
slice start stop xs =
    if ltb_ℤ stop start || not (ltb_ℤ start (pos (length xs)))
    then []
    else take (pos_part stop + 1 - pos_part start) (drop (pos_part start) xs)

slice-drop-take {ℓ} :
    {A : Type ℓ} (a h : ℕ) (xs : List A) → slice (pos a) (pos h) xs ≡ drop a (take (suc h) xs)
slice-drop-take a h xs = elim (Bool-cases (ltb_ℤ (pos h) (pos a))) [
  | inl over ↦ rw over (sym (drop-take_none a (suc h) xs (ground arith)))
  | inr fits ↦ elim (Bool-cases (ltb_ℤ (pos a) (pos (length xs)))) [
    | inl small ↦
        let e : h + 1 ≡ suc h = omega arith in rw (fits, small) (rw e (take-drop a (suc h) xs))
    | inr large ↦ rw (fits, large) (sym (drop-take_behind a (suc h) xs (ground arith)))
  ]
]

slice-Stop {ℓ} :
    {A : Type ℓ} (a : ℕ) (z s : ℤ) (xs : List A)
    → Stop (length xs) z s
    → slice (pos a) s xs ≡ drop a (take (up_to (length xs) z) xs)
slice-Stop a z s xs (inside h e f) = rw (e, ← f) (slice-drop-take a h xs)
slice-Stop a z s xs (behind h e f g) = rw e (
    slice-drop-take a h xs
    ∙ ap (drop a) (take_all (suc h) xs (omega arith) ∙ sym (take_all (up_to (length xs) z) xs g)))
slice-Stop a z s xs (nothing h e f) =
    let over : ltb_ℤ (negsuc h) (pos a) ≡ true = ground arith in
    rw (e, f) (rw over (sym (drop-take_none a 0 xs (omega arith))))

slice-clamped {ℓ} :
    {A : Type ℓ} (start stop : ℤ) (xs : List A)
    → slice (clamp_start (length xs) start) (clamp_stop (length xs) stop) xs
      ≡ drop (before (length xs) start) (take (up_to (length xs) stop) xs)
slice-clamped start stop xs =
    rw (clamp_start-before (length xs) start) (elim (Bool-cases (ltb 0 (length xs))) [
      | inl some_left ↦
          slice-Stop (before (length xs) start) stop (clamp_stop (length xs) stop) xs
            (clamp_stop-Stop (length xs) stop (ground arith))
      | inr empty ↦ ground (arith, no_items (before (length xs) start) (up_to (length xs) stop) xs)
    ])

-- Where no score is NaN, ZRANGE returns the members from `start` to `stop`, where a negative index
-- counts from the end, of a list that holds just the members of the set, each as often, in the order
-- of their scores.
pub range-IsOrdered :
    {F : Type 0} (fl : Floats F) (IsNumber : F → Type 0) (ss : SortedSet F) (start stop : ℤ)
    → IsOrder fl IsNumber
    → All (λ m. IsNumber m.1) ss.members
    → (sorted : List (Bytes × F)) × IsOrdered fl sorted
      × Perm sorted ss.members
      × (range fl ss start stop
          ≡ drop (before (length sorted) start) (take (up_to (length sorted) stop) sorted))
unfolding range
range-IsOrdered fl IsNumber ss start stop order numbers = (
  sort_by_score fl ss.members,
  sort_by_score-IsOrdered fl IsNumber order ss.members numbers,
  sort_by_score-perm fl ss.members,
  slice-clamped start stop (sort_by_score fl ss.members),
)
