-- ===== src/Engine/Lru/Evict.antt =====
-- What eviction drops: the least recently used elements, no more than needed, and enough.
use pendem.Base.{
  ℕ, ◌⊎◌, zero, suc, ◌+◌, ◌≤◌, ◌<◌, ◌≡◌, refl, ap, ◌∙◌, false, ◌&&◌, some, List, [], ◌∷◌, ◌++◌, ltb,
  length, arith, inl, inr, Bool-cases, Option-cases, append_assoc, append-nil, length-append,
}
use pendem.Base.Int.{pos_part}
use pendem.Engine.Lru.{
  Element, Lru, remove_element, back, drop_element, remove_oldest, evict_loop, make_memory,
  over_memory,
}
use pendem.Engine.Lru.Order.{
  sizes, IsDistinct, find_element-back, sizes-remove, back-none, back_distinct,
}
use pendem.Engine.Lru.Invariant.{IsValid, remove_oldest-IsValid, evict_loop-IsValid}

-- What eviction leaves alone.
pub record SameLimits (l l' : Lru) : Type 0 where
  pub capacity : l'.capacity ≡ l.capacity
  pub max_memory : l'.max_memory ≡ l.max_memory

remove_back :
    (o : List Element) {e : Element}
    → IsDistinct o
    → back o ≡ some e
    → o ≡ remove_element e.id o ++ e ∷ []
unfolding back remove_element
remove_back [] d h = ground arith
remove_back (x ∷ []) d h = ground arith
remove_back (x ∷ y ∷ o) {e} d h =
    ground (arith, remove_back (y ∷ o) {e = e}, back_distinct x.id (y ∷ o) {e = e})

pub limits-remove_oldest : (l : Lru) → SameLimits l (remove_oldest l)
unfolding remove_oldest drop_element
limits-remove_oldest l = elim (Option-cases (back l.order)) [
  | inl e ↦ rw (e, remove_oldest) (record { capacity = refl; max_memory = refl })
  | inr (x, e) ↦ rw (e, remove_oldest) (record { capacity = refl; max_memory = refl })
]

-- One element fewer, taken from the back, with its size.
pub record DropsBack (l : Lru) (l' : Lru) : Type 0 where
  pub oldest : Element
  pub order : l.order ≡ l'.order ++ oldest ∷ []
  pub mem : l'.current_mem + oldest.size ≡ l.current_mem

pub remove_oldest-DropsBack :
    (l : Lru) → IsValid l → 0 < length l.order → DropsBack l (remove_oldest l)
unfolding remove_oldest drop_element
remove_oldest-DropsBack l v h = elim (Option-cases (back l.order)) [
  | inl e ↦ absurd (let none_left = back-none l.order e in ground arith)
  | inr (x, e) ↦
      rw (e, remove_oldest)
        (record {
          oldest = x;
          order = remove_back l.order v.distinct e;
          mem = omega (
            arith,
            v.mem,
            sizes-remove x.id l.order {e = x} (find_element-back l.order v.distinct e),
          );
        })
]

pub length-DropsBack : {l l' : Lru} → DropsBack l l' → length l'.order + 1 ≡ length l.order
length-DropsBack {l} {l'} d =
    let e : length l.order ≡ length (l'.order ++ d.oldest ∷ []) = ap length d.order in
    omega (arith, e, length-append l'.order (d.oldest ∷ []))

-- What a run of evictions for `size` more bytes does to the list: it takes elements off the back,
-- and with the last one that it took the memory would not do.
pub record Evicts (size : ℕ) (l l' : Lru) : Type 0 where
  pub dropped : List Element
  pub order : l.order ≡ l'.order ++ dropped
  pub needed :
      (e : Element) (es : List Element)
      → dropped ≡ e ∷ es
      → pos_part l.max_memory < sizes l'.order + e.size + size

Evicts-none : (size : ℕ) (l : Lru) → Evicts size l l
Evicts-none size l = record {
  dropped = [];
  order = ground (arith, append-nil l.order);
  needed = λ e es p. ground arith;
}

needed_first :
    (size : ℕ) (l m l' : Lru) (d : DropsBack l m)
    → IsValid m
    → SameLimits l m
    → pos_part l.max_memory < l.current_mem + size
    → (dropped : List Element) → m.order ≡ l'.order ++ dropped
    → ((e : Element) (es : List Element)
        → dropped ≡ e ∷ es
        → pos_part m.max_memory < sizes l'.order + e.size + size)
    → (e : Element) (es : List Element) → dropped ++ d.oldest ∷ [] ≡ e ∷ es
    → pos_part l.max_memory < sizes l'.order + e.size + size
needed_first size l m l' d v s over [] order needed e es p =
    let same : m.order ≡ l'.order = rw append-nil at order in
    let total : sizes m.order ≡ sizes l'.order = ap sizes same in
    let head : d.oldest ≡ e = cc in
    omega (arith, d.mem, v.mem, total, over, ap (λ (x : Element). x.size) head)
needed_first size l m l' d v s over (x ∷ xs) order needed e es p =
    let head : x ≡ e = cc in
    omega (arith, needed x xs refl, ap pos_part s.max_memory, ap (λ (y : Element). y.size) head)

Evicts-suc :
    (size : ℕ) (l m l' : Lru)
    → IsValid m
    → SameLimits l m
    → pos_part l.max_memory < l.current_mem + size
    → DropsBack l m
    → Evicts size m l'
    → Evicts size l l'
Evicts-suc size l m l' v s over d ih = record {
  dropped = ih.dropped ++ d.oldest ∷ [];
  order = d.order ∙ ap (λ o. o ++ d.oldest ∷ []) ih.order ∙ append_assoc l'.order ih.dropped _;
  needed = needed_first size l m l' d v s over ih.dropped ih.order ih.needed;
}

evict_loop-Evicts : (f size : ℕ) (l : Lru) → IsValid l → Evicts size l (evict_loop f size l)
unfolding evict_loop
evict_loop-Evicts zero size l v = Evicts-none size l
evict_loop-Evicts (suc f) size l v =
    elim (Bool-cases (over_memory size l && ltb 0 (length l.order))) [
      | inl more ↦
          rw (more, evict_loop)
            (Evicts-suc size l (remove_oldest l) _ (remove_oldest-IsValid l v)
              (limits-remove_oldest l) (ground arith) (remove_oldest-DropsBack l v (ground arith))
              (evict_loop-Evicts f size (remove_oldest l) (remove_oldest-IsValid l v)))
      | inr done ↦ rw (done, evict_loop) (Evicts-none size l)
    ]

-- On a valid evictor the loop, with at least as much fuel as there are elements, ends because its
-- own test fails: the size fits, or no element is left.
pub evict_loop_ends :
    (f size : ℕ) (l : Lru)
    → IsValid l
    → length l.order ≤ f
    → (over_memory size (evict_loop f size l) && ltb 0 (length (evict_loop f size l).order)) ≡ false
unfolding evict_loop
evict_loop_ends zero size l v h = ground arith
evict_loop_ends (suc f) size l v h =
    elim (Bool-cases (over_memory size l && ltb 0 (length l.order))) [
      | inl more ↦
          rw (more, evict_loop)
            (evict_loop_ends f size (remove_oldest l) (remove_oldest-IsValid l v) (
              let d = remove_oldest-DropsBack l v (ground arith) in
              omega (arith, length-DropsBack d)))
      | inr done ↦ rw (done, evict_loop) done
    ]

sizes_empty : (o : List Element) → ltb 0 (length o) ≡ false → sizes o ≡ 0
unfolding sizes
sizes_empty [] h = refl
sizes_empty (x ∷ o) h = ground arith

limits-evict_loop : (f size : ℕ) (l : Lru) → SameLimits l (evict_loop f size l)
unfolding evict_loop
limits-evict_loop zero size l = record { capacity = refl; max_memory = refl }
limits-evict_loop (suc f) size l =
    elim (Bool-cases (over_memory size l && ltb 0 (length l.order))) [
      | inl more ↦
          let a = limits-remove_oldest l in
          let b = limits-evict_loop f size (remove_oldest l) in
          rw (more, evict_loop)
            (record {
              capacity = b.capacity ∙ a.capacity;
              max_memory = b.max_memory ∙ a.max_memory;
            })
      | inr done ↦ rw (done, evict_loop) (record { capacity = refl; max_memory = refl })
    ]

module _ (size : ℕ) (l : Lru) where
  pub limits-make_memory : SameLimits l (make_memory size l)
  unfolding make_memory
  limits-make_memory = elim (Bool-cases (ltb 0 (pos_part l.max_memory) && over_memory size l)) [
    | inl more ↦ rw (more, make_memory) (limits-evict_loop (length l.order) size l)
    | inr done ↦ rw (done, make_memory) (record { capacity = refl; max_memory = refl })
  ]

  -- On a valid evictor, making memory drops the least recently used elements, and no more of them
  -- than it needs.
  pub make_memory-Evicts : IsValid l → Evicts size l (make_memory size l)
  unfolding make_memory
  make_memory-Evicts v = elim (Bool-cases (ltb 0 (pos_part l.max_memory) && over_memory size l)) [
    | inl more ↦ rw (more, make_memory) (evict_loop-Evicts (length l.order) size l v)
    | inr done ↦ rw (done, make_memory) (Evicts-none size l)
  ]

  -- On a valid evictor, making memory drops the least recently used elements, and no more of them
  -- than it needs; and where the limit is off or there is room as it is, it leaves everything alone.
  pub make_memory-needed :
      IsValid l
      → Evicts size l (make_memory size l)
        × ((make_memory size l ≡ l)
            ⊎ ((0 < pos_part l.max_memory) × (pos_part l.max_memory < l.current_mem + size)))
  unfolding make_memory
  make_memory-needed v = (
    make_memory-Evicts v,
    elim (Bool-cases (ltb 0 (pos_part l.max_memory) && over_memory size l)) [
      | inl more ↦ inr (ground (arith, more), ground (arith, more))
      | inr done ↦ inl (rw (make_memory, done) refl)
    ],
  )

  -- Then there is memory for the size, unless the limit is off or the size alone is above it.
  pub make_memory_fits :
      IsValid l
      → 0 < pos_part l.max_memory
      → size ≤ pos_part l.max_memory
      → (make_memory size l).current_mem + size ≤ pos_part l.max_memory
  unfolding make_memory
  make_memory_fits v h h' =
      elim (Bool-cases (ltb 0 (pos_part l.max_memory) && over_memory size l)) [
        | inl more ↦
            rw (more, make_memory)
              (loop_fits (evict_loop (length l.order) size l)
                (limits-evict_loop (length l.order) size l)
                (evict_loop-IsValid (length l.order) size l v)
                (evict_loop_ends (length l.order) size l v (omega arith)))
        | inr done ↦ rw (done, make_memory) (ground arith)
      ]
    where
      loop_fits :
          (l' : Lru)
          → SameLimits l l'
          → IsValid l'
          → (over_memory size l' && ltb 0 (length l'.order)) ≡ false
          → l'.current_mem + size ≤ pos_part l.max_memory
      loop_fits l' s v' e = ground (arith, ap pos_part s.max_memory, v'.mem, sizes_empty l'.order)
