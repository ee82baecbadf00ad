-- ===== src/Engine/Lru/Order.antt =====
-- Facts about the recency list: elements by name, and elements by key.
use pendem.Base.{
  ℕ, ◌+◌, ◌<◌, ◌≡◌, ◌≢◌, refl, Option, none, some, List, [], ◌∷◌, Bytes, ◌==◌, if◌then◌else◌,
  length, equal, equal_iff, equal_refl, All, arith, inl, inr, Bool-cases,
}
use pendem.Engine.Lru.{Element, find_element, remove_element, back}

-- The element with a key.
unfoldable pub find_key : Bytes → List Element → Option Element
find_key k [] = none
find_key k (e ∷ es) = if equal e.key k then some e else find_key k es

unfoldable pub sizes : List Element → ℕ
sizes [] = 0
sizes (e ∷ es) = e.size + sizes es

-- No two elements have the same key, or the same name.
abbrev pub IsDistinct : List Element → Type 0
IsDistinct [] = Unit {0}
IsDistinct (e ∷ es) = (find_key e.key es ≡ none) × (find_element e.id es ≡ none) × IsDistinct es

pub find_element-id :
    (i : ℕ) (o : List Element) {e : Element} → find_element i o ≡ some e → e.id ≡ i
unfolding find_element
find_element-id i [] h = ground arith
find_element-id i (x ∷ o) {e} h = ground (arith, find_element-id i o {e = e})

pub find_key-key : (k : Bytes) (o : List Element) {e : Element} → find_key k o ≡ some e → e.key ≡ k
unfolding find_key
find_key-key k [] h = ground arith
find_key-key k (x ∷ o) {e} h = ground (arith, find_key-key k o {e = e}, equal_iff x.key k)

-- The element found by its key is the one that has its name.
pub find_element-find_key :
    (k : Bytes) (o : List Element) {e : Element}
    → IsDistinct o
    → find_key k o ≡ some e
    → find_element e.id o ≡ some e
unfolding find_key find_element
find_element-find_key k [] d h = ground arith
find_element-find_key k (x ∷ o) {e} d h = ground (arith, find_element-find_key k o {e = e})

pub find_key-find_element :
    (i : ℕ) (o : List Element) {e : Element}
    → IsDistinct o
    → find_element i o ≡ some e
    → find_key e.key o ≡ some e
unfolding find_key find_element
find_key-find_element i [] d h = ground arith
find_key-find_element i (x ∷ o) {e} d h =
    ground (arith, find_key-find_element i o {e = e}, equal_iff x.key e.key, equal_refl x.key)

pub find_key-remove :
    (i : ℕ) (k : Bytes) (o : List Element) {e : Element}
    → IsDistinct o
    → find_element i o ≡ some e
    → find_key k (remove_element i o) ≡ (if equal e.key k then none else find_key k o)
unfolding find_key find_element remove_element
find_key-remove i k [] d h = ground arith
find_key-remove i k (x ∷ o) {e} d h = ground (
  arith,
  find_key-remove i k o {e = e},
  find_key-find_element i o {e = e},
  equal_iff x.key k,
  equal_iff e.key k,
)

find_key-remove_none :
    (i : ℕ) (k : Bytes) (o : List Element)
    → find_key k o ≡ none
    → find_key k (remove_element i o) ≡ none
unfolding find_key remove_element
find_key-remove_none i k [] h = refl
find_key-remove_none i k (x ∷ o) h = ground (arith, find_key-remove_none i k o)

find_element-remove_none :
    (i j : ℕ) (o : List Element)
    → find_element j o ≡ none
    → find_element j (remove_element i o) ≡ none
unfolding find_element remove_element
find_element-remove_none i j [] h = refl
find_element-remove_none i j (x ∷ o) h = ground (arith, find_element-remove_none i j o)

pub find_element-remove_self :
    (i : ℕ) (o : List Element) → IsDistinct o → find_element i (remove_element i o) ≡ none
unfolding find_element remove_element
find_element-remove_self i [] d = refl
find_element-remove_self i (x ∷ o) d = ground (arith, find_element-remove_self i o)

pub remove-IsDistinct : (i : ℕ) (o : List Element) → IsDistinct o → IsDistinct (remove_element i o)
unfolding remove_element
remove-IsDistinct i [] d = tt
remove-IsDistinct i (x ∷ o) d = elim (Bool-cases (x.id == i)) [
  | inl here ↦ rw (here, remove_element) d.2
  | inr later ↦
      rw (later, remove_element)
        (
          find_key-remove_none i x.key o d.0,
          find_element-remove_none i x.id o d.1,
          remove-IsDistinct i o d.2,
        )
]

pub All-remove {κ} :
    (P : Element → Type κ) (i : ℕ) (o : List Element) → All P o → All P (remove_element i o)
unfolding remove_element
All-remove P i [] h = tt
All-remove P i (x ∷ o) h = elim (Bool-cases (x.id == i)) [
  | inl here ↦ rw (here, remove_element) h.1
  | inr later ↦ rw (later, remove_element) (h.0, All-remove P i o h.1)
]

pub All-found {κ} :
    (P : Element → Type κ) (i : ℕ) (o : List Element) {e : Element}
    → All P o
    → find_element i o ≡ some e
    → P e
unfolding find_element
All-found P i [] h f = absurd (ground arith)
All-found P i (x ∷ o) {e} h f = elim (Bool-cases (x.id == i)) [
  | inl here ↦ let p : x ≡ e = ground arith in rw (← p) h.0
  | inr later ↦ All-found P i o h.1 (ground arith)
]

pub sizes-remove :
    (i : ℕ) (o : List Element) {e : Element}
    → find_element i o ≡ some e
    → sizes (remove_element i o) + e.size ≡ sizes o
unfolding sizes find_element remove_element
sizes-remove i [] h = ground arith
sizes-remove i (x ∷ o) {e} h = ground (arith, sizes-remove i o {e = e})

pub length-remove :
    (i : ℕ) (o : List Element) {e : Element}
    → find_element i o ≡ some e
    → length (remove_element i o) + 1 ≡ length o
unfolding find_element remove_element
length-remove i [] h = ground arith
length-remove i (x ∷ o) {e} h = ground (arith, length-remove i o {e = e})

pub back-none : (o : List Element) → back o ≡ none → o ≡ []
unfolding back
back-none [] h = refl
back-none (e ∷ []) h = ground arith
back-none (e ∷ f ∷ o) h = ground (arith, back-none (f ∷ o))

-- An element whose name is new is not found.
pub find_element_fresh :
    (i : ℕ) (o : List Element) → All (λ e. e.id < i) o → find_element i o ≡ none
unfolding find_element
find_element_fresh i [] h = refl
find_element_fresh i (x ∷ o) h = ground (arith, find_element_fresh i o)

pub back_distinct :
    (i : ℕ) (o : List Element) {e : Element} → find_element i o ≡ none → back o ≡ some e → e.id ≢ i
unfolding back find_element
back_distinct i [] n h = ground arith
back_distinct i (x ∷ []) n h = ground arith
back_distinct i (x ∷ y ∷ o) {e} n h = ground (arith, back_distinct i (y ∷ o) {e = e})

pub find_element-back :
    (o : List Element) {e : Element} → IsDistinct o → back o ≡ some e → find_element e.id o ≡ some e
unfolding back find_element
find_element-back [] d h = ground arith
find_element-back (x ∷ []) d h = ground arith
find_element-back (x ∷ y ∷ o) {e} d h =
    ground (arith, find_element-back (y ∷ o) {e = e}, back_distinct x.id (y ∷ o) {e = e})
