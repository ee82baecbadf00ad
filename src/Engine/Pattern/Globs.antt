-- ===== src/Engine/Pattern/Globs.antt =====
-- What a pattern matches, by where it has its stars.
use pendem.Base.{
  append-nil, ℕ, suc, ◌-◌, ◌≡◌, refl, ap, sym, ◌∙◌, inl, inr, true, false, Bool-cases, ◌↔◌, [], ◌∷◌,
  ◌++◌, Bytes, equal, equal_iff, equal_refl, length, length-append, take, drop, ltb,
  take-append-drop, take-length_append, drop-length_append, arith,
}
use pendem.Engine.Pattern.{has_prefix, has_suffix, contains, match_pattern, star, match-star}

has_prefix-append : (p r : Bytes) → has_prefix (p ++ r) p ≡ true
unfolding has_prefix
has_prefix-append [] r = refl
has_prefix-append (c ∷ p) r = ground (arith, has_prefix-append p r)

rest_of_prefix : (s p : Bytes) → has_prefix s p ≡ true → (r : Bytes) × (s ≡ p ++ r)
unfolding has_prefix
rest_of_prefix s [] h = (s, refl)
rest_of_prefix [] (c ∷ p) h = absurd (ground (arith, h))
rest_of_prefix (d ∷ s) (c ∷ p) h =
    let (r, e) = rest_of_prefix s p (ground (arith, h)) in
    let same : d ≡ c = ground (arith, h) in (r, rw (same, e) refl)

has_prefix_iff : (s p : Bytes) → (has_prefix s p ≡ true) ↔ ((r : Bytes) × (s ≡ p ++ r))
has_prefix_iff s p = (rest_of_prefix s p, λ (r, e). rw e (has_prefix-append p r))

has_suffix-append : (q p : Bytes) → has_suffix (q ++ p) p ≡ true
unfolding has_suffix
has_suffix-append q p =
    let size = length-append q p in
    let fits : ltb (length (q ++ p)) (length p) ≡ false = ground (arith, size) in
    let here : length (q ++ p) - length p ≡ length q = omega (arith, size) in
    rw (fits, here, drop-length_append q p) (equal_refl p)

start_of_suffix : (s p : Bytes) → has_suffix s p ≡ true → (q : Bytes) × (s ≡ q ++ p)
unfolding has_suffix
start_of_suffix s p h =
    let n = length s - length p in
    let same : equal (drop (length s - length p) s) p ≡ true = ground (arith, h) in
    (
      take n s,
      sym (take-append-drop n s) ∙ ap (λ t. take n s ++ t) ((equal_iff (drop n s) p).0 same),
    )

has_suffix_iff : (s p : Bytes) → (has_suffix s p ≡ true) ↔ ((q : Bytes) × (s ≡ q ++ p))
has_suffix_iff s p = (start_of_suffix s p, λ (q, e). rw e (has_suffix-append q p))

contains_here : (s p : Bytes) → has_prefix s p ≡ true → contains s p ≡ true
unfolding contains
contains_here [] p h = h
contains_here (c ∷ s) p h = ground (arith, h)

contains-append : (q p r : Bytes) → contains (q ++ (p ++ r)) p ≡ true
unfolding contains
contains-append [] p r = contains_here (p ++ r) p (has_prefix-append p r)
contains-append (c ∷ q) p r = ground (arith, contains-append q p r)

around : (s p : Bytes) → contains s p ≡ true → (q : Bytes) × (r : Bytes) × (s ≡ q ++ (p ++ r))
unfolding contains
around [] p h = let (r, e) = rest_of_prefix [] p h in ([], r, e)
around (c ∷ s) p h = elim (Bool-cases (has_prefix (c ∷ s) p)) [
  | inl here ↦ let (r, e) = rest_of_prefix (c ∷ s) p here in ([], r, e)
  | inr later ↦
      let (q, r, e) = around s p (ground (arith, h, later)) in (c ∷ q, r, ap (λ t. c ∷ t) e)
]

contains_iff :
    (s p : Bytes) → (contains s p ≡ true) ↔ ((q : Bytes) × (r : Bytes) × (s ≡ q ++ (p ++ r)))
contains_iff s p = (around s p, λ (q, r, e). rw e (contains-append q p r))

not_star : (w : Bytes) → has_prefix w star ≡ false → equal w star ≡ false
unfolding has_prefix equal
not_star [] h = refl
not_star (c ∷ w) h = ground (arith, h)

longer : (a c : ℕ) (w : Bytes) → has_suffix (a ∷ c ∷ w) star ≡ has_suffix (c ∷ w) star
unfolding has_suffix
longer a c w =
    let long : ltb (suc (suc (length w))) 1 ≡ false = ground arith in
    let short : ltb (suc (length w)) 1 ≡ false = ground arith in
    let here : suc (suc (length w)) - 1 ≡ suc (length w) = omega arith in
    let there : suc (length w) - 1 ≡ length w = omega arith in rw (long, short, here, there) refl

before_star : (w : Bytes) → take (length (w ++ star) - 1) (w ++ star) ≡ w
before_star w =
    let here : length (w ++ star) - 1 ≡ length w = omega (arith, length-append w star) in
    rw here (take-length_append w star)

-- A text with no star at its ends, for the four patterns that it makes.
literal :
    (w key : Bytes)
    → has_prefix w star ≡ false
    → has_suffix w star ≡ false
    → match_pattern key w ≡ equal key w
unfolding match_pattern
literal w key no_first no_last = rw (not_star w no_first, no_first, no_last) refl

from_star :
    (w key : Bytes) → has_suffix w star ≡ false → match_pattern key (star ++ w) ≡ has_suffix key w
unfolding match_pattern equal has_prefix
from_star [] key no_last = sym ((has_suffix_iff key []).1 (key, sym (append-nil key)))
from_star (c ∷ w) key no_last = rw (longer 42 c w, no_last) refl

two_stars : (w : Bytes) → equal (star ++ (w ++ star)) star ≡ false
unfolding equal
two_stars [] = refl
two_stars (c ∷ w) = refl

to_star :
    (w key : Bytes) → has_prefix w star ≡ false → match_pattern key (w ++ star) ≡ has_prefix key w
unfolding match_pattern
to_star [] key no_first = match-star key
to_star (c ∷ w) key no_first =
    let first : has_prefix (c ∷ (w ++ star)) star ≡ false = no_first in
    rw
      (not_star (c ∷ (w ++ star)) first, first, has_suffix-append (c ∷ w) star, before_star (c ∷ w))
      refl

between_stars : (w key : Bytes) → match_pattern key (star ++ (w ++ star)) ≡ contains key w
unfolding match_pattern
between_stars w key =
    let size : length (star ++ (w ++ star)) - 2 ≡ length w = omega (arith, length-append w star) in
    rw (two_stars w, has_suffix-append (star ++ w) star, size, take-length_append w star) refl

-- For a text `w` with no star at its ends: the pattern `w` matches that text alone, `*w` what ends
-- in it, `w*` what starts with it, and `*w*` what has it inside.
pub match_pattern-glob :
    (w key : Bytes)
    → has_prefix w star ≡ false
    → has_suffix w star ≡ false
    → ((match_pattern key w ≡ true) ↔ (key ≡ w))
      × ((match_pattern key (star ++ w) ≡ true) ↔ ((q : Bytes) × (key ≡ q ++ w)))
      × ((match_pattern key (w ++ star) ≡ true) ↔ ((r : Bytes) × (key ≡ w ++ r)))
      × ((match_pattern key (star ++ (w ++ star)) ≡ true)
          ↔ ((q : Bytes) × (r : Bytes) × (key ≡ q ++ (w ++ r))))
match_pattern-glob w key no_first no_last = (
  rw (literal w key no_first no_last) (equal_iff key w),
  rw (from_star w key no_last) (has_suffix_iff key w),
  rw (to_star w key no_first) (has_prefix_iff key w),
  rw (between_stars w key) (contains_iff key w),
)
