-- ===== src/Base/Strconv/RoundTrip.antt =====
-- Reading back a printed integer.
use pendem.Base.{
  ℕ, zero, suc, ◌+◌, ◌/◌, ◌%◌, ◌^◌, ◌≤◌, ◌<◌, ◌≡◌, ◌≢◌, refl, some, [], ◌∷◌, Bytes, ltb, inl, inr,
  Bool-cases, All, arith,
}
use pendem.Base.Int.{ℤ, pos, negsuc}
use pendem.Base.Strconv.{scan_digits, parse_uint, parse_int, digits, format_uint, format_int}

abbrev pub IsInt64 : ℤ → Type 0
IsInt64 (pos n) = n < 2 ^ 63
IsInt64 (negsuc n) = n < 2 ^ 63

abbrev pub IsDigit : ℕ → Type 0
IsDigit c = (48 ≤ c) × (c ≤ 57)

scan-digits : (f n : ℕ) (out : Bytes) → n < f → scan_digits (digits f n out) 0 ≡ scan_digits out n
unfolding digits
scan-digits zero n out h = absurd (omega arith)
scan-digits (suc f) n out h = elim (Bool-cases (ltb n 10)) [
  | inl small ↦ rw (small, digits) (unfold scan_digits in ground arith)
  | inr large ↦
      rw (large, digits)
        (rw (scan-digits f (n / 10) ((48 + n % 10) ∷ out) (ground arith))
          (unfold scan_digits in ground arith))
]

-- The digits come first, and there is at least one.
digits-cons :
    (f n : ℕ) (out : Bytes)
    → n < f
    → All IsDigit out
    → (c : ℕ) × (s : Bytes) × (digits f n out ≡ c ∷ s) × IsDigit c × All IsDigit s
unfolding digits
digits-cons zero n out h all = absurd (omega arith)
digits-cons (suc f) n out h all = elim (Bool-cases (ltb n 10)) [
  | inl small ↦ (48 + n % 10, out, rw (small, digits), (omega arith), all)
  | inr large ↦
      rw (large, digits)
        (digits-cons f (n / 10) ((48 + n % 10) ∷ out) (ground arith) ((omega arith), all))
]

pub format_uint-cons :
    (n : ℕ) → (c : ℕ) × (s : Bytes) × (format_uint n ≡ c ∷ s) × IsDigit c × All IsDigit s
unfolding format_uint
format_uint-cons n = digits-cons (suc n) n [] (omega arith) tt

scan-format_uint : (n : ℕ) → scan_digits (format_uint n) 0 ≡ some n
unfolding format_uint
scan-format_uint n = rw (scan-digits (suc n) n [] (omega arith)) (unfold scan_digits in refl)

pub parse_uint-format_uint : (n : ℕ) → parse_uint (format_uint n) ≡ some n
parse_uint-format_uint n =
    let (c, s, e, _, _) = format_uint-cons n in
    let scanned : scan_digits (c ∷ s) 0 ≡ some n = rw e at (scan-format_uint n) in
    rw e (unfold parse_uint in scanned)

All-IsDigit-no_lf : (s : Bytes) → All IsDigit s → All (λ c. c ≢ 10) s
All-IsDigit-no_lf [] h = tt
All-IsDigit-no_lf (c ∷ s) h = (omega arith, All-IsDigit-no_lf s h.1)

pub format_uint-no_lf : (n : ℕ) → All (λ c. c ≢ 10) (format_uint n)
format_uint-no_lf n =
    let (c, s, e, d, all) = format_uint-cons n in rw e (All-IsDigit-no_lf (c ∷ s) (d, all))

-- A printed 64-bit integer is read back as itself.
pub parse_int-format_int : (z : ℤ) → IsInt64 z → parse_int (format_int z) ≡ some z
unfolding parse_int format_int
parse_int-format_int (pos n) h =
    let (c, s, e, d, _) = format_uint-cons n in
    let parsed : parse_uint (c ∷ s) ≡ some n = rw e at (parse_uint-format_uint n) in
    rw e (ground arith)
parse_int-format_int (negsuc n) h = ground (arith, parse_uint-format_uint (suc n))

-- No digit, and no sign, is a line feed.
pub format_int-no_lf : (z : ℤ) → All (λ c. c ≢ 10) (format_int z)
unfolding format_int
format_int-no_lf (pos n) = format_uint-no_lf n
format_int-no_lf (negsuc n) = (omega arith, format_uint-no_lf (suc n))
