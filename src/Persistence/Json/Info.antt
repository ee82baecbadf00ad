-- ===== src/Persistence/Json/Info.antt =====
-- `Info` and `formatSize` of internal/persistence/json.go. The number with one decimal that fmt prints of a
-- quotient, and the texts of the times, are parameters.
use mathlib.Core.Option
use mathlib.Core.Option.{Option}
use native.Mathlib.Nat.{mul-le-mul_right, pow-suc, pow-le-pow_right}
use pendem.Base.{
  ℕ, zero, suc, ◌+◌, ◌*◌, ◌/◌, ◌%◌, ◌^◌, ◌≤◌, ◌<◌, ◌≡◌, refl, ap, sym, ◌∙◌, true, false, Bool-cases,
  inl, inr, some, none, ◌∷◌, ◌++◌, Bytes, codes, get_elem?, ltb, if◌then◌else◌, arith,
}
use pendem.Base.Int.{ℤ, pos, negsuc, pos_part, ltb_ℤ}
use pendem.Base.Strconv.{format_int}

-- The loop of `formatSize`, with the unit and the exponent it ends with. The divisor is an int64, by its pattern.
unfoldable size_loop : ℕ → ℕ → ℕ → ℕ → Option (ℕ × ℕ)
size_loop zero n div exp = none
size_loop (suc fuel) n div exp =
    let rest = size_loop fuel (n / 1024) ((div * 1024) % 2 ^ 64) (exp + 1) in
    if ltb n 1024 then some (div, exp) else rest

-- A divisor that fits is not wrapped.
step :
    (fuel n div exp : ℕ)
    → 1024 ≤ n
    → div * 1024 < 2 ^ 64
    → size_loop (suc fuel) n div exp ≡ size_loop fuel (n / 1024) (div * 1024) (exp + 1)
unfolding size_loop
step fuel n div exp h fits =
    let same : (div * 1024) % 2 ^ 64 ≡ div * 1024 = omega arith in
    let test : ltb n 1024 ≡ false = ground arith in rw (test, same) refl

stop : (fuel n div exp : ℕ) → n < 1024 → size_loop (suc fuel) n div exp ≡ some (div, exp)
unfolding size_loop
stop fuel n div exp h = ground arith

smaller : (q n d b : ℕ) → q * 1024 ≤ n → n * d ≤ b → q * (d * 1024) ≤ b
smaller q n d b h e = omega (arith, mul-le-mul_right d h)

larger : (q n d b : ℕ) → n + 1 ≤ (q + 1) * 1024 → b < (n + 1) * d → b < (q + 1) * (d * 1024)
larger q n d b h e = omega (arith, mul-le-mul_right d h)

power : (k : ℕ) → 1024 ^ (k + 2) ≡ 1024 ^ (k + 1) * 1024
power k = let e : k + 2 ≡ suc (k + 1) = omega arith in rw e (pow-suc 1024 (k + 1))

-- Below 2 ^ 63 there are six units.
few : (exp b : ℕ) → 1024 ^ (exp + 1) ≤ b → b < 2 ^ 63 → exp < 6
few exp b h below = elim (Bool-cases (ltb exp 6)) [
  | inl less ↦ ground (arith, less)
  | inr more ↦
      let at_least : 6 ≤ exp = ground (arith, more) in
      let huge : 1024 ^ 7 ≤ 1024 ^ (exp + 1) =
        pow-le-pow_right {n = 1024} (omega arith) {i = 7} {j = exp + 1} (omega arith) in
      absurd (omega (arith, huge))
]

letter_of : (e : ℕ) → e < 6 → (letter : ℕ) × (get_elem? (codes "KMGTPE") e ≡ some letter)
letter_of zero h = (_, refl)
letter_of (suc zero) h = (_, refl)
letter_of (suc (suc zero)) h = (_, refl)
letter_of (suc (suc (suc zero))) h = (_, refl)
letter_of (suc (suc (suc (suc zero)))) h = (_, refl)
letter_of (suc (suc (suc (suc (suc zero))))) h = (_, refl)
letter_of (suc (suc (suc (suc (suc (suc e)))))) h = absurd (omega arith)

size_loop-unit :
    (fuel n div exp b : ℕ)
    → n < fuel
    → 1 ≤ n
    → n * div ≤ b
    → b < (n + 1) * div
    → div ≡ 1024 ^ (exp + 1)
    → b < 2 ^ 63
    → (e : ℕ) × (size_loop fuel n div exp ≡ some (1024 ^ (e + 1), e))
      × (1024 ^ (e + 1) ≤ b)
      × (b < 1024 ^ (e + 2))
size_loop-unit zero n div exp b enough one low high unit below = absurd (omega arith)
size_loop-unit (suc fuel) n div exp b enough one low high unit below =
    elim (Bool-cases (ltb n 1024)) [
      | inl h ↦
          let small : n < 1024 = ground (arith, h) in
          let le : div ≤ b = omega (arith, mul-le-mul_right div one) in
          let lt : b < 1024 * div = omega (arith, mul-le-mul_right div small) in
          (
            exp,
            rw (stop fuel n div exp small, unit) refl,
            rw (sym unit) le,
            (let next : 1024 ^ (exp + 2) ≡ 1024 ^ (exp + 1) * 1024 = power exp in
                omega (arith, unit, next, lt)),
          )
      | inr h ↦
          let large : 1024 ≤ n = ground (arith, h) in
          let q = n / 1024 in
          let low' : q * (div * 1024) ≤ b = smaller q n div b (omega arith) low in
          let positive : 1 ≤ q = omega arith in
          let fits : div * 1024 ≤ b = omega (arith, mul-le-mul_right (div * 1024) positive) in
          let (e, found, least, most) =
            size_loop-unit fuel q (div * 1024) (exp + 1) b (omega arith) positive low'
              (larger q n div b (omega arith) high)
              (let shift : exp + 1 + 1 ≡ exp + 2 = omega arith in
                rw shift (omega (arith, power exp, unit)))
              below in
          (e, step fuel n div exp large (omega arith) ∙ found, least, most)
    ]

-- What `os.Stat` answers: the size and the time of the last change, or an error.
pub data Stat : Type 0 where
  missing : Stat
  unreadable : Bytes → Stat
  file : ℤ → ℤ → Stat

-- The map that `Info` returns, with the values of its keys, or the error.
pub data Report : Type 0 where
  no_snapshot : Report
  failed : Bytes → Report
  snapshot : Bytes → ℤ → Bytes → Bytes → Bytes → Report

module _ (print_quotient : ℕ → ℕ → Bytes) where
  -- `none` is a panic of the runtime, on an index behind the letters.
  unfoldable pub format_size : ℤ → Option Bytes
  unfolding size_loop
  format_size bytes =
      if ltb_ℤ bytes (pos 1024)
      then some (format_int bytes ++ codes " B")
      else elim (size_loop (suc (pos_part bytes)) (pos_part bytes / 1024) 1024 0) [
        | none ↦ none
        | some (div, exp) ↦ elim (get_elem? (codes "KMGTPE") exp) [
          | none ↦ none
          | some letter ↦ some (print_quotient (pos_part bytes) div ++ 32 ∷ letter ∷ codes "B")
        ]
      ]

  module _ (print_time : ℤ → Bytes) (print_age : ℕ → ℤ → Bytes) where
    -- `Info` at a time, for what the file system says of the path; `none` is a panic.
    unfoldable info : ℕ → Bytes → Stat → Option Report
    unfolding format_size
    info now path missing = some no_snapshot
    info now path (unreadable e) = some (failed e)
    info now path (file size time) =
        Option.map (λ human. snapshot path size human (print_time time) (print_age now time))
          (format_size size)

  format_size_bytes :
      (z : ℤ) → ltb_ℤ z (pos 1024) ≡ true → format_size z ≡ some (format_int z ++ codes " B")
  unfolding format_size
  format_size_bytes z h = rw h refl

  -- A size of an int64 from 1024 on is printed, without a panic, as its quotient by the largest power of
  -- 1024 that is not above it, with the letter of that power.
  pub format_size-unit :
      (b : ℕ)
      → 1024 ≤ b
      → b < 2 ^ 63
      → (e : ℕ) × (letter : ℕ) × (format_size (pos b)
          ≡ some (print_quotient b (1024 ^ (e + 1)) ++ 32 ∷ letter ∷ codes "B"))
        × (get_elem? (codes "KMGTPE") e ≡ some letter)
        × (1024 ^ (e + 1) ≤ b)
        × (b < 1024 ^ (e + 2))
  unfolding format_size
  format_size-unit b large below =
      let (e, found, least, most) =
        size_loop-unit (suc b) (b / 1024) 1024 0 b (omega arith) (omega arith) (omega arith)
          (omega arith) refl below in
      let (letter, named) = letter_of e (few e b least below) in
      let test : ltb (b + 0) (1024 + 0) ≡ false = ground arith in
      (e, letter, rw (test, found, named) refl, named, least, most)

-- `Info` never panics, whatever int64 the size is.
info-total :
    (print_quotient : ℕ → ℕ → Bytes) (print_time : ℤ → Bytes) (print_age : ℕ → ℤ → Bytes) (now : ℕ)
    (path : Bytes) (size time : ℤ)
    → pos_part size < 2 ^ 63
    → (r : Report) × (info print_quotient print_time print_age now path (file size time) ≡ some r)
unfolding info
info-total print_quotient print_time print_age now path (pos b) time h =
    elim (Bool-cases (ltb b 1024)) [
      | inl small ↦
          let test : ltb_ℤ (pos b) (pos 1024) ≡ true = ground (arith, small) in
          (_, ap (Option.map _) (format_size_bytes print_quotient (pos b) test))
      | inr large ↦
          let (e, letter, found, named, least, most) =
            format_size-unit print_quotient b (ground (arith, large)) h in
          (_, ap (Option.map _) found)
    ]
info-total print_quotient print_time print_age now path (negsuc b) time h =
    (_, ap (Option.map _) (format_size_bytes print_quotient (negsuc b) (ground arith)))
