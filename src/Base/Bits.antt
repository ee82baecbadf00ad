-- ===== src/Base/Bits.antt =====
-- `&` on unsigned numbers: the result is at most the mask.
use Prim.Native.Nat.{bit_and, min, digits, bit_and-bitwise}
use native.Mathlib.Nat.{le_refl, mul_assoc, pow-suc, one-le-pow, div-add-mod', mod-lt, mod_self}
use pendem.Base.{
  Bool-cases, ◌==◌, ℕ, zero, suc, ◌+◌, ◌-◌, ◌*◌, ◌/◌, ◌%◌, ◌^◌, ◌≤◌, ◌<◌, ◌≡◌, inl, inr, ◌↔◌, refl,
  ap, sym, ◌∙◌, arith,
}

digits-le : (n a b : ℕ) → digits (λ b. zero) min n a b ≤ b
digits-le zero a b = omega arith
digits-le (suc n) zero b = omega arith
digits-le (suc n) (suc a) b = omega (arith, digits-le n (suc a / 2) (b / 2))

pub bit_and-le : (a b : ℕ) → bit_and a b ≤ b
bit_and-le zero b = omega (arith, bit_and-bitwise 0 b)
bit_and-le (suc a) b = omega (arith, bit_and-bitwise (suc a) b, digits-le (suc a) (suc a) b)

-- The count of digits to go may be anything that is not below the first number.
digits-room :
    (n m a b : ℕ) → a ≤ n → a ≤ m → digits (λ _. zero) min n a b ≡ digits (λ _. zero) min m a b
digits-room zero zero a b below above = refl
digits-room zero (suc m) zero b below above = refl
digits-room (suc n) zero zero b below above = refl
digits-room (suc n) (suc m) zero b below above = refl
digits-room zero m (suc a) b below above = absurd (omega arith)
digits-room (suc n) zero (suc a) b below above = absurd (omega arith)
digits-room (suc n) (suc m) (suc a) b below above =
    ap (λ d. d * 2 + min (suc a % 2) (b % 2))
      (digits-room n m (suc a / 2) (b / 2) (omega arith) (omega arith))

-- `&`, one digit at a time.
pub bit_and-halves : (a b : ℕ) → bit_and a b ≡ bit_and (a / 2) (b / 2) * 2 + min (a % 2) (b % 2)
bit_and-halves zero b = omega (arith, bit_and-bitwise 0 b, bit_and-bitwise 0 (b / 2))
bit_and-halves (suc a) b = omega (
  arith,
  bit_and-bitwise (suc a) b,
  bit_and-bitwise (suc a / 2) (b / 2),
  digits-room a (suc a / 2) (suc a / 2) (b / 2) (omega arith) (omega arith),
)

bit_and-same_fuel : (fuel a : ℕ) → a ≤ fuel → bit_and a a ≡ a
bit_and-same_fuel fuel zero le = omega (arith, bit_and-bitwise 0 0)
bit_and-same_fuel zero (suc a) le = absurd (omega arith)
bit_and-same_fuel (suc fuel) (suc a) le =
    ground (arith, bit_and-halves (suc a) (suc a), bit_and-same_fuel fuel (suc a / 2) (omega arith))

pub bit_and-zero : (a : ℕ) → bit_and a 0 ≡ 0
bit_and-zero a = omega (arith, bit_and-le a 0)

mask_fields : (k q r a : ℕ) → a ≡ q * 2 ^ k + r → r < 2 ^ k → bit_and a (2 ^ k - 1) ≡ r
mask_fields zero q r a split below = omega (arith, bit_and-zero a)
mask_fields (suc k) q r a split below =
    let double = ap (λ p. q * p) (pow-suc 2 k) ∙ sym (mul_assoc q (2 ^ k) 2) in
    ground (
      arith,
      pow-suc 2 k,
      one-le-pow k 2,
      bit_and-halves a (2 ^ suc k - 1),
      mask_fields k q (r / 2) (a / 2) (omega (arith, pow-suc 2 k, double))
          (omega (arith, pow-suc 2 k)),
    )

-- A mask below a power of two takes the remainder.
pub bit_and-mask : (k a : ℕ) → bit_and a (2 ^ k - 1) ≡ a % 2 ^ k
bit_and-mask k a =
    mask_fields k (a / 2 ^ k) (a % 2 ^ k) a (sym (div-add-mod' a (2 ^ k)))
      (mod-lt a (one-le-pow k 2 (omega arith)))

odd_power : (n : ℕ) → n % 2 ≡ 1 → bit_and n (n - 1) ≡ 0 → n ≡ 1
odd_power n odd none =
    let halves = ap (bit_and (n / 2)) {x = (n - 1) / 2} {y = n / 2} (omega arith) in
    omega (arith, bit_and-halves n (n - 1), halves, bit_and-same_fuel (n / 2) (n / 2) (le_refl _))

power_fuel : (fuel n : ℕ) → n ≤ fuel → 0 < n → bit_and n (n - 1) ≡ 0 → (k : ℕ) × (n ≡ 2 ^ k)
power_fuel zero n le positive none = absurd (omega arith)
power_fuel (suc fuel) n le positive none = elim (Bool-cases (n % 2 == 0)) [
  | inl even ↦
      let (k, e) =
        power_fuel fuel (n / 2) (omega arith) (ground arith)
          (ground (arith, bit_and-halves n (n - 1))) in
      (suc k, ground (arith, pow-suc 2 k, e))
  | inr odd ↦ (0, ground (arith, odd_power n))
]

-- A number above 0 shares no digit with its predecessor just when it is a power of two.
pub bit_and-power : (n : ℕ) → 0 < n → (bit_and n (n - 1) ≡ 0) ↔ ((k : ℕ) × (n ≡ 2 ^ k))
bit_and-power n positive = (
  power_fuel n n (le_refl n) positive,
  λ (k, e). rw e (bit_and-mask k (2 ^ k) ∙ mod_self (2 ^ k)),
)
