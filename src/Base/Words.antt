-- ===== src/Base/Words.antt =====
-- encoding/binary in little endian: words as bytes, and int64 as a pattern of 64 bits.
use pendem.Base.{
  ℕ, zero, suc, ◌+◌, ◌-◌, ◌*◌, ◌/◌, ◌%◌, ◌^◌, ◌<◌, ◌≡◌, refl, ap, [], ◌∷◌, Bytes, length,
  if◌then◌else◌, ltb, arith,
}
use pendem.Base.Int.{ℤ, pos, negsuc}
use pendem.Base.Strconv.RoundTrip.{IsInt64}

-- 256 ^ w
abbrev pub word_limit : ℕ → ℕ
word_limit zero = 1
word_limit (suc w) = 256 * word_limit w

-- The low `w` bytes of a number.
unfoldable pub le_bytes : ℕ → ℕ → Bytes
le_bytes zero n = []
le_bytes (suc w) n = n % 256 ∷ le_bytes w (n / 256)

unfoldable pub of_le : Bytes → ℕ
of_le [] = 0
of_le (b ∷ bs) = b + 256 * of_le bs

-- The pattern of an int64, and the int64 of a pattern.
unfoldable pub int64_bits : ℤ → ℕ
int64_bits (pos n) = n % 2 ^ 64
int64_bits (negsuc n) = 2 ^ 64 - 1 - n % 2 ^ 64

unfoldable pub bits_int64 : ℕ → ℤ
bits_int64 u = if ltb u (2 ^ 63) then pos u else negsuc (2 ^ 64 - 1 - u)

pub length-le_bytes : (w n : ℕ) → length (le_bytes w n) ≡ w
unfolding le_bytes
length-le_bytes zero n = refl
length-le_bytes (suc w) n = ap suc (length-le_bytes w (n / 256))

pub of_le-le_bytes : (w n : ℕ) → n < word_limit w → of_le (le_bytes w n) ≡ n
unfolding of_le le_bytes
of_le-le_bytes zero n h = omega arith
of_le-le_bytes (suc w) n h = omega (arith, of_le-le_bytes w (n / 256) (omega arith))

pub int64_bits-lt : (z : ℤ) → int64_bits z < word_limit 8
unfolding int64_bits
int64_bits-lt (pos n) = omega arith
int64_bits-lt (negsuc n) = omega arith

pub bits_int64-int64_bits : (z : ℤ) → IsInt64 z → bits_int64 (int64_bits z) ≡ z
unfolding bits_int64 int64_bits
bits_int64-int64_bits (pos n) h = ground arith
bits_int64-int64_bits (negsuc n) h = ground arith
