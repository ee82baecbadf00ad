-- ===== src/Base/Strconv.antt =====
-- What the program uses of `strconv` and `strings`: Atoi/ParseInt and Itoa/FormatInt in base ten on
-- 64-bit integers, and ToUpper.
pub mod RoundTrip
use pendem.Base.{
  ℕ, zero, suc, ◌+◌, ◌-◌, ◌*◌, ◌/◌, ◌%◌, ◌^◌, Bool, true, false, ◌&&◌, Option, none, some, List, [],
  ◌∷◌, map, Bytes, ltb, leb, ◌==◌, if◌then◌else◌,
}
use pendem.Base.Int.{ℤ, pos, negsuc, neg_ℕ}

unfoldable pub is_digit : ℕ → Bool
is_digit c = leb b'0' c && leb c b'9'

-- The digits of `s` behind those already read into `n`.
unfoldable pub scan_digits : Bytes → ℕ → Option ℕ
unfolding is_digit
scan_digits [] n = some n
scan_digits (c ∷ s) n =
    let rest = scan_digits s (n * 10 + (c - b'0')) in if is_digit c then rest else none

unfoldable pub parse_uint : Bytes → Option ℕ
unfolding scan_digits
parse_uint [] = none
parse_uint (c ∷ s) = scan_digits (c ∷ s) 0

abbrev positive : Option ℕ → Option ℤ
positive none = none
positive (some n) = if ltb n (2 ^ 63) then some (pos n) else none

abbrev negative : Option ℕ → Option ℤ
negative none = none
negative (some n) = if leb n (2 ^ 63) then some (neg_ℕ n) else none

-- strconv.ParseInt(s, 10, 64), and strconv.Atoi where `int` has 64 bits; `none` is an error.
unfoldable pub parse_int : Bytes → Option ℤ
unfolding parse_uint
parse_int [] = none
parse_int (c ∷ s) =
    if c == b'-'
    then negative (parse_uint s)
    else if c == b'+'
    then positive (parse_uint s)
    else positive (parse_uint (c ∷ s))

-- Each round puts the last digit of `n` before `out`; `n + 1` rounds are enough.
unfoldable pub digits : ℕ → ℕ → Bytes → Bytes
digits zero n out = out
digits (suc f) n out = elim (ltb n 10) [
  | true ↦ (b'0' + n % 10) ∷ out
  | false ↦ digits f (n / 10) ((b'0' + n % 10) ∷ out)
]

-- strconv.Itoa of a length, and "%d" of one.
unfoldable pub format_uint : ℕ → Bytes
unfolding digits
format_uint n = digits (suc n) n []

-- strconv.FormatInt(z, 10), strconv.Itoa.
unfoldable pub format_int : ℤ → Bytes
unfolding format_uint
format_int (pos n) = format_uint n
format_int (negsuc n) = b'-' ∷ format_uint (suc n)

-- strings.ToUpper on texts in ASCII; here the bytes from 128 on are kept, where Go maps the letters of
-- other alphabets too and mends what is no UTF-8.
unfoldable pub upper_byte : ℕ → ℕ
upper_byte c = if leb b'a' c && leb c b'z' then c - 32 else c

unfoldable pub to_upper : Bytes → Bytes
unfolding upper_byte
to_upper = map upper_byte
