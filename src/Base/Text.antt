-- ===== src/Base/Text.antt =====
-- What the program uses of the packages strings, bufio and fmt to read a text.
pub mod Trim
pub mod Lines
use pendem.Base.{
  ℕ, zero, suc, ◌^◌, Bool, true, false, ◌||◌, Option, none, some, List, [], ◌∷◌, map, reverse,
  Bytes, ◌==◌, leb, length, if◌then◌else◌,
}
use pendem.Base.Int.{ℤ, pos}
use pendem.Base.Strconv.{is_digit, parse_int}

-- What is behind a prefix.
unfoldable pub cut_prefix : Bytes → Bytes → Option Bytes
cut_prefix [] s = some s
cut_prefix (p ∷ ps) [] = none
cut_prefix (p ∷ ps) (c ∷ s) = let rest = cut_prefix ps s in if p == c then rest else none

unfoldable pub has_prefix : Bytes → Bytes → Bool
unfolding cut_prefix
has_prefix p s = elim (cut_prefix p s) [ none ↦ false | some rest ↦ true ]

unfoldable pub has_suffix : Bytes → Bytes → Bool
unfolding has_prefix
has_suffix p s = has_prefix (reverse p) (reverse s)

-- strings.TrimSuffix
unfoldable pub trim_suffix : Bytes → Bytes → Bytes
unfolding cut_prefix
trim_suffix p s = elim (cut_prefix (reverse p) (reverse s)) [ none ↦ s | some rest ↦ reverse rest ]

-- The characters of `unicode.IsSpace`, in UTF-8.
abbrev pub spaces : List Bytes
spaces =
    (9 ∷ [])
    ∷ (10 ∷ [])
    ∷ (11 ∷ [])
    ∷ (12 ∷ [])
    ∷ (13 ∷ [])
    ∷ (32 ∷ [])
    ∷ (194 ∷ 133 ∷ [])
    ∷ (194 ∷ 160 ∷ [])
    ∷ (225 ∷ 154 ∷ 128 ∷ [])
    ∷ (226 ∷ 128 ∷ 128 ∷ [])
    ∷ (226 ∷ 128 ∷ 129 ∷ [])
    ∷ (226 ∷ 128 ∷ 130 ∷ [])
    ∷ (226 ∷ 128 ∷ 131 ∷ [])
    ∷ (226 ∷ 128 ∷ 132 ∷ [])
    ∷ (226 ∷ 128 ∷ 133 ∷ [])
    ∷ (226 ∷ 128 ∷ 134 ∷ [])
    ∷ (226 ∷ 128 ∷ 135 ∷ [])
    ∷ (226 ∷ 128 ∷ 136 ∷ [])
    ∷ (226 ∷ 128 ∷ 137 ∷ [])
    ∷ (226 ∷ 128 ∷ 138 ∷ [])
    ∷ (226 ∷ 128 ∷ 168 ∷ [])
    ∷ (226 ∷ 128 ∷ 169 ∷ [])
    ∷ (226 ∷ 128 ∷ 175 ∷ [])
    ∷ (226 ∷ 129 ∷ 159 ∷ [])
    ∷ (227 ∷ 128 ∷ 128 ∷ [])
    ∷ []

unfoldable pub cut_any : List Bytes → Bytes → Option Bytes
unfolding cut_prefix
cut_any [] s = none
cut_any (p ∷ ps) s = elim (cut_prefix p s) [ none ↦ cut_any ps s | some rest ↦ some rest ]

-- No prefix is empty, so that the length of the string is enough fuel.
unfoldable pub trim_left : List Bytes → ℕ → Bytes → Bytes
unfolding cut_any
trim_left ps zero s = s
trim_left ps (suc fuel) s = elim (cut_any ps s) [ none ↦ s | some rest ↦ trim_left ps fuel rest ]

-- strings.TrimSpace
unfoldable pub trim_space : Bytes → Bytes
unfolding trim_left
trim_space s =
    let t = trim_left spaces (length s) s in
    reverse (trim_left (map (λ p. reverse p) spaces) (length t) (reverse t))

unfoldable pub drop_brackets : Bytes → Bytes
drop_brackets [] = []
drop_brackets (c ∷ s) =
    let rest = drop_brackets s in if (c == b'[') || (c == b']') then rest else c ∷ s

-- strings.Trim(s, "[]")
unfoldable pub trim_brackets : Bytes → Bytes
unfolding drop_brackets
trim_brackets s = reverse (drop_brackets (reverse (drop_brackets s)))

unfoldable pub before : ℕ → Option (Bytes × Bytes) → Option (Bytes × Bytes)
before c none = none
before c (some (a, b)) = some (c ∷ a, b)

-- What is before the first `sep` and what is behind it; `none` if there is none.
unfoldable pub split_at : ℕ → Bytes → Option (Bytes × Bytes)
unfolding before
split_at sep [] = none
split_at sep (c ∷ s) = let rest = split_at sep s in if c == sep then some ([], s) else before c rest

unfoldable pub drop_cr : Bytes → Bytes
drop_cr [] = []
drop_cr (c ∷ s) = if c == 13 then s else c ∷ s

-- bufio.MaxScanTokenSize
abbrev pub max_token_size : ℕ
max_token_size = 2 ^ 16

-- The lines behind what is already read of one, last byte first, and whether none is too long.
unfoldable pub scan_lines_loop : Bytes → Bytes → List Bytes × Bool
unfolding drop_cr
scan_lines_loop (c ∷ input) line =
    let rest = scan_lines_loop input (if c == 10 then [] else c ∷ line) in
    if c == 10
    then (reverse (drop_cr line) ∷ rest.0, rest.1)
    else if leb max_token_size (suc (length line))
    then ([], false)
    else rest
scan_lines_loop [] [] = ([], true)
scan_lines_loop [] (c ∷ line) = (reverse (drop_cr (c ∷ line)) ∷ [], true)

-- bufio.Scanner
unfoldable pub scan_lines : Bytes → List Bytes × Bool
unfolding scan_lines_loop
scan_lines input = scan_lines_loop input []

digits_prefix : Bytes → Bytes
digits_prefix [] = []
digits_prefix (c ∷ s) = let rest = digits_prefix s in if is_digit c then c ∷ rest else []

number_prefix : Bytes → Bytes
unfolding digits_prefix
number_prefix [] = []
number_prefix (c ∷ s) =
    if (c == b'-') || (c == b'+') then c ∷ digits_prefix s else digits_prefix (c ∷ s)

-- What `fmt.Sscanf(s, "%d", &n)` leaves in an `n` of 0, where `s` does not start with a space.
unfoldable pub scan_int : Bytes → ℤ
unfolding number_prefix
scan_int s = elim (parse_int (number_prefix s)) [ none ↦ pos 0 | some n ↦ n ]
