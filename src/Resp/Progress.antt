-- ===== src/Resp/Progress.antt =====
-- A successful read takes at least one byte off the input.
use pendem.Base.{
  ℕ, zero, suc, ◌+◌, ◌≤◌, ◌<◌, ◌≡◌, some, List, [], ◌∷◌, Bytes, ltb, length, drop, arith, inl, inr,
  Option-cases, Bool-cases,
}
use pendem.Base.Int.{ℤ, pos, negsuc}
use pendem.Resp.{RespValue, ok, fail, panic, Outcome, ◌>>=◌, too_deep}
use pendem.Resp.Parse.{
  read_string, read_line, read_length, read_bulk_body, read_bulk_string, read_array_body,
  read_array, read_elements, read_typed, read_at, read, wrap_invalid, read_simple_string,
  read_error, read_integer, max_array_length,
}

length-drop-le {ℓ} : {A : Type ℓ} (n : ℕ) (xs : List A) → length (drop n xs) ≤ length xs
length-drop-le zero xs = omega arith
length-drop-le (suc n) [] = omega arith
length-drop-le (suc n) (x ∷ xs) = omega (arith, length-drop-le n xs)

-- A read that succeeds leaves at most `n` bytes of input.
abbrev pub Within {ℓ} : {A : Type ℓ} → ℕ → Outcome A → Type 0
Within n (ok a rest) = length rest ≤ n
Within n _ = Unit {0}

Within-trans {ℓ} : {A : Type ℓ} (k n : ℕ) (o : Outcome A) → k ≤ n → Within k o → Within n o
Within-trans k n (ok a rest) h h' = omega arith
Within-trans k n (fail e) h h' = tt
Within-trans k n panic h h' = tt

bind-Within {ℓ κ} :
    {A : Type ℓ} {B : Type κ} (n : ℕ) (m : Outcome A) (f : A → Bytes → Outcome B)
    → Within n m
    → ((a : A) (rest : Bytes) → Within (length rest) (f a rest))
    → Within n (m >>= f)
bind-Within n (ok a rest) f h k = Within-trans (length rest) n (f a rest) h (k a rest)
bind-Within n (fail e) f h k = tt
bind-Within n panic f h k = tt

read_string-lt :
    (s : Bytes) {line rest : Bytes} → read_string s ≡ some (line, rest) → length rest < length s
unfolding read_string
read_string-lt [] h = ground arith
read_string-lt (c ∷ s) h = elim (Option-cases (read_string s)) [
  | inl e ↦ ground arith
  | inr (p, e) ↦ let (l, r) = p in ground (arith, read_string-lt s {line = l} {rest = r})
]

read_line-Within : (s : Bytes) → Within (length s) (read_line s)
unfolding read_line
read_line-Within s = elim (Option-cases (read_string s)) [
  | inl e ↦ rw (e, read_line) tt
  | inr (p, e) ↦ let (l, r) = p in ground (arith, read_string-lt s {line = l} {rest = r})
]

read_length-Within : (s : Bytes) → Within (length s) (read_length s)
unfolding read_length
read_length-Within s = elim (Option-cases (read_string s)) [
  | inl e ↦ rw (e, read_length) tt
  | inr (p, e) ↦ let (l, r) = p in ground (arith, read_string-lt s {line = l} {rest = r})
]

read_bulk_body-Within : (z : ℤ) (s : Bytes) → Within (length s) (read_bulk_body z s)
unfolding read_bulk_body
read_bulk_body-Within (negsuc zero) s = omega arith
read_bulk_body-Within (negsuc (suc n)) s = tt
read_bulk_body-Within (pos n) s = ground (arith, length-drop-le (n + 2) s)

read_integer-Within : (s : Bytes) → Within (length s) (read_integer s)
unfolding read_integer
read_integer-Within s =
    bind-Within (length s) (read_line s) _ (read_line-Within s) (λ t rest. ground arith)

module _ (read : Bytes → Outcome RespValue)
    (progress : (s : Bytes) → Within (length s) (read s)) where
  wrap_invalid-Within {ℓ} :
      {A : Type ℓ} (n : ℕ) (o : Outcome A) → Within n o → Within n (wrap_invalid o)
  unfolding wrap_invalid
  wrap_invalid-Within n (ok a rest) h = h
  wrap_invalid-Within n (fail e) h = tt
  wrap_invalid-Within n panic h = tt

  read_elements-Within : (n : ℕ) (s : Bytes) → Within (length s) (read_elements read n s)
  unfolding read_elements
  read_elements-Within zero s = omega arith
  read_elements-Within (suc n) s =
      bind-Within (length s) (wrap_invalid (read s)) _
        (wrap_invalid-Within (length s) (read s) (progress s))
        (λ v rest.
          bind-Within (length rest) (read_elements read n rest) _ (read_elements-Within n rest)
            (λ vs rest'. omega arith))

  read_array_body-Within :
      (z : ℤ) (rest : Bytes) → Within (length rest) (read_array_body read z rest)
  unfolding read_array_body
  read_array_body-Within (negsuc zero) rest = omega arith
  read_array_body-Within (negsuc (suc n)) rest = tt
  read_array_body-Within (pos n) rest = elim (Bool-cases (ltb max_array_length n)) [
    | inl big ↦ rw (big, read_array_body) tt
    | inr fits ↦
        rw (fits, read_array_body)
          (bind-Within (length rest) (read_elements read n rest) _ (read_elements-Within n rest)
            (λ vs rest'. omega arith))
  ]

  read_array-Within : (s : Bytes) → Within (length s) (read_array read s)
  unfolding read_array
  read_array-Within s =
      bind-Within (length s) (read_length s) _ (read_length-Within s) read_array_body-Within

line-Within :
    (f : Bytes → RespValue) (s : Bytes)
    → Within (length s) (read_line s >>= λ t rest. ok (f t) rest)
line-Within f s =
    bind-Within (length s) (read_line s) _ (read_line-Within s) (λ t rest. omega arith)

read_simple_string-Within : (s : Bytes) → Within (length s) (read_simple_string s)
unfolding read_simple_string
read_simple_string-Within s = line-Within (λ t. RespValue.simple_string t) s

read_error-Within : (s : Bytes) → Within (length s) (read_error s)
unfolding read_error
read_error-Within s = line-Within (λ t. RespValue.error t) s

read_bulk_string-Within : (s : Bytes) → Within (length s) (read_bulk_string s)
unfolding read_bulk_string
read_bulk_string-Within s =
    bind-Within (length s) (read_length s) read_bulk_body (read_length-Within s)
      read_bulk_body-Within

-- The switch, given that opening an array leaves no more than it was given.
read_typed-Within :
    (open_array : Bytes → Outcome RespValue) (b : ℕ) (s : Bytes)
    → Within (length s) (open_array s)
    → Within (length s) (read_typed open_array (b ∷ s))
unfolding read_typed
read_typed-Within open_array b s h = ground (
  arith,
  read_simple_string-Within s,
  read_error-Within s,
  read_integer-Within s,
  read_bulk_string-Within s,
)

read_at-Within : (room : ℕ) (s : Bytes) → Within (length s) (read_at room s)
unfolding read_at
read_at-Within zero [] = unfold read_typed in tt
read_at-Within zero (b ∷ s) =
    Within-trans (length s) _ _ (omega arith) (read_typed-Within (λ _. fail too_deep) b s tt)
read_at-Within (suc room) [] = unfold read_typed in tt
read_at-Within (suc room) (b ∷ s) = Within-trans (length s) _ _ (omega arith) (
    read_typed-Within (read_array (read_at room)) b s
      (read_array-Within (read_at room) (read_at-Within room) s))

-- A value that is read took at least one byte.
pub read-progress : (s rest : Bytes) (v : RespValue) → read s ≡ ok v rest → length rest < length s
unfolding read read_at
read-progress [] rest v h = unfold read_typed in cc
read-progress (b ∷ s) rest v h = omega (arith, within)
  where
    within : length rest ≤ length s
    within = rw h at (
        read_typed-Within (read_array (read_at 31)) b s
          (read_array-Within (read_at 31) (read_at-Within 31) s))
