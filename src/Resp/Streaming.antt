-- ===== src/Resp/Streaming.antt =====
-- `Read` of resp.go on a stream: what it returns does not depend on the bytes behind the value.
use pendem.Base.{
  take-append, drop-append, ℕ, zero, suc, ◌+◌, ◌≡◌, refl, some, [], ◌∷◌, ◌++◌, Bytes, ltb,
  length-append, arith, inl, inr, Option-cases, Bool-cases,
}
use pendem.Base.Int.{ℤ, pos, negsuc}
use pendem.Resp.{RespValue, ok, fail, panic, Outcome, ◌>>=◌, too_deep}
use pendem.Resp.Parse.{
  read_string, read_line, read_length, read_bulk_body, read_bulk_string, read_array_body,
  read_array, read_elements, read_typed, read_at, read, wrap_invalid, read_simple_string,
  read_error, read_integer, max_array_length,
}

-- A read that succeeds does so too with `q` behind its input, and leaves `q` behind its rest; and one
-- that panics does so too.
abbrev pub Extends {ℓ} : {A : Type ℓ} → Bytes → Outcome A → Outcome A → Type ℓ
Extends q (ok a rest) o = o ≡ ok a (rest ++ q)
Extends q (fail e) o = Unit
Extends q panic o = o ≡ panic

bind-Extends {ℓ κ} :
    {A : Type ℓ} {B : Type κ} (q : Bytes) (m m' : Outcome A) (f g : A → Bytes → Outcome B)
    → Extends q m m'
    → ((a : A) (rest : Bytes) → Extends q (f a rest) (g a (rest ++ q)))
    → Extends q (m >>= f) (m' >>= g)
bind-Extends q (ok a rest) m' f g h k = rw h (k a rest)
bind-Extends q (fail e) m' f g h k = tt
bind-Extends q panic m' f g h k = rw h refl

read_string-append :
    (s q : Bytes) {line rest : Bytes}
    → read_string s ≡ some (line, rest)
    → read_string (s ++ q) ≡ some (line, rest ++ q)
unfolding read_string
read_string-append [] q h = ground arith
read_string-append (c ∷ s) q h = elim (Option-cases (read_string s)) [
  | inl e ↦ ground arith
  | inr (p, e) ↦ let (l, r) = p in ground (arith, read_string-append s q {line = l} {rest = r})
]

read_line-Extends : (q s : Bytes) → Extends q (read_line s) (read_line (s ++ q))
unfolding read_line
read_line-Extends q s = elim (Option-cases (read_string s)) [
  | inl e ↦ rw (e, read_line) tt
  | inr (p, e) ↦ let (l, r) = p in ground (arith, read_string-append s q {line = l} {rest = r})
]

read_length-Extends : (q s : Bytes) → Extends q (read_length s) (read_length (s ++ q))
unfolding read_length
read_length-Extends q s = elim (Option-cases (read_string s)) [
  | inl e ↦ rw (e, read_length) tt
  | inr (p, e) ↦ let (l, r) = p in ground (arith, read_string-append s q {line = l} {rest = r})
]

read_bulk_body-Extends :
    (q : Bytes) (z : ℤ) (s : Bytes) → Extends q (read_bulk_body z s) (read_bulk_body z (s ++ q))
unfolding read_bulk_body
read_bulk_body-Extends q (negsuc zero) s = refl
read_bulk_body-Extends q (negsuc (suc n)) s = refl
read_bulk_body-Extends q (pos n) s =
    ground (arith, length-append s q, take-append n s q, drop-append (n + 2) s q)

line-Extends :
    (f : Bytes → RespValue) (q s : Bytes)
    → Extends q
        (read_line s >>= λ t rest. ok (f t) rest)
        (read_line (s ++ q) >>= λ t rest. ok (f t) rest)
line-Extends f q s =
    bind-Extends q (read_line s) (read_line (s ++ q)) _ _ (read_line-Extends q s) (λ t rest. refl)

read_simple_string-Extends :
    (q s : Bytes) → Extends q (read_simple_string s) (read_simple_string (s ++ q))
unfolding read_simple_string
read_simple_string-Extends = line-Extends (λ t. RespValue.simple_string t)

read_error-Extends : (q s : Bytes) → Extends q (read_error s) (read_error (s ++ q))
unfolding read_error
read_error-Extends = line-Extends (λ t. RespValue.error t)

read_integer-Extends : (q s : Bytes) → Extends q (read_integer s) (read_integer (s ++ q))
unfolding read_integer
read_integer-Extends q s =
    bind-Extends q (read_line s) (read_line (s ++ q)) _ _ (read_line-Extends q s)
      (λ t rest. ground arith)

read_bulk_string-Extends :
    (q s : Bytes) → Extends q (read_bulk_string s) (read_bulk_string (s ++ q))
unfolding read_bulk_string
read_bulk_string-Extends q s =
    bind-Extends q (read_length s) (read_length (s ++ q)) _ _ (read_length-Extends q s)
      (read_bulk_body-Extends q)

module _ (q : Bytes) (read : Bytes → Outcome RespValue)
    (extends : (s : Bytes) → Extends q (read s) (read (s ++ q))) where
  wrap_invalid-Extends {ℓ} :
      {A : Type ℓ} (o o' : Outcome A)
      → Extends q o o'
      → Extends q (wrap_invalid o) (wrap_invalid o')
  unfolding wrap_invalid
  wrap_invalid-Extends (ok a rest) o' h = rw h refl
  wrap_invalid-Extends (fail e) o' h = tt
  wrap_invalid-Extends panic o' h = rw h refl

  read_elements-Extends :
      (n : ℕ) (s : Bytes) → Extends q (read_elements read n s) (read_elements read n (s ++ q))
  unfolding read_elements
  read_elements-Extends zero s = refl
  read_elements-Extends (suc n) s =
      bind-Extends q (wrap_invalid (read s)) (wrap_invalid (read (s ++ q))) _ _
        (wrap_invalid-Extends (read s) (read (s ++ q)) (extends s))
        (λ v rest.
          bind-Extends q (read_elements read n rest) (read_elements read n (rest ++ q)) _ _
            (read_elements-Extends n rest) (λ vs rest'. refl))

  read_array_body-Extends :
      (z : ℤ) (s : Bytes) → Extends q (read_array_body read z s) (read_array_body read z (s ++ q))
  unfolding read_array_body
  read_array_body-Extends (negsuc zero) s = refl
  read_array_body-Extends (negsuc (suc n)) s = refl
  read_array_body-Extends (pos n) s = elim (Bool-cases (ltb max_array_length n)) [
    | inl big ↦ rw (big, read_array_body) refl
    | inr fits ↦
        rw (fits, read_array_body)
          (bind-Extends q (read_elements read n s) (read_elements read n (s ++ q)) _ _
            (read_elements-Extends n s) (λ vs rest. refl))
  ]

  read_array-Extends : (s : Bytes) → Extends q (read_array read s) (read_array read (s ++ q))
  unfolding read_array
  read_array-Extends s =
      bind-Extends q (read_length s) (read_length (s ++ q)) _ _ (read_length-Extends q s)
        read_array_body-Extends

read_typed-Extends :
    (q : Bytes) (open_array : Bytes → Outcome RespValue)
    → ((s : Bytes) → Extends q (open_array s) (open_array (s ++ q)))
    → (s : Bytes) → Extends q (read_typed open_array s) (read_typed open_array (s ++ q))
unfolding read_typed
read_typed-Extends q open_array h [] = tt
read_typed-Extends q open_array h (b ∷ s) = ground (
  arith,
  h s,
  read_simple_string-Extends q s,
  read_error-Extends q s,
  read_integer-Extends q s,
  read_bulk_string-Extends q s,
)

read_at-Extends :
    (q : Bytes) (room : ℕ) (s : Bytes) → Extends q (read_at room s) (read_at room (s ++ q))
unfolding read_at
read_at-Extends q zero = read_typed-Extends q (λ _. fail too_deep) (λ s. tt)
read_at-Extends q (suc room) =
    read_typed-Extends q (read_array (read_at room))
      (read_array-Extends q (read_at room) (read_at-Extends q room))

-- A value that is read is read alike whatever bytes follow later, and these are left behind it.
pub read-append :
    (s q : Bytes) {rest : Bytes} {v : RespValue}
    → read s ≡ ok v rest
    → read (s ++ q) ≡ ok v (rest ++ q)
unfolding read
read-append s q h = rw h at (read_at-Extends q 32 s)

-- A read that panics does so whatever bytes follow.
pub read-append_panic : (s q : Bytes) → read s ≡ panic → read (s ++ q) ≡ panic
unfolding read
read-append_panic s q h = rw h at (read_at-Extends q 32 s)
