-- ===== src/Resp/RoundTrip/Line.antt =====
-- Reading one line: a text or a number before CR LF.
use pendem.Base.{
  ℕ, ◌+◌, ◌-◌, ◌^◌, ◌<◌, ◌≡◌, ◌≢◌, refl, false, some, [], ◌∷◌, ◌++◌, Bytes, length, take, get_elem?,
  arith, All, length-append, take-length_append, append_assoc, All-append,
}
use pendem.Base.Int.{pos}
use pendem.Base.Strconv.{format_uint, format_int}
use pendem.Base.Strconv.RoundTrip.{parse_int-format_int, format_int-no_lf}
use pendem.Resp.{ok}
use pendem.Resp.Encode.{crlf}
use pendem.Resp.Parse.{read_string, missing_crlf, read_line, read_length}

abbrev pub NoLf : Bytes → Type 0
NoLf = All (λ c. c ≢ 10)

read_string-lf :
    (s rest : Bytes) → NoLf s → read_string (s ++ 10 ∷ rest) ≡ some (s ++ 10 ∷ [], rest)
unfolding read_string
read_string-lf [] rest h = refl
read_string-lf (c ∷ s) rest (hc, hs) = ground (arith, read_string-lf s rest hs)

pub read_string-crlf :
    (s rest : Bytes) → NoLf s → read_string (s ++ (crlf ++ rest)) ≡ some (s ++ crlf, rest)
read_string-crlf s rest h =
    rw (← append_assoc s (13 ∷ []) (10 ∷ rest), ← append_assoc s (13 ∷ []) (10 ∷ []))
      (read_string-lf (s ++ 13 ∷ []) rest (All-append _ s (13 ∷ []) h (omega arith)))

length-crlf : (s : Bytes) → length (s ++ crlf) ≡ length s + 2
length-crlf s = length-append s crlf

get_elem?-length : (s t : Bytes) (c : ℕ) → get_elem? (s ++ c ∷ t) (length s) ≡ some c
get_elem?-length [] t c = refl
get_elem?-length (x ∷ s) t c = get_elem?-length s t c

take-crlf : (s : Bytes) → take (length (s ++ crlf) - 2) (s ++ crlf) ≡ s
take-crlf s =
    let e : length (s ++ crlf) - 2 ≡ length s = omega (arith, length-crlf s) in
    rw e (take-length_append s crlf)

missing_crlf-crlf : (s : Bytes) → missing_crlf (s ++ crlf) ≡ false
unfolding missing_crlf
missing_crlf-crlf s =
    let e : length (s ++ crlf) - 2 ≡ length s = omega (arith, length-crlf s) in
    rw (e, get_elem?-length) (ground (arith, length-crlf s))

pub read_line-crlf : (s rest : Bytes) → NoLf s → read_line (s ++ (crlf ++ rest)) ≡ ok s rest
unfolding read_line
read_line-crlf s rest h =
    rw (read_string-crlf s rest h, read_line) (rw (missing_crlf-crlf s, take-crlf s))

pub read_length-format_uint :
    (n : ℕ) (rest : Bytes)
    → n < 2 ^ 63
    → read_length (format_uint n ++ (crlf ++ rest)) ≡ ok (pos n) rest
unfolding read_length format_int
read_length-format_uint n rest h =
    let parsed = parse_int-format_int (pos n) h in
    let text = format_uint n in
    rw (read_string-crlf text rest (format_int-no_lf (pos n)), read_length)
      (ground (arith, length-crlf text, take-crlf text, parsed))
