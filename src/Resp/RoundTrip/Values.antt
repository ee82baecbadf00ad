-- ===== src/Resp/RoundTrip/Values.antt =====
-- `Read` after `EncodeRESP`, by induction on the value.
use pendem.Base.{
  ℕ, zero, suc, ◌+◌, ◌^◌, ◌≤◌, ◌<◌, ◌≡◌, refl, ◌∙◌, [], ◌++◌, Bytes, length, drop, arith,
  take-length_append, drop-length_append, length-append, append_assoc, append-nil,
}
use pendem.Base.Int.{ℤ, pos}
use pendem.Base.Strconv.{parse_int, format_uint, format_int}
use pendem.Base.Strconv.RoundTrip.{IsInt64, parse_int-format_int, format_int-no_lf}
use pendem.Resp.{
  RespValue, RespValues, simple_string, error, bulk_string, integer, null_bulk, null_array, array,
  nil, cons, length_values, too_deep, fail, ok, Outcome,
}
use pendem.Resp.Encode.{crlf, header, encode_value, encode_values, encode}
use pendem.Resp.Parse.{
  max_bulk_string_size, max_array_length, read_elements, wrap_invalid, read_array_body, read_array,
  read_typed, read_at, read, max_resp_depth, read_simple_string, read_error, read_integer,
  read_bulk_string, read_bulk_body, read_length,
}
use pendem.Resp.RoundTrip.Line.{NoLf, read_line-crlf, read_length-format_uint}

abbrev lower : ℕ → ℕ
lower zero = zero
lower (suc n) = n

-- What the parser reads back: no line feed in a line, 64-bit integers, bulk strings that are not
-- empty and not too large, and no more than `room` arrays inside one another.
abbrev mutual
  pub IsReadable : RespValue → ℕ → Type 0
  IsReadable (simple_string s) room = NoLf s
  IsReadable (error s) room = NoLf s
  IsReadable (integer z) room = IsInt64 z
  IsReadable (bulk_string s) room = (0 < length s) × (length s ≤ max_bulk_string_size)
  IsReadable null_bulk room = Unit {0}
  IsReadable null_array room = 0 < room
  IsReadable (array vs) room =
      (0 < room) × (length_values vs ≤ max_array_length) × AllReadable vs (lower room)

  pub AllReadable : RespValues → ℕ → Type 0
  AllReadable nil room = Unit {0}
  AllReadable (cons v vs) room = IsReadable v room × AllReadable vs room

mutual
  unfolding encode_value encode_values header

  -- The builder keeps what was written before.
  encode_value-acc : (v : RespValue) (b c : Bytes) → encode_value (b ++ c) v ≡ b ++ encode_value c v
  encode_value-acc (simple_string s) b c = append_assoc b c _
  encode_value-acc (error s) b c = append_assoc b c _
  encode_value-acc (bulk_string s) b c = append_assoc b c _
  encode_value-acc (integer z) b c = append_assoc b c _
  encode_value-acc null_bulk b c = append_assoc b c _
  encode_value-acc null_array b c = append_assoc b c _
  encode_value-acc (array vs) b c =
      rw (append_assoc b c (header b'*' (length_values vs)))
        (encode_values-acc vs b (c ++ header b'*' (length_values vs)))

  encode_values-acc :
      (vs : RespValues) (b c : Bytes) → encode_values (b ++ c) vs ≡ b ++ encode_values c vs
  encode_values-acc nil b c = refl
  encode_values-acc (cons v vs) b c =
      rw (encode_value-acc v b c) (encode_values-acc vs b (encode_value c v))

pub encode_value-append : (v : RespValue) (b : Bytes) → encode_value b v ≡ b ++ encode_value [] v
encode_value-append v b = rw append-nil at (encode_value-acc v b [])

encode_values-append : (vs : RespValues) (b : Bytes) → encode_values b vs ≡ b ++ encode_values [] vs
encode_values-append vs b = rw append-nil at (encode_values-acc vs b [])

-- How an array is read at each depth.
abbrev opener : ℕ → Bytes → Outcome RespValue
opener zero = λ _. fail too_deep
opener (suc room) = read_array (read_at room)

read_at-typed : (room : ℕ) (input : Bytes) → read_at room input ≡ read_typed (opener room) input
unfolding read_at
read_at-typed zero input = refl
read_at-typed (suc room) input = refl

module _ (o : Bytes → Outcome RespValue) (rest : Bytes) where
  read_typed-simple_string :
      (s : Bytes)
      → NoLf s
      → read_typed o (encode_value [] (simple_string s) ++ rest) ≡ ok (simple_string s) rest
  unfolding encode_value read_typed read_simple_string
  read_typed-simple_string s h = rw (append_assoc s crlf rest, read_line-crlf s rest h)

  read_typed-error :
      (s : Bytes) → NoLf s → read_typed o (encode_value [] (error s) ++ rest) ≡ ok (error s) rest
  unfolding encode_value read_typed read_error
  read_typed-error s h = rw (append_assoc s crlf rest, read_line-crlf s rest h)

  read_typed-integer :
      (z : ℤ) → IsInt64 z → read_typed o (encode_value [] (integer z) ++ rest) ≡ ok (integer z) rest
  unfolding encode_value read_typed read_integer
  read_typed-integer z h =
      rw
        (
          append_assoc (format_int z) crlf rest,
          read_line-crlf (format_int z) rest (format_int-no_lf z),
        )
        (ground (arith, parse_int-format_int z h))

  read_header :
      (n : ℕ) (body : Bytes)
      → n < 2 ^ 63
      → read_length ((format_uint n ++ crlf) ++ body) ≡ ok (pos n) body
  read_header n body h =
      rw (append_assoc (format_uint n) crlf body) (read_length-format_uint n body h)

  -- The data and the CR LF behind it are taken off together.
  read_bulk_body-pos :
      (s : Bytes)
      → 0 < length s
      → length s ≤ max_bulk_string_size
      → read_bulk_body (pos (length s)) (s ++ (crlf ++ rest)) ≡ ok (bulk_string s) rest
  unfolding read_bulk_body
  read_bulk_body-pos s h h' =
      ground (arith, take-length_append s (crlf ++ rest), dropped, length-append s (crlf ++ rest))
    where
      dropped : drop (length s + 2) (s ++ (crlf ++ rest)) ≡ rest
      dropped =
          let e : length s + 2 ≡ length (s ++ crlf) = omega (arith, length-append s crlf) in
          rw (e, ← append_assoc s crlf rest) (drop-length_append (s ++ crlf) rest)

  read_typed-bulk_string :
      (s : Bytes)
      → 0 < length s
      → length s ≤ max_bulk_string_size
      → read_typed o (encode_value [] (bulk_string s) ++ rest) ≡ ok (bulk_string s) rest
  unfolding encode_value header read_typed read_bulk_string
  read_typed-bulk_string s h h' =
      rw (append_assoc (format_uint (length s) ++ crlf) (s ++ crlf) rest, append_assoc s crlf rest)
        (rw (read_header (length s) (s ++ (crlf ++ rest)) (omega arith))
          (read_bulk_body-pos s h h'))

  read_typed-null_bulk : read_typed o (encode_value [] null_bulk ++ rest) ≡ ok null_bulk rest
  unfolding encode_value read_typed read_bulk_string read_bulk_body read_length parse_int
  read_typed-null_bulk = refl

read_null_array :
    (room : ℕ) (rest : Bytes)
    → read_at (suc room) (encode_value [] null_array ++ rest) ≡ ok null_array rest
unfolding encode_value read_at read_typed read_array read_array_body read_length parse_int
read_null_array room rest = refl

read_array_body-pos :
    (read : Bytes → Outcome RespValue) (n : ℕ) (input : Bytes) {rest : Bytes} {vs : RespValues}
    → n ≤ max_array_length
    → read_elements read n input ≡ ok vs rest
    → read_array_body read (pos n) input ≡ ok (array vs) rest
unfolding read_array_body
read_array_body-pos read n input h e = ground arith

-- An array, given that its elements are read.
read_array-encode :
    (room : ℕ) (vs : RespValues) (rest : Bytes)
    → length_values vs ≤ max_array_length
    → read_elements (read_at room) (length_values vs) (encode_values [] vs ++ rest) ≡ ok vs rest
    → read_at (suc room) (encode_value [] (array vs) ++ rest) ≡ ok (array vs) rest
unfolding encode_value header read_at read_typed read_array
read_array-encode room vs rest h e =
    rw (encode_values-append vs (header b'*' (length_values vs)), append_assoc, append_assoc)
      (rw (read_length-format_uint (length_values vs) (encode_values [] vs ++ rest) (omega arith))
        (read_array_body-pos _ _ _ h e))

read_elements-zero :
    (read : Bytes → Outcome RespValue) (input : Bytes)
    → read_elements read zero input ≡ ok nil input
unfolding read_elements
read_elements-zero read input = refl

read_elements-suc :
    (read : Bytes → Outcome RespValue) (n : ℕ) {input middle rest : Bytes} {v : RespValue}
    {vs : RespValues}
    → read input ≡ ok v middle
    → read_elements read n middle ≡ ok vs rest
    → read_elements read (suc n) input ≡ ok (cons v vs) rest
unfolding read_elements
read_elements-suc read n hd tl = rw (hd, wrap_invalid) (rw tl)

mutual
  unfolding encode_value encode_values header

  read_at-encode :
      (v : RespValue) (room : ℕ) (rest : Bytes)
      → IsReadable v room
      → read_at room (encode_value [] v ++ rest) ≡ ok v rest
  read_at-encode (simple_string s) room rest h =
      read_at-typed room _ ∙ read_typed-simple_string (opener room) rest s h
  read_at-encode (error s) room rest h =
      read_at-typed room _ ∙ read_typed-error (opener room) rest s h
  read_at-encode (integer z) room rest h =
      read_at-typed room _ ∙ read_typed-integer (opener room) rest z h
  read_at-encode (bulk_string s) room rest h =
      read_at-typed room _ ∙ read_typed-bulk_string (opener room) rest s h.0 h.1
  read_at-encode null_bulk room rest h =
      read_at-typed room _ ∙ read_typed-null_bulk (opener room) rest
  read_at-encode null_array zero rest h = absurd (omega arith)
  read_at-encode null_array (suc room) rest h = read_null_array room rest
  read_at-encode (array vs) zero rest h = absurd (omega arith)
  read_at-encode (array vs) (suc room) rest h =
      read_array-encode room vs rest h.1 (read_elements-encode vs room rest h.2)

  read_elements-encode :
      (vs : RespValues) (room : ℕ) (rest : Bytes)
      → AllReadable vs room
      → read_elements (read_at room) (length_values vs) (encode_values [] vs ++ rest) ≡ ok vs rest
  read_elements-encode nil room rest h = read_elements-zero (read_at room) rest
  read_elements-encode (cons v vs) room rest h =
      rw (encode_values-append vs (encode_value [] v), append_assoc)
        (read_elements-suc (read_at room) (length_values vs)
          (read_at-encode v room (encode_values [] vs ++ rest) h.0)
          (read_elements-encode vs room rest h.1))

-- Reading an encoded value gives the value, and leaves what follows it: for a value in which no
-- simple string or error has a line feed, integers are of 64 bits, bulk strings are not empty and
-- not above the size limit, arrays are not above the length limit, and at most 32 are nested.
pub read-encode :
    (v : RespValue) (rest : Bytes)
    → IsReadable v max_resp_depth
    → read (encode v ++ rest) ≡ ok v rest
unfolding read encode
read-encode v rest h = read_at-encode v max_resp_depth rest h
