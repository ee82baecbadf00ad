-- ===== src/Resp/Parse.antt =====
-- `RESPParser`. The input is what the reader still delivers. `room` is MaxRESPDepth - depth: each
-- array that is open takes one away, and its end gives it back.
use pendem.Base.{
  ℕ, zero, suc, ◌+◌, ◌-◌, ◌*◌, ◌^◌, Bool, true, ◌||◌, not, Option, none, some, [], ◌∷◌, Bytes, ltb,
  ◌==◌, if◌then◌else◌, length, take, drop, get_elem?,
}
use pendem.Base.Int.{ℤ, pos, negsuc}
use pendem.Base.Strconv.{parse_int}
use pendem.Resp.{
  RespValue, RespValues, simple_string, error, bulk_string, integer, null_bulk, null_array, array,
  nil, cons, eof, invalid_resp, too_deep, too_large, unknown_type, Outcome, ok, fail, panic, ◌>>=◌,
}

-- MaxRESPDepth
abbrev pub max_resp_depth : ℕ
max_resp_depth = 32

-- MaxBulkStringSize, 512 MB
abbrev pub max_bulk_string_size : ℕ
max_bulk_string_size = 512 * 1024 * 1024

-- The longest []RESPValue that `make` takes on a 64-bit machine: 2^48 bytes of 64-byte values.
abbrev pub max_array_length : ℕ
max_array_length = 2 ^ 42

keep_byte : ℕ → Option (Bytes × Bytes) → Option (Bytes × Bytes)
keep_byte c none = none
keep_byte c (some (line, rest)) = some (c ∷ line, rest)

-- `reader.ReadString('\n')`: the line with its delimiter, and the rest; `none` at the end of input.
unfoldable pub read_string : Bytes → Option (Bytes × Bytes)
unfolding keep_byte
read_string [] = none
read_string (c ∷ s) = if c == 10 then some (c ∷ [], s) else keep_byte c (read_string s)

-- `len(line) < 2 || line[len(line)-2] != '\r'`
unfoldable pub missing_crlf : Bytes → Bool
missing_crlf line =
    ltb (length line) 2
    || elim (get_elem? line (length line - 2)) [ none ↦ true | some c ↦ not (c == 13) ]

-- A line that ends in CR LF, without them.
unfoldable pub read_line : Bytes → Outcome Bytes
unfolding read_string missing_crlf
read_line input = elim (read_string input) [
  | none ↦ fail invalid_resp
  | some (line, rest) ↦
      if missing_crlf line then fail invalid_resp else ok (take (length line - 2) line) rest
]

-- `strconv.Atoi(lengthStr[:len(lengthStr)-2])`, where the slice panics on a line of one byte.
unfoldable pub read_length : Bytes → Outcome ℤ
unfolding read_string
read_length input = elim (read_string input) [
  | none ↦ fail invalid_resp
  | some (line, rest) ↦
      if ltb (length line) 2 then panic else elim (parse_int (take (length line - 2) line)) [
        | none ↦ fail invalid_resp
        | some n ↦ ok n rest
      ]
]

unfoldable pub read_simple_string : Bytes → Outcome RespValue
read_simple_string input = read_line input >>= λ s rest. ok (simple_string s) rest

unfoldable pub read_error : Bytes → Outcome RespValue
read_error input = read_line input >>= λ s rest. ok (error s) rest

unfoldable pub read_integer : Bytes → Outcome RespValue
read_integer input = read_line input >>= λ s rest. elim (parse_int s) [
  | none ↦ fail invalid_resp
  | some n ↦ ok (integer n) rest
]

-- The length is read; -1 is null, 0 reads nothing more, and any other negative length panics in
-- `make` or in the slice behind it. Else the data and two more bytes are read, whatever these are.
unfoldable pub read_bulk_body : ℤ → Bytes → Outcome RespValue
read_bulk_body (negsuc zero) input = ok null_bulk input
read_bulk_body (negsuc (suc n)) input = panic
read_bulk_body (pos n) input =
    if n == 0
    then ok (bulk_string []) input
    else if ltb max_bulk_string_size n
    then fail too_large
    else if ltb (length input) (n + 2)
    then fail invalid_resp
    else ok (bulk_string (take n input)) (drop (n + 2) input)

unfoldable pub read_bulk_string : Bytes → Outcome RespValue
read_bulk_string input = read_length input >>= read_bulk_body

-- An error inside an array is wrapped in ErrInvalidRESP.
unfoldable pub wrap_invalid {ℓ} : {A : Type ℓ} → Outcome A → Outcome A
wrap_invalid (ok a rest) = ok a rest
wrap_invalid (fail e) = fail invalid_resp
wrap_invalid panic = panic

-- The loop of `readArray` over the elements, given `Read` at the depth inside.
unfoldable pub read_elements : (Bytes → Outcome RespValue) → ℕ → Bytes → Outcome RespValues
unfolding wrap_invalid
read_elements read zero input = ok nil input
read_elements read (suc n) input = wrap_invalid (read input) >>= λ v rest.
    read_elements read n rest >>= λ vs rest'. ok (cons v vs) rest'

unfoldable pub read_array_body : (Bytes → Outcome RespValue) → ℤ → Bytes → Outcome RespValue
read_array_body read (negsuc zero) input = ok null_array input
read_array_body read (negsuc (suc n)) input = panic
read_array_body read (pos n) input =
    if ltb max_array_length n
    then panic
    else read_elements read n input >>= λ vs rest. ok (array vs) rest

unfoldable pub read_array : (Bytes → Outcome RespValue) → Bytes → Outcome RespValue
read_array read input = read_length input >>= read_array_body read

-- The switch of `Read` on the first byte, given the reading of an array at this depth.
unfoldable pub read_typed : (Bytes → Outcome RespValue) → Bytes → Outcome RespValue
read_typed open_array [] = fail eof
read_typed open_array (b ∷ input) =
    if b == b'+'
    then read_simple_string input
    else if b == b'-'
    then read_error input
    else if b == b':'
    then read_integer input
    else if b == b'$'
    then read_bulk_string input
    else if b == b'*'
    then open_array input
    else fail (unknown_type b)

unfoldable pub read_at : ℕ → Bytes → Outcome RespValue
read_at zero = read_typed (λ _. fail too_deep)
read_at (suc room) = read_typed (read_array (read_at room))

-- `Read` of a parser between two values.
unfoldable pub read : Bytes → Outcome RespValue
read = read_at max_resp_depth
