-- ===== src/Resp/Faults.antt =====
-- Where the parser does not read back what the encoder writes, where it panics, and where it stops.
use pendem.Base.{ℕ, zero, suc, ◌+◌, ◌≡◌, refl, [], ◌++◌, Bytes, codes}
use pendem.Base.Strconv.{parse_int, format_uint}
use pendem.Resp.{bulk_string, ok, fail, panic, invalid_resp, unknown_type, ReadError}
use pendem.Resp.Encode.{crlf, encode}
use pendem.Resp.Parse.{
  max_resp_depth, read_length, read_bulk_body, read_bulk_string, read_array_body, read_line,
  read_simple_string, read_error, read_integer, read_array, read_elements, read_typed, read_at,
  read, wrap_invalid,
}

-- The parser with all that it calls, for tests by evaluation.
abbrev pub reading : Unit {0}
unfolding read read_at read_typed read_simple_string read_error read_integer read_bulk_string
    read_bulk_body read_array read_array_body read_elements read_length read_line parse_int encode
reading = tt

-- The encoded empty string is read without its last two bytes, so the next read fails on a CR.
read-encode_empty :
    (rest : Bytes)
    → (read (encode (bulk_string []) ++ rest) ≡ ok (bulk_string []) (crlf ++ rest))
      × (read (crlf ++ rest) ≡ fail (unknown_type 13))
unfolding read read_at read_typed read_bulk_string read_bulk_body read_length parse_int encode
    format_uint
read-encode_empty rest = (refl, refl)

-- A length line of one byte, or a length below -1, makes the runtime panic.
pub read_panics :
    (rest : Bytes)
    → (read (codes "$\n" ++ rest) ≡ panic)
      × (read (codes "*\n" ++ rest) ≡ panic)
      × (read (codes "$-2\r\n" ++ rest) ≡ panic)
      × (read (codes "*-2\r\n" ++ rest) ≡ panic)
unfolding read read_at read_typed read_bulk_string read_bulk_body read_array read_array_body
    read_length parse_int
read_panics rest = (refl, refl, refl, refl)

-- `k` arrays of one element, opened one inside the other.
abbrev pub nested : ℕ → Bytes → Bytes
nested zero input = input
nested (suc k) input = codes "*1\r\n" ++ nested k input

read_at-open :
    (room : ℕ) (input : Bytes) {e : ReadError}
    → read_at room input ≡ fail e
    → read_at (suc room) (codes "*1\r\n" ++ input) ≡ fail invalid_resp
unfolding read_at read_typed read_array read_array_body read_elements read_length parse_int
read_at-open room input h = rw (h, wrap_invalid)

read_at-nested :
    (room : ℕ) (input : Bytes)
    → read_at (suc room) (nested (suc (suc room)) input) ≡ fail invalid_resp
unfolding read_at read_typed
read_at-nested zero input = read_at-open zero (nested 1 input) refl
read_at-nested (suc room) input =
    read_at-open (suc room) (nested (suc (suc room)) input) (read_at-nested room input)

-- Arrays nested deeper than the limit are refused, whatever stands inside them.
pub read-nested : (input : Bytes) → read (nested (max_resp_depth + 1) input) ≡ fail invalid_resp
unfolding read
read-nested input = read_at-nested 31 input
