-- ===== src/Resp/Encode.antt =====
-- `EncodeRESP` and `encodeRESPToBuilder`: the builder is the text written so far.
use pendem.Base.{ℕ, Bytes, [], ◌∷◌, ◌++◌, codes, length}
use pendem.Base.Strconv.{format_uint, format_int}
use pendem.Resp.{
  RespValue, RespValues, simple_string, error, bulk_string, integer, null_bulk, null_array, array,
  nil, cons, length_values,
}

abbrev pub crlf : Bytes
crlf = 13 ∷ 10 ∷ []

-- `"$" + strconv.Itoa(n) + "\r\n"`, with the byte that marks the type.
unfoldable pub header : ℕ → ℕ → Bytes
header mark n = mark ∷ (format_uint n ++ crlf)

unfoldable mutual
  unfolding header

  pub encode_value : Bytes → RespValue → Bytes
  encode_value b (simple_string s) = b ++ (b'+' ∷ (s ++ crlf))
  encode_value b (error s) = b ++ (b'-' ∷ (s ++ crlf))
  encode_value b (integer n) = b ++ (b':' ∷ (format_int n ++ crlf))
  encode_value b null_bulk = b ++ codes "$-1\r\n"
  encode_value b (bulk_string s) = b ++ (header b'$' (length s) ++ (s ++ crlf))
  encode_value b null_array = b ++ codes "*-1\r\n"
  encode_value b (array vs) = encode_values (b ++ header b'*' (length_values vs)) vs

  pub encode_values : Bytes → RespValues → Bytes
  encode_values b nil = b
  encode_values b (cons v vs) = encode_values (encode_value b v) vs

unfoldable pub encode : RespValue → Bytes
unfolding encode_value encode_values
encode v = encode_value [] v
