-- ===== src/Server/Splitting.antt =====
-- The reply to an unknown command in `processCommand` of internal/server/server.go, as the client
-- reads it.
use pendem.Base.{
  ℕ, ◌≡◌, ap, sym, ◌∙◌, none, List, ◌++◌, Bytes, codes, lookup, All-append, append_assoc, arith,
}
use pendem.Resp.{error, ok}
use pendem.Resp.Encode.{crlf, encode, encode_value}
use pendem.Resp.Parse.{read, read_at, read_typed, read_error}
use pendem.Resp.RoundTrip.Line.{NoLf, read_line-crlf}
use pendem.Server.{Server, Config}
use pendem.Server.Transaction.{run_handler}

-- An error with a line end inside is read as an error that ends there.
read-encode_split :
    (s t rest : Bytes)
    → NoLf s
    → read (encode (error (s ++ (crlf ++ t))) ++ rest) ≡ ok (error s) (t ++ (crlf ++ rest))
unfolding read read_at read_typed read_error encode encode_value
read-encode_split s t rest h =
    let whole : ((s ++ (crlf ++ t)) ++ crlf) ++ rest ≡ s ++ (crlf ++ (t ++ (crlf ++ rest))) =
      ap (λ x. x ++ rest) (append_assoc s (crlf ++ t) crlf)
      ∙ append_assoc s (crlf ++ (t ++ crlf)) rest
      ∙ ap (λ x. s ++ (crlf ++ x)) (append_assoc t crlf rest) in
    rw (whole, read_line-crlf s (t ++ (crlf ++ rest)) h)

abbrev prefix : Bytes
prefix = codes "ERR unknown command '"

prefix-NoLf : NoLf prefix
prefix-NoLf = omega arith

-- A client that sends a command whose name has a line end inside, and no handler, gets a reply that
-- reads as an error up to there; what is behind it in the name, with a quote, is then the start of
-- the next reply.
pub run_handler-splits :
    {C : Type 0} (cfg : Config C) (now : ℕ) (s t : Bytes) (args : List Bytes) (srv : Server C)
    (rest : Bytes)
    → NoLf s
    → lookup (s ++ (crlf ++ t)) cfg.handlers ≡ none
    → read (encode (run_handler cfg now (s ++ (crlf ++ t)) args srv).1 ++ rest)
      ≡ ok (error (prefix ++ s)) ((t ++ codes "'") ++ (crlf ++ rest))
unfolding run_handler
run_handler-splits cfg now s t args srv rest h missing =
    let regroup : prefix ++ ((s ++ (crlf ++ t)) ++ codes "'")
        ≡ (prefix ++ s) ++ (crlf ++ (t ++ codes "'")) =
      ap (λ x. prefix ++ x) (append_assoc s (crlf ++ t) (codes "'"))
      ∙ sym (append_assoc prefix s (crlf ++ (t ++ codes "'"))) in
    rw (missing, run_handler)
      (rw regroup (
        read-encode_split (prefix ++ s) (t ++ codes "'") rest
          (All-append _ prefix s prefix-NoLf h)))
