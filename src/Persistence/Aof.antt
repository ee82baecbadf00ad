-- ===== src/Persistence/Aof.antt =====
-- The log of internal/persistence/aof.go: what `LogCommand` writes, and what `Load` reads of it. The
-- bytes of the file are a list; what `replayCommand` does with a value is in Replay.
pub mod Writer
pub mod Cut
pub mod Crash
pub mod Torn
use pendem.Base.{
  Bool, true, false, ℕ, zero, suc, ◌≤◌, ◌≡◌, refl, sym, ap, ◌∙◌, List, [], ◌∷◌, ◌++◌, map, Bytes,
  codes, length, All, append_assoc, append-nil, length-append, arith,
}
use pendem.Base.Strconv.{format_uint}
use pendem.Resp.{RespValue, bulk_string, array, from_list, ok, fail, panic, length_values}
use pendem.Resp.Encode.{crlf, header, encode, encode_value, encode_values}
use pendem.Resp.Parse.{read, read_at, read_typed, max_resp_depth}
use pendem.Resp.RoundTrip.{IsReadable, read-encode}

-- `fmt.Sprintf("$%d\r\n%s\r\n", len(s), s)`
unfoldable pub logged_string : Bytes → Bytes
logged_string s = codes "$" ++ (format_uint (length s) ++ (crlf ++ (s ++ crlf)))

unfoldable pub logged_strings : List Bytes → Bytes
logged_strings [] = []
logged_strings (s ∷ ss) = logged_string s ++ logged_strings ss

-- What `LogCommand` appends to the file.
unfoldable pub log_command : Bytes → List Bytes → Bytes
unfolding logged_string logged_strings
log_command cmd args =
    (codes "*" ++ (format_uint (suc (length args)) ++ crlf)) ++ logged_strings (cmd ∷ args)

abbrev pub with_value : RespValue → List RespValue × Bool → List RespValue × Bool
with_value v (vs, alive) = (v ∷ vs, alive)

-- The values that `Load` hands to `replayCommand` before the first error, and whether the process is
-- still there: a panic of the parser ends it.
unfoldable pub load_loop : ℕ → Bytes → List RespValue × Bool
load_loop zero input = ([], true)
load_loop (suc fuel) input = elim (read input) [
  | ok v rest ↦ with_value v (load_loop fuel rest)
  | fail e ↦ ([], true)
  | panic ↦ ([], false)
]

-- Each value takes at least a byte, so that the length of the file is enough fuel.
unfoldable pub load : Bytes → List RespValue × Bool
unfolding load_loop
load input = load_loop (length input) input

-- A command as the value that the client sent.
unfoldable pub command_value : Bytes → List Bytes → RespValue
command_value cmd args = array (from_list (map (λ s. bulk_string s) (cmd ∷ args)))

logged_string-encode : (s : Bytes) → header b'$' (length s) ++ (s ++ crlf) ≡ logged_string s
unfolding header logged_string
logged_string-encode s = ap (λ t. b'$' ∷ t) (append_assoc (format_uint (length s)) crlf (s ++ crlf))

logged_strings-encode :
    (ss : List Bytes) (b : Bytes)
    → encode_values b (from_list (map (λ s. bulk_string s) ss)) ≡ b ++ logged_strings ss
unfolding encode_value encode_values logged_strings from_list
logged_strings-encode [] b = sym (append-nil b)
logged_strings-encode (s ∷ ss) b =
    logged_strings-encode ss (b ++ (header b'$' (length s) ++ (s ++ crlf)))
    ∙ (rw (logged_string-encode s) (append_assoc b (logged_string s) (logged_strings ss)))

length-bulks :
    (ss : List Bytes) → length_values (from_list (map (λ s. bulk_string s) ss)) ≡ length ss
unfolding from_list
length-bulks [] = refl
length-bulks (s ∷ ss) = ap suc (length-bulks ss)

-- `LogCommand` writes a command as the encoder would.
pub log_command-encode :
    (cmd : Bytes) (args : List Bytes) → log_command cmd args ≡ encode (command_value cmd args)
unfolding log_command encode command_value encode_value header
log_command-encode cmd args = sym (
    logged_strings-encode (cmd ∷ args)
      (header b'*' (length_values (from_list (map (λ s. bulk_string s) (cmd ∷ args)))))
    ∙ (rw (length-bulks (cmd ∷ args)) refl))

-- What a log must keep to for its strings to be read back: they are not empty, and neither they nor
-- their number are above the limits of the parser.
abbrev pub IsLoggable : Bytes × List Bytes → Type 0
IsLoggable c = IsReadable (command_value c.0 c.1) max_resp_depth

unfoldable pub log_all : List (Bytes × List Bytes) → Bytes
log_all [] = []
log_all ((cmd, args) ∷ cs) = log_command cmd args ++ log_all cs

unfoldable pub values_of : List (Bytes × List Bytes) → List RespValue
values_of [] = []
values_of ((cmd, args) ∷ cs) = command_value cmd args ∷ values_of cs

load_loop_empty : (fuel : ℕ) → load_loop fuel [] ≡ ([], true)
unfolding load_loop read read_at read_typed
load_loop_empty zero = refl
load_loop_empty (suc fuel) = refl

load_loop-log_all :
    (fuel : ℕ) (cs : List (Bytes × List Bytes))
    → All IsLoggable cs
    → length cs ≤ fuel
    → load_loop fuel (log_all cs) ≡ (values_of cs, true)
unfolding load_loop log_all values_of
load_loop-log_all fuel [] h le = load_loop_empty fuel
load_loop-log_all zero (c ∷ cs) h le = absurd (omega arith)
load_loop-log_all (suc fuel) ((cmd, args) ∷ cs) h le =
    rw
      (
        log_command-encode cmd args,
        load_loop,
        read-encode (command_value cmd args) (log_all cs) h.0,
      )
      (ap (with_value (command_value cmd args)) (load_loop-log_all fuel cs h.1 (omega arith)))

length-log_all : (cs : List (Bytes × List Bytes)) → length cs ≤ length (log_all cs)
unfolding log_all log_command
length-log_all [] = omega arith
length-log_all ((cmd, args) ∷ cs) =
    omega (arith, length-log_all cs, length-append (log_command cmd args) (log_all cs))

-- `Load` hands on the commands that `LogCommand` logged, all of them and in their order, where their
-- strings are not empty and within the limits of the parser, and the process goes on.
pub load-log_all :
    (cs : List (Bytes × List Bytes)) → All IsLoggable cs → load (log_all cs) ≡ (values_of cs, true)
unfolding load
load-log_all cs h = load_loop-log_all (length (log_all cs)) cs h (length-log_all cs)
