-- ===== src/Persistence/Aof/Torn.antt =====
-- `Start` of aof.go behind a log that ends in the first byte of a command.
use pendem.Base.{
  true, ℕ, zero, suc, ◌≤◌, ◌≡◌, ◌⊎◌, inl, inr, refl, sym, ap, ◌∙◌, List, [], ◌∷◌, ◌++◌, Bytes,
  length, take, All, append_assoc, append-nil, length-append, arith,
}
use pendem.Resp.{RespValue, Outcome, ok, fail, panic, ◌>>=◌}
use pendem.Resp.Parse.{read}
use pendem.Persistence.Aof.{
  IsLoggable, command_value, load, with_value, load_loop, log_all, log_command, values_of,
  length-log_all,
}
use pendem.Resp.Parse.{read_at, read_typed, read_array, read_length, read_string, read_array_body}
use pendem.Base.{some, inl, inr, Option-cases}
use pendem.Base.Int.{ℤ}
use pendem.Base.Strconv.{parse_int, scan_digits, is_digit}
use pendem.Persistence.Aof.Cut.{Command, load_loop-unread, read-log_command}
use pendem.Persistence.Aof.Crash.{IsLoggableEvent, run-start-Covers, written-Covers, ledger}
use pendem.Persistence.Aof.Writer.{
  LogFile, LogEvent, logged, overflow, tick, on_event, run, start, append_command, flush, spill,
}

-- The writer only appends to the file that it was started on.
run-append :
    (es : List LogEvent) (contents : Bytes) (f : LogFile)
    → run es (record f { file = contents ++ f.file })
      ≡ record (run es f) { file = contents ++ (run es f).file }
unfolding run on_event
run-append [] contents f = refl
run-append (logged cmd args ∷ es) contents f = run-append es contents (append_command cmd args f)
run-append (overflow n ∷ es) contents f =
    rw (append_assoc contents f.file (take n f.buffer)) (run-append es contents (spill n f))
run-append (tick ∷ es) contents f =
    rw (append_assoc contents f.file f.buffer) (run-append es contents (flush f))

run-start :
    (es : List LogEvent) (contents : Bytes)
    → (run es (start contents)).file ≡ contents ++ (run es (start [])).file
unfolding start
run-start es contents =
    ap (λ t. (run es (record { file = t; buffer = [] })).file) (sym (append-nil contents))
    ∙ ap (λ (f : LogFile). f.file) (run-append es contents (start []))

-- A log starts with the byte of an array.
log_all-head :
    (cs : List Command) (p b : Bytes)
    → p ++ b ≡ log_all cs
    → (p ≡ []) ⊎ ((t : Bytes) × (p ≡ b'*' ∷ t))
unfolding log_all log_command
log_all-head cs [] b e = inl refl
log_all-head [] (x ∷ p) b e = cc
log_all-head ((cmd, args) ∷ cs) (x ∷ p) b e = inr (p, (cc))

-- A length that starts with an asterisk is refused.
read_length-asterisk : (t : Bytes) {n : ℤ} {rest : Bytes} → read_length (b'*' ∷ t) ≡ ok n rest → ⊥
unfolding read_length read_string parse_int scan_digits is_digit
read_length-asterisk t {n} {rest} h = elim (Option-cases (read_string t)) [
  | inl e ↦ ground arith
  | inr (p, e) ↦ let (l, r) = p in refused l r e
]
  where
    refused : (l r : Bytes) → read_string t ≡ some (l, r) → ⊥
    refused [] r e = ground arith
    refused (x ∷ []) r e = ground arith
    refused (x ∷ y ∷ l) r e = ground arith

bind-refused :
    (o : Outcome ℤ) (f : ℤ → Bytes → Outcome RespValue)
    → ((n : ℤ) (rest : Bytes) → o ≡ ok n rest → ⊥)
    → (w : RespValue) (rest : Bytes) → (o >>= f) ≡ ok w rest
    → ⊥
bind-refused (ok n r) f no_length w rest h = no_length n r refl
bind-refused (fail e) f no_length w rest h = cc
bind-refused panic f no_length w rest h = cc

bind-no_panic :
    (o : Outcome ℤ) (f : ℤ → Bytes → Outcome RespValue)
    → ((n : ℤ) (rest : Bytes) → o ≡ ok n rest → ⊥)
    → (o ≡ panic → ⊥)
    → (o >>= f) ≡ panic
    → ⊥
bind-no_panic (ok n r) f no_length no_panic h = no_length n r refl
bind-no_panic (fail e) f no_length no_panic h = cc
bind-no_panic panic f no_length no_panic h = no_panic refl

read_string-long : (t : Bytes) {r : Bytes} → read_string t ≡ some ([], r) → ⊥
unfolding read_string
read_string-long [] h = ground (arith, h)
read_string-long (c ∷ t) h = elim (Option-cases (read_string t)) [
  | inl e ↦ ground (arith, h)
  | inr (p, e) ↦ let (l, r) = p in ground (arith, h)
]

-- The line behind an asterisk has more than one byte.
read_length-asterisk_panic : (t : Bytes) → read_length (b'*' ∷ t) ≡ panic → ⊥
unfolding read_length read_string
read_length-asterisk_panic t h = elim (Option-cases (read_string t)) [
  | inl e ↦ ground arith
  | inr (p, e) ↦ let (l, r) = p in long l r e
]
  where
    long : (l r : Bytes) → read_string t ≡ some (l, r) → ⊥
    long [] r e = read_string-long t e
    long (x ∷ l) r e = ground arith

-- The lost byte and the log behind it are no value.
read-asterisk :
    (p : Bytes)
    → (p ≡ []) ⊎ ((t : Bytes) × (p ≡ b'*' ∷ t))
    → (w : RespValue) (rest : Bytes) → read (b'*' ∷ p) ≡ ok w rest
    → ⊥
unfolding read read_at read_typed read_array
read-asterisk p (inl e) w rest h =
    bind-refused (read_length p) (read_array_body (read_at 31))
      (λ n r k.
        let k' : read_length [] ≡ ok n r = rw (← e) k in (unfold read_length read_string in cc))
      w rest h
read-asterisk p (inr (t, e)) w rest h =
    bind-refused (read_length p) (read_array_body (read_at 31))
      (λ n r k. read_length-asterisk t (rw e at k)) w rest h

read-asterisk_panic :
    (p : Bytes) → (p ≡ []) ⊎ ((t : Bytes) × (p ≡ b'*' ∷ t)) → read (b'*' ∷ p) ≡ panic → ⊥
unfolding read read_at read_typed read_array
read-asterisk_panic p (inl e) h =
    bind-no_panic (read_length p) (read_array_body (read_at 31))
      (λ n r k.
        let k' : read_length [] ≡ ok n r = rw (← e) k in (unfold read_length read_string in cc))
      (λ k. let k' : read_length [] ≡ panic = rw (← e) k in (unfold read_length read_string in cc))
      h
read-asterisk_panic p (inr (t, e)) h =
    bind-no_panic (read_length p) (read_array_body (read_at 31))
      (λ n r k. read_length-asterisk t (rw e at k)) (λ k. read_length-asterisk_panic t (rw e at k))
      h

load_loop-torn :
    (fuel : ℕ) (cs : List Command) (p : Bytes)
    → All IsLoggable cs
    → (p ≡ []) ⊎ ((t : Bytes) × (p ≡ b'*' ∷ t))
    → length cs ≤ fuel
    → load_loop fuel (log_all cs ++ b'*' ∷ p) ≡ (values_of cs, true)
unfolding load_loop log_all values_of
load_loop-torn fuel [] p h head le =
    load_loop-unread fuel (b'*' ∷ p) (read-asterisk p head) (read-asterisk_panic p head)
load_loop-torn zero (c ∷ cs) p h head le = absurd (omega arith)
load_loop-torn (suc fuel) ((cmd, args) ∷ cs) p h head le =
    rw
      (
        append_assoc (log_command cmd args) (log_all cs) (b'*' ∷ p),
        load_loop,
        read-log_command cmd args (log_all cs ++ b'*' ∷ p) h.0,
      )
      (ap (with_value (command_value cmd args)) (load_loop-torn fuel cs p h.1 head (omega arith)))

-- What is written behind the lost byte is a part of a log.
run-head :
    (es : List LogEvent)
    → All IsLoggableEvent es
    → let p = (run es (start [])).file in (p ≡ []) ⊎ ((t : Bytes) × (p ≡ b'*' ∷ t))
unfolding log_all
run-head es he =
    let l = ledger es (record { flushed = []; waiting = [] }) in
    log_all-head (l.flushed ++ l.waiting) (run es (start [])).file (run es (start [])).buffer
      (written-Covers (run es (start [])) l (run-start-Covers [] es tt he))

-- The log of `cs` ends in the first byte of one more command, as a crash may leave it, and the
-- program starts on it again. Then `Load` gives no more than `cs`, whatever commands within the
-- limits of the parser are logged from there on, and whether they are flushed or not.
pub load-torn :
    (cs : List Command) (es : List LogEvent)
    → All IsLoggable cs
    → All IsLoggableEvent es
    → load (run es (start (log_all cs ++ b'*' ∷ []))).file ≡ (values_of cs, true)
unfolding load
load-torn cs es hc he =
    let p = (run es (start [])).file in
    rw (run-start es (log_all cs ++ b'*' ∷ []), append_assoc (log_all cs) (b'*' ∷ []) p)
      (load_loop-torn (length (log_all cs ++ b'*' ∷ p)) cs p hc (run-head es he)
        (omega (arith, length-log_all cs, length-append (log_all cs) (b'*' ∷ p))))
