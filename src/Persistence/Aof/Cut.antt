-- ===== src/Persistence/Aof/Cut.antt =====
-- `Load` of aof.go on a log that is cut off after some of its bytes.
use pendem.Base.{
  Bool, true, false, ℕ, zero, suc, ◌≤◌, ◌≡◌, ◌⊎◌, inl, inr, refl, sym, ap, ◌∙◌, List, [], ◌∷◌, ◌++◌,
  Bytes, length, take, All, append_assoc, append-nil, arith,
}
use pendem.Resp.{RespValue, Outcome, ok, fail, panic}
use pendem.Resp.Encode.{encode}
use pendem.Resp.Parse.{read, max_resp_depth}
use pendem.Resp.RoundTrip.{IsReadable, read-encode}
use pendem.Resp.Streaming.{read-append, read-append_panic}
use pendem.Persistence.Aof.{
  IsLoggable, command_value, with_value, load_loop, load_loop_empty, log_all, log_command,
  log_command-encode, values_of,
}

abbrev pub Command : Type 0
Command = Bytes × List Bytes

-- Two ways to cut a list: the first part of one reaches over that of the other, or ends inside it.
append-split {ℓ} :
    {A : Type ℓ} (xs ys us vs : List A)
    → xs ++ ys ≡ us ++ vs
    → ((t : List A) × (xs ≡ us ++ t) × (t ++ ys ≡ vs))
      ⊎ ((x : A) × (t : List A) × (us ≡ xs ++ x ∷ t))
append-split xs ys [] vs h = inl (xs, refl, h)
append-split [] ys (u ∷ us) vs h = inr (u, us, refl)
append-split (x ∷ xs) ys (u ∷ us) vs h = elim (append-split xs ys us vs (cc)) [
  | inl (t, e, e') ↦ inl (t, (cc), e')
  | inr (y, t, e) ↦ inr (y, t, (cc))
]

-- A value that is cut off before its end is not read.
read-torn :
    (v : RespValue) (p : Bytes) (b : ℕ) (t : Bytes)
    → IsReadable v max_resp_depth
    → encode v ≡ p ++ b ∷ t
    → {w : RespValue} {rest : Bytes} → read p ≡ ok w rest
    → ⊥
read-torn v p b t h e {w} {rest} r = left rest whole
  where
    whole : ok w (rest ++ b ∷ t) ≡ ok v []
    whole =
        sym (read-append p (b ∷ t) r)
        ∙ (rw (← e) (ap read (sym (append-nil (encode v))) ∙ read-encode v [] h))

    left : (rest : Bytes) → ok w (rest ++ b ∷ t) ≡ ok v [] → ⊥
    left [] k = cc
    left (c ∷ rest) k = cc

-- Nor does the parser panic on it.
read-torn_panic :
    (v : RespValue) (p : Bytes) (b : ℕ) (t : Bytes)
    → IsReadable v max_resp_depth
    → encode v ≡ p ++ b ∷ t
    → read p ≡ panic
    → ⊥
read-torn_panic v p b t h e r =
    let whole : panic ≡ ok v [] =
      sym (read-append_panic p (b ∷ t) r)
      ∙ (rw (← e) (ap read (sym (append-nil (encode v))) ∙ read-encode v [] h)) in
    cc

-- The loop ends at bytes that are no value.
pub load_loop-unread :
    (fuel : ℕ) (p : Bytes)
    → ((w : RespValue) (rest : Bytes) → read p ≡ ok w rest → ⊥)
    → (read p ≡ panic → ⊥)
    → load_loop fuel p ≡ ([], true)
unfolding load_loop
load_loop-unread zero p no_value no_panic = refl
load_loop-unread (suc fuel) p no_value no_panic = ends (read p) no_value no_panic
  where
    ends :
        (o : Outcome RespValue)
        → ((w : RespValue) (rest : Bytes) → o ≡ ok w rest → ⊥)
        → (o ≡ panic → ⊥)
        → elim o as (λ _. List RespValue × Bool) [
          | ok v rest ↦ with_value v (load_loop fuel rest)
          | fail e ↦ ([], true)
          | panic ↦ ([], false)
        ]
          ≡ ([], true)
    ends (ok w rest) h k = absurd (h w rest refl)
    ends (fail e) h k = refl
    ends panic h k = absurd (k refl)

pub read-log_command :
    (cmd : Bytes) (args : List Bytes) (rest : Bytes)
    → IsLoggable (cmd, args)
    → read (log_command cmd args ++ rest) ≡ ok (command_value cmd args) rest
read-log_command cmd args rest h =
    rw (log_command-encode cmd args) (read-encode (command_value cmd args) rest h)

-- The first bytes of a log hold its first commands.
load_loop-cut :
    (fuel : ℕ) (cs : List Command) (p b : Bytes)
    → All IsLoggable cs
    → p ++ b ≡ log_all cs
    → (k : ℕ) × (load_loop fuel p ≡ (values_of (take k cs), true))
unfolding load_loop log_all values_of
load_loop-cut zero cs p b h e = (0, refl)
load_loop-cut (suc fuel) [] [] b h e = (0, load_loop_empty (suc fuel))
load_loop-cut (suc fuel) [] (x ∷ p) b h e = cc
load_loop-cut (suc fuel) ((cmd, args) ∷ cs) p b h e =
    elim (append-split p b (log_command cmd args) (log_all cs) e) [
      | inl (t, whole, e') ↦
          let (k, found) = load_loop-cut fuel cs t b h.1 e' in
          (
            suc k,
            rw (whole, load_loop, read-log_command cmd args t h.0)
                (ap (with_value (command_value cmd args)) found),
          )
      | inr (x, t, torn) ↦ (
        0,
        load_loop-unread (suc fuel) p
            (λ w rest.
              read-torn (command_value cmd args) p x t h.0
                (sym (log_command-encode cmd args) ∙ torn))
            (read-torn_panic (command_value cmd args) p x t h.0
              (sym (log_command-encode cmd args) ∙ torn)),
      )
    ]

pub load_loop-log_cut :
    (fuel : ℕ) (ds es : List Command) (p b : Bytes)
    → All IsLoggable ds
    → All IsLoggable es
    → p ++ b ≡ log_all es
    → length ds ≤ fuel
    → (k : ℕ) × (load_loop fuel (log_all ds ++ p) ≡ (values_of (ds ++ take k es), true))
unfolding load_loop log_all values_of
load_loop-log_cut fuel [] es p b hd he e le = load_loop-cut fuel es p b he e
load_loop-log_cut zero (d ∷ ds) es p b hd he e le = absurd (omega arith)
load_loop-log_cut (suc fuel) ((cmd, args) ∷ ds) es p b hd he e le =
    let (k, found) = load_loop-log_cut fuel ds es p b hd.1 he e (omega arith) in
    (
      k,
      rw
          (
            append_assoc (log_command cmd args) (log_all ds) p,
            load_loop,
            read-log_command cmd args (log_all ds ++ p) hd.0,
          )
          (ap (with_value (command_value cmd args)) found),
    )
