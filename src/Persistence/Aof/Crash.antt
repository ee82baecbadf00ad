-- ===== src/Persistence/Aof/Crash.antt =====
-- What `Load` of aof.go finds after the program ended at any moment, whatever the buffer still held.
use pendem.Base.{
  true, take-append-drop, ℕ, ◌≡◌, refl, sym, ap, ◌∙◌, List, [], ◌∷◌, ◌++◌, Bytes, length, take,
  drop, All, All-append, append_assoc, append-nil, length-append, arith,
}
use pendem.Persistence.Aof.{
  IsLoggable, load, log_all, log_command, values_of, length-log_all, load-log_all,
}
use pendem.Persistence.Aof.Cut.{Command, load_loop-log_cut}
use pendem.Persistence.Aof.Writer.{
  LogFile, LogEvent, logged, overflow, tick, on_event, run, start, stop,
}

-- The commands of which the last flush wrote everything, and those that were logged behind it.
pub record Ledger : Type 0 where
  pub flushed : List Command
  pub waiting : List Command

unfoldable pub note_event : LogEvent → Ledger → Ledger
note_event (logged cmd args) l = record l { waiting = l.waiting ++ (cmd, args) ∷ [] }
note_event (overflow n) l = l
note_event tick l = record { flushed = l.flushed ++ l.waiting; waiting = [] }

unfoldable pub ledger : List LogEvent → Ledger → Ledger
unfolding note_event
ledger [] l = l
ledger (e ∷ es) l = ledger es (note_event e l)

-- The commands of the events are within the limits of the parser, as in `load-log_all`.
abbrev pub IsLoggableEvent : LogEvent → Type 0
IsLoggableEvent (logged cmd args) = IsLoggable (cmd, args)
IsLoggableEvent _ = Unit {0}

-- The file holds what was flushed, and with the buffer what waits.
pub record Covers (f : LogFile) (l : Ledger) : Type 0 where
  pub spilled : Bytes
  pub on_file : f.file ≡ log_all l.flushed ++ spilled
  pub to_come : spilled ++ f.buffer ≡ log_all l.waiting
  flushed_loggable : All IsLoggable l.flushed
  waiting_loggable : All IsLoggable l.waiting

pub log_all-append : (cs ds : List Command) → log_all (cs ++ ds) ≡ log_all cs ++ log_all ds
unfolding log_all
log_all-append [] ds = refl
log_all-append ((cmd, args) ∷ cs) ds =
    ap (λ t. log_command cmd args ++ t) (log_all-append cs ds)
    ∙ sym (append_assoc (log_command cmd args) (log_all cs) (log_all ds))

on_event-Covers :
    (e : LogEvent) (f : LogFile) (l : Ledger)
    → IsLoggableEvent e
    → Covers f l
    → Covers (on_event e f) (note_event e l)
unfolding on_event note_event
on_event-Covers (logged cmd args) f l h c = record {
  spilled = c.spilled;
  on_file = c.on_file;
  to_come =
      sym (append_assoc c.spilled f.buffer (log_command cmd args))
      ∙ ap (λ t. t ++ log_command cmd args) c.to_come
      ∙ (unfold log_all in
          rw (log_all-append l.waiting ((cmd, args) ∷ []))
            (ap (λ t. log_all l.waiting ++ t) (sym (append-nil (log_command cmd args)))));
  flushed_loggable = c.flushed_loggable;
  waiting_loggable = All-append IsLoggable l.waiting ((cmd, args) ∷ []) c.waiting_loggable (h, tt);
}
on_event-Covers (overflow n) f l h c = record {
  spilled = c.spilled ++ take n f.buffer;
  on_file =
      ap (λ t. t ++ take n f.buffer) c.on_file
      ∙ append_assoc (log_all l.flushed) c.spilled (take n f.buffer);
  to_come =
      append_assoc c.spilled (take n f.buffer) (drop n f.buffer)
      ∙ ap (λ t. c.spilled ++ t) (take-append-drop n f.buffer)
      ∙ c.to_come;
  flushed_loggable = c.flushed_loggable;
  waiting_loggable = c.waiting_loggable;
}
on_event-Covers tick f l h c = record {
  spilled = [];
  on_file =
      ap (λ t. t ++ f.buffer) c.on_file
      ∙ append_assoc (log_all l.flushed) c.spilled f.buffer
      ∙ ap (λ t. log_all l.flushed ++ t) c.to_come
      ∙ sym (log_all-append l.flushed l.waiting)
      ∙ sym (append-nil (log_all (l.flushed ++ l.waiting)));
  to_come = unfold log_all in refl;
  flushed_loggable =
      All-append IsLoggable l.flushed l.waiting c.flushed_loggable c.waiting_loggable;
  waiting_loggable = tt;
}

run-Covers :
    (es : List LogEvent) (f : LogFile) (l : Ledger)
    → All IsLoggableEvent es
    → Covers f l
    → Covers (run es f) (ledger es l)
unfolding run ledger
run-Covers [] f l h c = c
run-Covers (e ∷ es) f l h c =
    run-Covers es (on_event e f) (note_event e l) h.1 (on_event-Covers e f l h.0 c)

start-Covers :
    (cs : List Command)
    → All IsLoggable cs
    → Covers (start (log_all cs)) (record { flushed = cs; waiting = [] })
unfolding start log_all
start-Covers cs h = record {
  spilled = [];
  on_file = sym (append-nil (log_all cs));
  to_come = refl;
  flushed_loggable = h;
  waiting_loggable = tt;
}

load-Covers :
    (f : LogFile) (l : Ledger)
    → Covers f l
    → (k : ℕ) × (load f.file ≡ (values_of (l.flushed ++ take k l.waiting), true))
unfolding load
load-Covers f l c = rw c.on_file (
    load_loop-log_cut (length (log_all l.flushed ++ c.spilled)) l.flushed l.waiting c.spilled
      f.buffer c.flushed_loggable c.waiting_loggable c.to_come
      (omega (arith, length-log_all l.flushed, length-append (log_all l.flushed) c.spilled)))

-- What is on the file and in the buffer is the whole log.
pub written-Covers :
    (f : LogFile) (l : Ledger) → Covers f l → f.file ++ f.buffer ≡ log_all (l.flushed ++ l.waiting)
written-Covers f l c =
    ap (λ t. t ++ f.buffer) c.on_file
    ∙ append_assoc (log_all l.flushed) c.spilled f.buffer
    ∙ ap (λ t. log_all l.flushed ++ t) c.to_come
    ∙ sym (log_all-append l.flushed l.waiting)

stop-Covers :
    (f : LogFile) (l : Ledger)
    → Covers f l
    → load (stop f) ≡ (values_of (l.flushed ++ l.waiting), true)
unfolding stop
stop-Covers f l c =
    ap load (written-Covers f l c)
    ∙ load-log_all (l.flushed ++ l.waiting)
        (All-append IsLoggable l.flushed l.waiting c.flushed_loggable c.waiting_loggable)

pub run-start-Covers :
    (cs : List Command) (es : List LogEvent)
    → All IsLoggable cs
    → All IsLoggableEvent es
    → Covers (run es (start (log_all cs))) (ledger es (record { flushed = cs; waiting = [] }))
run-start-Covers cs es hc he =
    run-Covers es (start (log_all cs)) (record { flushed = cs; waiting = [] }) he
      (start-Covers cs hc)

-- The program starts on the log of `cs` and ends at any moment, where commands within the limits of
-- the parser were logged, the buffer overflowed and the ticker ran, in any order. Then `Load` gives
-- `cs`, every command that was logged before the last tick, and a first part of those behind it, in
-- their order, and nothing else, and the process does not panic. Where the program ends by `Stop`, `Load` gives all of them.
pub load-run :
    (cs : List Command) (es : List LogEvent)
    → All IsLoggable cs
    → All IsLoggableEvent es
    → let l = ledger es (record { flushed = cs; waiting = [] }) in
      let f = run es (start (log_all cs)) in
      ((k : ℕ) × (load f.file ≡ (values_of (l.flushed ++ take k l.waiting), true)))
      × (load (stop f) ≡ (values_of (l.flushed ++ l.waiting), true))
load-run cs es hc he =
    let c = run-start-Covers cs es hc he in (load-Covers _ _ c, stop-Covers _ _ c)
