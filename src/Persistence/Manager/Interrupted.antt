-- ===== src/Persistence/Manager/Interrupted.antt =====
-- What a restart brings back of a run that ended at any moment, with what the log still buffered.
use pendem.Base.{
  ℕ, suc, ◌+◌, true, Option, some, List, [], ◌∷◌, ◌++◌, map, Bytes, All, length, take, append_assoc,
  append-nil, ◌≡◌, refl, sym, ap, ◌∙◌, arith,
}
use pendem.Engine.SortedSet.{Floats}
use pendem.Handler.{Handler}
use pendem.Config.{PersistenceConfig}
use pendem.Persistence.Aof.{IsLoggable, load, values_of, log_all}
use pendem.Persistence.Aof.Cut.{Command}
use pendem.Persistence.Aof.Writer.{LogEvent, logged, overflow, tick, run, start, stop}
use pendem.Persistence.Aof.Crash.{
  Ledger, IsLoggableEvent, ledger, load-run, written-Covers, run-start-Covers,
}
use pendem.Persistence.Replay.History.{
  IsReplayed, entry, execute_all, logged_commands, execute_all-Log, logged_commands-map,
}
use pendem.Persistence.Json.{JsonData}
use pendem.Persistence.Manager.{Files, load_data}
use pendem.Persistence.Manager.Recovery.{load_data-log}

-- The commands that the events log.
unfoldable pub commands_in : List LogEvent → List Command
commands_in [] = []
commands_in (logged cmd args ∷ es) = (cmd, args) ∷ commands_in es
commands_in (overflow n ∷ es) = commands_in es
commands_in (tick ∷ es) = commands_in es

commands_in-IsLoggable :
    (es : List LogEvent) → All IsLoggable (commands_in es) → All IsLoggableEvent es
unfolding commands_in
commands_in-IsLoggable [] h = tt
commands_in-IsLoggable (logged cmd args ∷ es) h = (h.0, commands_in-IsLoggable es h.1)
commands_in-IsLoggable (overflow n ∷ es) h = (tt, commands_in-IsLoggable es h)
commands_in-IsLoggable (tick ∷ es) h = (tt, commands_in-IsLoggable es h)

-- The ledger holds the commands of the events, in their order.
ledger-commands_in :
    (es : List LogEvent) (l : Ledger)
    → (ledger es l).flushed ++ (ledger es l).waiting ≡ (l.flushed ++ l.waiting) ++ commands_in es
unfolding commands_in ledger
ledger-commands_in [] l = sym (append-nil (l.flushed ++ l.waiting))
ledger-commands_in (logged cmd args ∷ es) l =
    let c = (cmd, args) ∷ [] in
    ledger-commands_in es (record l { waiting = l.waiting ++ c })
    ∙ ap (λ x. x ++ commands_in es) (sym (append_assoc l.flushed l.waiting c))
    ∙ append_assoc (l.flushed ++ l.waiting) c (commands_in es)
ledger-commands_in (overflow n ∷ es) l = ledger-commands_in es l
ledger-commands_in (tick ∷ es) l =
    ledger-commands_in es (record { flushed = l.flushed ++ l.waiting; waiting = [] })
    ∙ ap (λ x. x ++ commands_in es) (append-nil (l.flushed ++ l.waiting))

take-append_more {ℓ} :
    {A : Type ℓ} (xs ys : List A) (k : ℕ) → xs ++ take k ys ≡ take (length xs + k) (xs ++ ys)
take-append_more [] ys k = let e : 0 + k ≡ k = omega arith in rw e refl
take-append_more (x ∷ xs) ys k =
    let e : suc (length xs) + k ≡ suc (length xs + k) = omega arith in
    rw e (ap (λ t. x ∷ t) (take-append_more xs ys k))

abbrev pub no_commands : Ledger
no_commands = record { flushed = []; waiting = [] }

-- `load-run` from an empty file.
load-run_empty :
    (es : List LogEvent)
    → All IsLoggable (commands_in es)
    → (k : ℕ) × (load (run es (start [])).file ≡ (
      values_of ((ledger es no_commands).flushed ++ take k (ledger es no_commands).waiting),
      true,
    ))
unfolding log_all
load-run_empty es h = (load-run [] es tt (commands_in-IsLoggable es h)).0

-- Behind `Stop` the file holds all of them.
pub stop-commands_in :
    (es : List LogEvent)
    → All IsLoggable (commands_in es)
    → stop (run es (start [])) ≡ log_all (commands_in es)
unfolding log_all stop
stop-commands_in es h =
    written-Covers (run es (start [])) (ledger es no_commands)
      (run-start-Covers [] es tt (commands_in-IsLoggable es h))
    ∙ ap log_all (ledger-commands_in es no_commands)

-- What was flushed and a first part of what waits is a first part of what the events log.
loaded-commands_in :
    (es : List LogEvent) (k : ℕ)
    → (ledger es no_commands).flushed ++ take k (ledger es no_commands).waiting
      ≡ take (length (ledger es no_commands).flushed + k) (commands_in es)
loaded-commands_in es k =
    let l = ledger es no_commands in
    take-append_more l.flushed l.waiting k
    ∙ ap (take (length l.flushed + k)) (ledger-commands_in es no_commands)

module _ {F : Type 0} (fl : Floats F) (unmarshal : Bytes → Option JsonData) (now : ℕ) where
  -- Commands of the kinds SET without an expiry in PX, DEL, HSET, HDEL, LPUSH, RPUSH, LPOP, RPOP, SADD,
  -- SREM, ZREM, MSET, MSETNX, ZADD with scores that are floats, PING, ECHO, POLICY, EXISTS, and the
  -- reading ones of hashes, lists, sets and sorted sets, whose strings are not empty and within the
  -- limits of the parser, run with a log that is on and empty, and are logged in their order, while the buffer overflows and the ticker runs at any moments. The program ends
  -- behind any of these events. Then a restart with the log on does not panic on the log and, at the same time and with the cache
  -- as it was before the commands, has the cache that a first part of the commands left; what this
  -- part logged is what was logged before the last tick and a first part of what was logged behind
  -- it.
  pub load_data-run :
      (cfg : PersistenceConfig) (files : Files) (cs : List Command) (h : Handler F)
      (es : List LogEvent)
      → cfg.aof.enabled ≡ true
      → h.persistent ≡ true
      → h.launched ≡ []
      → All (IsReplayed fl) cs
      → All IsLoggable cs
      → commands_in es ≡ logged_commands (execute_all fl now cs h).launched
      → files.aof ≡ some (run es (start [])).file
      → (n : ℕ) × (k : ℕ) × (logged_commands (execute_all fl now (take n cs) h).launched
          ≡ (ledger es no_commands).flushed ++ take k (ledger es no_commands).waiting)
        × (load_data fl unmarshal now cfg files h.cache
            ≡ ((execute_all fl now (take n cs) h).cache, true))
  unfolding load_data
  load_data-run cfg files cs h es on logging fresh known loggable same found =
      let log = execute_all-Log fl now cs h known logging in
      let names = λ (xs : List Command).
        ap (λ ls. logged_commands (ls ++ map entry xs)) fresh ∙ logged_commands-map fl now xs in
      let all : commands_in es ≡ log.commands =
        same ∙ ap logged_commands log.launched ∙ names log.commands in
      let (k, loaded) = load-run_empty es (rw all (log.loggable loggable)) in
      let m = length (ledger es no_commands).flushed + k in
      let part = loaded-commands_in es k ∙ ap (take m) all in
      let (n, launched, replayed) = log.cut m in
      (
        n,
        k,
        ap logged_commands launched ∙ names (take m log.commands) ∙ sym part,
        load_data-log fl unmarshal now cfg files h.cache on found
              (loaded ∙ ap (λ xs. (values_of xs, true)) part)
            ∙ ap (λ c. (c, true)) replayed,
      )
