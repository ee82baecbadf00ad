-- ===== src/Persistence/Replay/History.antt =====
-- A run of handlers, the log that it leaves, and the cache that `Load` makes of this log.
use pendem.Base.{
  ℕ, zero, suc, true, List, [], ◌∷◌, ◌++◌, map, Bytes, All, take, append_assoc, append-nil, ◌≡◌,
  inl, inr, refl, sym, ap, ◌∙◌,
}
use pendem.Resp.{bulk_string, from_list, to_list, elements, is_bulk, str}
use pendem.Engine.SortedSet.{Floats}
use pendem.Engine.Cache.{Cache}
use pendem.Handler.{Handler, log_command}
use pendem.Server.{parse_cmd, bulk_args}
use pendem.Resp.{RespValue}
use pendem.Persistence.Aof.{IsLoggable, command_value, values_of, log_all, load, load-log_all}
use pendem.Persistence.Replay.{replay_named, replay_command, replay_all}
use pendem.Persistence.Replay.Handlers.{Replays}
use pendem.Persistence.Replay.Faithful.{is_replayed, execute, execute-replay_named, replayed_upper}

bulk_args-bulks :
    (args : List Bytes) → bulk_args (to_list (from_list (map (λ s. bulk_string s) args))) ≡ args
unfolding bulk_args from_list to_list is_bulk str
bulk_args-bulks [] = refl
bulk_args-bulks (arg ∷ args) = ap (λ r. arg ∷ r) (bulk_args-bulks args)

-- What is launched, as the log has it.
unfoldable pub logged_commands : List (List Bytes) → List (Bytes × List Bytes)
logged_commands [] = []
logged_commands ([] ∷ entries) = logged_commands entries
logged_commands ((cmd ∷ args) ∷ entries) = (cmd, args) ∷ logged_commands entries

abbrev pub entry : Bytes × List Bytes → List Bytes
entry c = c.0 ∷ c.1

abbrev pub IsReplayed : {F : Type 0} → Floats F → Bytes × List Bytes → Type 0
IsReplayed fl c = is_replayed fl c.0 c.1 ≡ true

module _ {F : Type 0} (fl : Floats F) (now : ℕ) where
  -- Commands one after the other.
  unfoldable pub execute_all : List (Bytes × List Bytes) → Handler F → Handler F
  execute_all [] h = h
  execute_all ((cmd, args) ∷ cs) h = execute_all cs (execute fl now cmd args h)

  replay_command-command_value :
      (cmd : Bytes) (args : List Bytes) (c : Cache F)
      → is_replayed fl cmd args ≡ true
      → replay_command fl now (command_value cmd args) c ≡ replay_named fl now cmd args c
  unfolding replay_command command_value elements from_list to_list parse_cmd str
  replay_command-command_value cmd args c h =
      rw (bulk_args-bulks args, replayed_upper fl cmd args h) refl

  -- What a first part of the run `cs` logs is the first `k` of the commands, and is replayed to
  -- its cache.
  abbrev pub Cut : List (Bytes × List Bytes) → Handler F → List (Bytes × List Bytes) → ℕ → Type 0
  Cut cs h commands k =
      (n : ℕ) × ((execute_all (take n cs) h).launched ≡ h.launched ++ map entry (take k commands))
      × (replay_all fl now (values_of (take k commands)) h.cache
          ≡ (execute_all (take n cs) h).cache)

  -- The commands of a run that are logged.
  pub record Log (cs : List (Bytes × List Bytes)) (h h' : Handler F) : Type 0 where
    pub commands : List (Bytes × List Bytes)
    pub launched : h'.launched ≡ h.launched ++ map entry commands
    pub replayed : replay_all fl now (values_of commands) h.cache ≡ h'.cache
    pub loggable : All IsLoggable cs → All IsLoggable commands
    pub cut : (k : ℕ) → Cut cs h commands k

  logged_step :
      (cmd : Bytes) (args : List Bytes) (h h' : Handler F) (c : Cache F)
      → h.persistent ≡ true
      → h' ≡ log_command cmd args (record h { cache = c })
      → (h'.cache ≡ c) × (h'.persistent ≡ true) × (h'.launched ≡ h.launched ++ (cmd ∷ args) ∷ [])
  unfolding log_command
  logged_step cmd args h h' c on step = (rw (step, on) refl, rw (step, on) refl, rw (step, on) refl)

  nil-Cut : (h : Handler F) (k : ℕ) → Cut [] h [] k
  unfolding replay_all values_of execute_all
  nil-Cut h zero = (0, sym (append-nil h.launched), refl)
  nil-Cut h (suc k) = (0, sym (append-nil h.launched), refl)

  cons-Cut :
      (cmd : Bytes) (args : List Bytes) (cs : List (Bytes × List Bytes)) (h : Handler F)
      (commands : List (Bytes × List Bytes))
      → (execute fl now cmd args h).launched ≡ h.launched ++ (cmd ∷ args) ∷ []
      → (replay_command fl now (command_value cmd args) h.cache).0
        ≡ (execute fl now cmd args h).cache
      → ((k : ℕ) → Cut cs (execute fl now cmd args h) commands k)
      → (k : ℕ) → Cut ((cmd, args) ∷ cs) h ((cmd, args) ∷ commands) k
  unfolding replay_all values_of execute_all
  cons-Cut cmd args cs h commands launched head cut zero = (0, sym (append-nil h.launched), refl)
  cons-Cut cmd args cs h commands launched head cut (suc k) =
      let (n, logged, replayed) = cut k in
      (
        suc n,
        logged
            ∙ ap (λ ls. ls ++ map entry (take k commands)) launched
            ∙ append_assoc h.launched ((cmd ∷ args) ∷ []) (map entry (take k commands)),
        ap (λ r. replay_all fl now (values_of (take k commands)) r) head ∙ replayed,
      )

  Log-cons :
      (cmd : Bytes) (args : List Bytes) (cs : List (Bytes × List Bytes)) (h h'' : Handler F)
      → is_replayed fl cmd args ≡ true
      → h.persistent ≡ true
      → Replays fl now cmd args h (execute fl now cmd args h)
      → Log cs (execute fl now cmd args h) h''
      → Log ((cmd, args) ∷ cs) h h''
  unfolding replay_all values_of execute_all
  Log-cons cmd args cs h h'' known on (inl same) l = record {
    commands = l.commands;
    launched = rw (← same) l.launched;
    replayed = rw (← same) l.replayed;
    loggable = λ all. l.loggable all.1;
    cut = λ k.
        let (n, launched, replayed) = l.cut k in
        (
          suc n,
          launched ∙ ap (λ (x : Handler F). x.launched ++ map entry (take k l.commands)) same,
          ap (λ (x : Handler F). replay_all fl now (values_of (take k l.commands)) x.cache)
                (sym same)
              ∙ replayed,
        );
  }
  Log-cons cmd args cs h h'' known on (inr (c, replay, step)) l =
      let (cache, kept, launched) = logged_step cmd args h (execute fl now cmd args h) c on step in
      let head =
        ap (λ r. r.0) (replay_command-command_value cmd args h.cache known ∙ replay) ∙ sym cache in
      record {
        commands = (cmd, args) ∷ l.commands;
        launched =
            l.launched
            ∙ ap (λ ls. ls ++ map entry l.commands) launched
            ∙ append_assoc h.launched ((cmd ∷ args) ∷ []) (map entry l.commands);
        replayed = ap (λ r. replay_all fl now (values_of l.commands) r) head ∙ l.replayed;
        loggable = λ all. (all.0, l.loggable all.1);
        cut = cons-Cut cmd args cs h l.commands launched head l.cut;
      }

  persistent-step :
      (cmd : Bytes) (args : List Bytes) (h h' : Handler F)
      → h.persistent ≡ true
      → Replays fl now cmd args h h'
      → h'.persistent ≡ true
  persistent-step cmd args h h' on (inl same) = rw same on
  persistent-step cmd args h h' on (inr (c, replay, step)) = (logged_step cmd args h h' c on step).1

  pub execute_all-Log :
      (cs : List (Bytes × List Bytes)) (h : Handler F)
      → All (IsReplayed fl) cs
      → h.persistent ≡ true
      → Log cs h (execute_all cs h)
  unfolding execute_all replay_all values_of
  execute_all-Log [] h all on = record {
    commands = [];
    launched = sym (append-nil h.launched);
    replayed = refl;
    loggable = λ a. a;
    cut = nil-Cut h;
  }
  execute_all-Log ((cmd, args) ∷ cs) h all on =
      let step = execute-replay_named fl now cmd args h all.0 in
      Log-cons cmd args cs h (execute_all cs (execute fl now cmd args h)) all.0 on step (
        execute_all-Log cs (execute fl now cmd args h) all.1
          (persistent-step cmd args h (execute fl now cmd args h) on step))

  pub logged_commands-map : (cs : List (Bytes × List Bytes)) → logged_commands (map entry cs) ≡ cs
  unfolding logged_commands
  logged_commands-map [] = refl
  logged_commands-map ((cmd, args) ∷ cs) = ap (λ r. (cmd, args) ∷ r) (logged_commands-map cs)

  -- Commands that the log knows (SET with other options than `PX n`, and ZADD with scores that are
  -- floats), or that leave everything as it is (PING, ECHO, POLICY, EXISTS, and the reading ones on
  -- hashes, lists, sets and sorted sets), whose strings are not empty and within the limits of the
  -- parser, run with a log that is on and empty: loading what they logged, at the same time and
  -- into the cache as it was before, gives the cache that they left.
  pub execute_all-load :
      (cs : List (Bytes × List Bytes)) (h : Handler F)
      → h.persistent ≡ true
      → h.launched ≡ []
      → All (IsReplayed fl) cs
      → All IsLoggable cs
      → (vs : List RespValue) × (load (log_all (logged_commands (execute_all cs h).launched))
          ≡ (vs, true))
        × (replay_all fl now vs h.cache ≡ (execute_all cs h).cache)
  execute_all-load cs h on fresh known loggable =
      let l = execute_all-Log cs h known on in
      let launched = l.launched ∙ ap (λ ls. ls ++ map entry l.commands) fresh in
      let logged = ap logged_commands launched ∙ logged_commands-map l.commands in
      (
        values_of l.commands,
        ap (λ ls. load (log_all ls)) logged ∙ load-log_all l.commands (l.loggable loggable),
        l.replayed,
      )
