-- ===== src/Server/Queue.antt =====
-- What a whole transaction does, from MULTI through the queue to EXEC.
use pendem.Base.{
  ℕ, ==_refl, Bool-cases, inl, inr, true, false, List, [], ◌∷◌, ◌++◌, append_assoc, append-nil,
  length, All, replicate, codes, equal, ◌==◌, ◌≡◌, refl, sym, ap, fun_ext, ◌∙◌, ==_iff, ◌&&◌, not,
}
use pendem.Resp.{RespValue, elements, array, from_list, simple_string}
use pendem.Server.{
  Connection, Server, Config, with_connection, update, parse_cmd, mem_name, IsCommand, extract_keys,
}
use pendem.Server.Transaction.{
  process_command, handle_tx_cmd, handle_exec, handle_multi, ok_reply, run_queued, take_queue,
  answered, drop_watchers, executed,
}
use pendem.Server.Watch.{remove_watcher_by_keys}
use pendem.Server.Process.{process_command_with_tx, process_pipeline, handed_on}

abbrev pub queued_reply : RespValue
queued_reply = simple_string (codes "QUEUED")

-- A value that a transaction queues: a command that is neither AUTH nor about transactions.
pub record IsQueueable (value : RespValue) : Type 0 where
  pub first : RespValue
  pub others : List RespValue
  pub read_as : elements value ≡ first ∷ others
  pub not_auth : equal (parse_cmd (first ∷ others)).0 (codes "AUTH") ≡ false
  pub not_multi : equal (parse_cmd (first ∷ others)).0 (codes "MULTI") ≡ false
  pub not_watch : equal (parse_cmd (first ∷ others)).0 (codes "WATCH") ≡ false
  pub not_unwatch : equal (parse_cmd (first ∷ others)).0 (codes "UNWATCH") ≡ false
  pub not_exec : equal (parse_cmd (first ∷ others)).0 (codes "EXEC") ≡ false
  pub not_discard : equal (parse_cmd (first ∷ others)).0 (codes "DISCARD") ≡ false

unfoldable pub enqueue : List RespValue → Connection → Connection
enqueue cmds c = record c { queued_commands = c.queued_commands ++ cmds }

-- What MULTI does to the connection.
unfoldable begin_queue : Connection → Connection
begin_queue c = record c { in_transaction = true; queued_commands = [] }

update-id :
    (i : ℕ) (f : Connection → Connection) (cs : ℕ → Connection)
    → f (cs i) ≡ cs i
    → update i f cs ≡ cs
unfolding update
update-id i f cs h = fun_ext (λ j. elim (Bool-cases (j == i)) [
  | inl e ↦ rw (e) (rw ((==_iff j i).0 e) h)
  | inr e ↦ rw (e) refl
])

update-update :
    (i : ℕ) (f g : Connection → Connection) (cs : ℕ → Connection)
    → update i f (update i g cs) ≡ update i (λ c. f (g c)) cs
unfolding update
update-update i f g cs =
    fun_ext (λ j. elim (Bool-cases (j == i)) [ inl e ↦ rw (e) refl | inr e ↦ rw (e) refl ])

module _ {C : Type 0} where
  with_connection-id :
      (i : ℕ) (f : Connection → Connection) (s : Server C)
      → f (s.connections i) ≡ s.connections i
      → with_connection i f s ≡ s
  unfolding with_connection
  with_connection-id i f s h =
      ap (λ cs. record s { connections = cs }) (update-id i f s.connections h)

  with_connection-twice :
      (i : ℕ) (f g : Connection → Connection) (s : Server C)
      → with_connection i f (with_connection i g s) ≡ with_connection i (λ c. f (g c)) s
  unfolding with_connection
  with_connection-twice i f g s =
      ap (λ cs. record s { connections = cs }) (update-update i f g s.connections)

  -- In a transaction, a command is put at the end of the queue.
  process-queued :
      (cfg : Config C) (now i : ℕ) (value : RespValue) (s : Server C)
      → IsQueueable value
      → (not (equal cfg.require_pass []) && not (s.connections i).authenticated) ≡ false
      → (s.connections i).in_transaction ≡ true
      → process_command_with_tx cfg now i value s
        ≡ (with_connection i (enqueue (value ∷ [])) s, queued_reply)
  unfolding process_command_with_tx handle_tx_cmd handed_on enqueue
  process-queued cfg now i value s q a t =
      rw
        (
          process_command_with_tx, q.read_as, q.not_auth, a, handle_tx_cmd, q.read_as, q.not_multi,
          q.not_watch, q.not_unwatch, q.not_exec, q.not_discard, t,
        )
        refl

  enqueued-open :
      (i : ℕ) (cmds : List RespValue) (s : Server C)
      → (((with_connection i (enqueue cmds) s).connections i).authenticated
          ≡ (s.connections i).authenticated)
        × (((with_connection i (enqueue cmds) s).connections i).in_transaction
            ≡ (s.connections i).in_transaction)
  unfolding with_connection update enqueue
  enqueued-open i cmds s = rw (==_refl i) (refl, refl)

  -- In a transaction, commands are queued in their order, each with the reply QUEUED.
  process_pipeline-queued :
      (cfg : Config C) (now i : ℕ) (cmds : List RespValue) (s : Server C)
      → All IsQueueable cmds
      → (not (equal cfg.require_pass []) && not (s.connections i).authenticated) ≡ false
      → (s.connections i).in_transaction ≡ true
      → process_pipeline cfg now i cmds s
        ≡ (with_connection i (enqueue cmds) s, replicate (length cmds) queued_reply)
  unfolding process_pipeline enqueue
  process_pipeline-queued cfg now i [] s q a t =
      ap (λ s'. (s', []))
        (sym (with_connection-id i (enqueue []) s (rw (enqueue, append-nil) refl)))
  process_pipeline-queued cfg now i (cmd ∷ cmds) s q a t =
      let s' = with_connection i (enqueue (cmd ∷ [])) s in
      let (same, tx) = enqueued-open i (cmd ∷ []) s in
      rw
        (
          process-queued cfg now i cmd s q.0 a t,
          process_pipeline-queued cfg now i cmds s' q.1 (rw (same) a) (tx ∙ t),
          with_connection-twice i (enqueue cmds) (enqueue (cmd ∷ [])) s,
        )
        (ap (λ f. (with_connection i f s, queued_reply ∷ replicate (length cmds) queued_reply))
          (fun_ext (λ c.
            ap (λ queue. record c { queued_commands = queue })
              (append_assoc c.queued_commands (cmd ∷ []) cmds))))

  process-multi :
      (cfg : Config C) (now i : ℕ) (value : RespValue) (s : Server C)
      → IsCommand value (codes "MULTI") []
      → (not (equal cfg.require_pass []) && not (s.connections i).authenticated) ≡ false
      → (s.connections i).in_transaction ≡ false
      → process_command_with_tx cfg now i value s ≡ (with_connection i begin_queue s, ok_reply)
  unfolding process_command_with_tx handle_tx_cmd handed_on begin_queue handle_multi answered equal
  process-multi cfg now i value s (v, vs, e, parsed) a t =
      rw (process_command_with_tx, e, parsed, a, handle_tx_cmd, e, parsed, handle_multi, t) refl

  process-exec :
      (cfg : Config C) (now i : ℕ) (value : RespValue) (s : Server C)
      → IsCommand value (codes "EXEC") []
      → (not (equal cfg.require_pass []) && not (s.connections i).authenticated) ≡ false
      → (s.connections i).in_transaction ≡ true
      → (s.connections i).dirty ≡ false
      → process_command_with_tx cfg now i value s
        ≡ executed
            (run_queued cfg now (s.connections i).queued_commands (with_connection i take_queue s))
  unfolding process_command_with_tx handle_tx_cmd handed_on answered equal handle_exec drop_watchers
      extract_keys mem_name remove_watcher_by_keys
  process-exec cfg now i value s (v, vs, e, parsed) a t d =
      rw (process_command_with_tx, e, parsed, a, handle_tx_cmd, e, parsed, handle_exec, t, d) refl

  process_pipeline-append :
      (cfg : Config C) (now i : ℕ) (cmds more : List RespValue) (s : Server C)
      → process_pipeline cfg now i (cmds ++ more) s ≡ (
          let first = process_pipeline cfg now i cmds s in
          let second = process_pipeline cfg now i more first.0 in (second.0, first.1 ++ second.1))
  unfolding process_pipeline
  process_pipeline-append cfg now i [] more s = refl
  process_pipeline-append cfg now i (cmd ∷ cmds) more s =
      let s' = (process_command_with_tx cfg now i cmd s).0 in
      rw (process_pipeline-append cfg now i cmds more s') refl

  begun_at :
      (i : ℕ) (s : Server C)
      → (with_connection i begin_queue s).connections i ≡ begin_queue (s.connections i)
  unfolding with_connection update
  begun_at i s = rw (==_refl i) refl

  queued-connection :
      (i : ℕ) (cmds : List RespValue) (s : Server C)
      → (with_connection i (λ c. enqueue cmds (begin_queue c)) s).connections i
        ≡ enqueue cmds (begin_queue (s.connections i))
  unfolding with_connection update
  queued-connection i cmds s = rw (==_refl i) refl

  -- The commands run one after another on the server that the last one left, each with its reply.
  pub data InTurn (cfg : Config C) (now : ℕ)
      : Server C → List RespValue → Server C → List RespValue → Type 0 where
    none_left : {s : Server C} → InTurn cfg now s [] s []
    and_then :
        {s : Server C} (cmd : RespValue) (cmds : List RespValue) (t u : Server C)
        (reply : RespValue) (replies : List RespValue)
        → process_command cfg now cmd [] [] s ≡ (t, reply)
        → InTurn cfg now t cmds u replies
        → InTurn cfg now s (cmd ∷ cmds) u (reply ∷ replies)

  run_queued-InTurn :
      (cfg : Config C) (now : ℕ) (cmds : List RespValue) (s : Server C)
      → let ran = run_queued cfg now cmds s in InTurn cfg now s cmds ran.0 ran.1
  unfolding run_queued
  run_queued-InTurn cfg now [] s = none_left
  run_queued-InTurn cfg now (cmd ∷ cmds) s =
      let one = process_command cfg now cmd [] [] s in
      and_then cmd cmds one.0 _ one.1 _ refl (run_queued-InTurn cfg now cmds one.0)

  transaction-run_queued :
      (cfg : Config C) (now i : ℕ) (multi exec : RespValue) (cmds : List RespValue) (s : Server C)
      → IsCommand multi (codes "MULTI") []
      → IsCommand exec (codes "EXEC") []
      → All IsQueueable cmds
      → (not (equal cfg.require_pass []) && not (s.connections i).authenticated) ≡ false
      → (s.connections i).in_transaction ≡ false
      → (s.connections i).dirty ≡ false
      → process_pipeline cfg now i (multi ∷ cmds ++ exec ∷ []) s ≡ (
          let ran = run_queued cfg now cmds (with_connection i take_queue s) in
          (ran.0, ok_reply ∷ replicate (length cmds) queued_reply ++ array (from_list ran.1) ∷ []))
  unfolding process_pipeline executed begin_queue enqueue take_queue
  transaction-run_queued cfg now i multi exec cmds s m x q a t d =
      let s1 = with_connection i begin_queue s in
      let s2 = with_connection i (enqueue cmds) s1 in
      let at_i =
        ap (λ s'. s'.connections i) (with_connection-twice i (enqueue cmds) begin_queue s)
        ∙ queued-connection i cmds s in
      let at_1 = begun_at i s in
      let taken : with_connection i take_queue s2 ≡ with_connection i take_queue s =
        with_connection-twice i take_queue (enqueue cmds) s1
        ∙ with_connection-twice i (λ c. take_queue (enqueue cmds c)) begin_queue s in
      rw
        (
          process_pipeline,
          process-multi cfg now i multi s m a t,
          process_pipeline-append cfg now i cmds (exec ∷ []) s1,
          process_pipeline-queued cfg now i cmds s1 q
              (ap (λ c. not (equal cfg.require_pass []) && not c.authenticated) at_1 ∙ a)
              (ap (λ c. c.in_transaction) at_1),
        )
        (rw
          (process-exec cfg now i exec s2 x
            (ap (λ c. not (equal cfg.require_pass []) && not c.authenticated) at_i ∙ a)
            (ap (λ c. c.in_transaction) at_i) (ap (λ c. c.dirty) at_i ∙ d))
          (rw (ap (λ c. c.queued_commands) at_i, taken) refl))

  -- A transaction from MULTI to EXEC, on a connection that may give commands, is in no transaction
  -- and is not dirty: OK, then QUEUED once for each command, then the replies of the commands as
  -- each of them runs on the server that the one before it left, from the server as it was with an
  -- empty queue, and in the end the server that the last one leaves.
  pub process_pipeline-run_queued :
      (cfg : Config C) (now i : ℕ) (multi exec : RespValue) (cmds : List RespValue) (s : Server C)
      → IsCommand multi (codes "MULTI") []
      → IsCommand exec (codes "EXEC") []
      → All IsQueueable cmds
      → (not (equal cfg.require_pass []) && not (s.connections i).authenticated) ≡ false
      → (s.connections i).in_transaction ≡ false
      → (s.connections i).dirty ≡ false
      → (u : Server C) × (replies : List RespValue) × InTurn cfg now
          (with_connection i take_queue s)
          cmds
          u
          replies
        × (process_pipeline cfg now i (multi ∷ cmds ++ exec ∷ []) s ≡ (
          u,
          ok_reply ∷ replicate (length cmds) queued_reply ++ array (from_list replies) ∷ [],
        ))
  process_pipeline-run_queued cfg now i multi exec cmds s m x q a t d = (
    _,
    _,
    run_queued-InTurn cfg now cmds (with_connection i take_queue s),
    transaction-run_queued cfg now i multi exec cmds s m x q a t d,
  )
