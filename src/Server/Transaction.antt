-- ===== src/Server/Transaction.antt =====
-- MULTI, EXEC, DISCARD, WATCH and UNWATCH, and `processCommand`, which EXEC runs on what is queued.
use pendem.Base.{
  ℕ, true, false, Option, none, some, List, [], ◌∷◌, ◌++◌, Bytes, codes, equal, lookup,
  if◌then◌else◌,
}
use pendem.Resp.{RespValue, simple_string, error, null_bulk, array, from_list, elements}
use pendem.Server.{
  watch_key, Connection, Server, Config, reset_transaction, with_connection, parse_cmd,
  is_write_command, extract_keys,
}
use pendem.Server.Watch.{add_watcher, remove_watcher_by_keys, mark_watched_keys_dirty}

abbrev pub ok_reply : RespValue
ok_reply = simple_string (codes "OK")

abbrev pub invalid_command : RespValue
invalid_command = error (codes "ERR invalid command")

-- EXEC takes the queue and ends the transaction before the commands run.
unfoldable pub take_queue : Connection → Connection
take_queue c = record c { queued_commands = []; in_transaction = false }

module _ {C : Type 0} where
  -- A write command marks the watchers of its keys, before it runs.
  unfoldable pub note_write : Bytes → List Bytes → Server C → Server C
  note_write cmd args s =
      if is_write_command cmd then mark_watched_keys_dirty (extract_keys cmd args) s else s

  unfoldable pub called : Server C → C × RespValue → Server C × RespValue
  called s (state, reply) = (record s { state = state }, reply)

  unfoldable pub run_handler : Config C → ℕ → Bytes → List Bytes → Server C → Server C × RespValue
  unfolding note_write called
  run_handler cfg now cmd args s = elim (lookup cmd cfg.handlers) [
    | none ↦ (s, error (codes "ERR unknown command '" ++ (cmd ++ codes "'")))
    | some handler ↦ let s' = note_write cmd args s in called s' (handler now args s'.state)
  ]

  -- An empty `cmd` asks to parse the value.
  unfoldable pub process_command :
      Config C → ℕ → RespValue → Bytes → List Bytes → Server C → Server C × RespValue
  unfolding run_handler
  process_command cfg now value cmd args s = elim (elements value) [
    | [] ↦ (s, invalid_command)
    | v ∷ vs ↦
        if equal cmd []
        then (let (cmd', args') = parse_cmd (v ∷ vs) in run_handler cfg now cmd' args' s)
        else run_handler cfg now cmd args s
  ]

  -- The queued commands in their order, each with its reply.
  unfoldable pub run_queued : Config C → ℕ → List RespValue → Server C → Server C × List RespValue
  run_queued cfg now [] s = (s, [])
  run_queued cfg now (cmd ∷ cmds) s =
      let (s', reply) = process_command cfg now cmd [] [] s in
      let (s'', replies) = run_queued cfg now cmds s' in (s'', reply ∷ replies)

  unfoldable pub handle_multi : ℕ → List Bytes → Server C → Server C × RespValue
  handle_multi i (arg ∷ args) s =
      (s, error (codes "ERR wrong number of arguments for 'multi' command"))
  handle_multi i [] s = if (s.connections i).in_transaction then (s, ok_reply) else (
    with_connection i (λ c. record c { in_transaction = true; queued_commands = [] }) s,
    ok_reply,
  )

  unfoldable pub executed : Server C × List RespValue → Server C × RespValue
  executed (s, replies) = (s, array (from_list replies))

  unfoldable pub handle_exec : Config C → ℕ → ℕ → Server C → Server C × RespValue
  unfolding take_queue executed
  handle_exec cfg now i s =
      if (s.connections i).in_transaction
      then if (s.connections i).dirty
        then (with_connection i reset_transaction s, null_bulk)
        else executed
            (run_queued cfg now (s.connections i).queued_commands (with_connection i take_queue s))
      else (s, error (codes "ERR EXEC without MULTI"))

  unfoldable pub handle_discard : ℕ → Server C → Server C × RespValue
  handle_discard i s =
      if (s.connections i).in_transaction
      then (with_connection i reset_transaction s, ok_reply)
      else (s, error (codes "ERR DISCARD without MULTI"))

  -- The loop of WATCH.
  unfoldable pub watch_keys : ℕ → List Bytes → Server C → Server C
  watch_keys i [] s = s
  watch_keys i (key ∷ keys) s =
      let s' = with_connection i (watch_key key) s in
      watch_keys i keys (record s' { watchers = add_watcher key i s'.watchers })

  unfoldable pub handle_watch : ℕ → List Bytes → Server C → Server C × RespValue
  unfolding watch_keys
  handle_watch i [] s = (s, error (codes "ERR wrong number of arguments for 'watch' command"))
  handle_watch i (key ∷ keys) s =
      if (s.connections i).in_transaction
      then (s, ok_reply)
      else (watch_keys i (key ∷ keys) s, ok_reply)

  unfoldable pub handle_unwatch : ℕ → Server C → Server C × RespValue
  handle_unwatch i s = (with_connection i (λ c. record c { watched_keys = [] }) s, ok_reply)

  -- EXEC and DISCARD take the connection off the watchers of the keys that `extractKeys` finds.
  unfoldable pub drop_watchers : ℕ → Bytes → List Bytes → Server C → Server C
  drop_watchers i cmd args s = record s {
    watchers = remove_watcher_by_keys (extract_keys cmd args) i s.watchers;
  }

  unfoldable pub answered : Server C × RespValue → Server C × Option RespValue
  answered (s, reply) = (s, some reply)

  -- `none` hands the command on to `processCommand`.
  unfoldable pub handle_tx_cmd :
      Config C → ℕ → ℕ → RespValue → Server C → Server C × Option RespValue
  unfolding answered
  handle_tx_cmd cfg now i value s =
      let (cmd, args) = parse_cmd (elements value) in
      if equal cmd (codes "MULTI")
      then answered (handle_multi i args s)
      else if equal cmd (codes "WATCH")
      then answered (handle_watch i args s)
      else if equal cmd (codes "UNWATCH")
      then answered (handle_unwatch i s)
      else if equal cmd (codes "EXEC")
      then answered (handle_exec cfg now i (drop_watchers i cmd args s))
      else if equal cmd (codes "DISCARD")
      then answered (handle_discard i (drop_watchers i cmd args s))
      else if (s.connections i).in_transaction
      then (
        with_connection i (λ c. record c { queued_commands = c.queued_commands ++ value ∷ [] }) s,
        some (simple_string (codes "QUEUED")),
      )
      else (s, none)
