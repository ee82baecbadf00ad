-- ===== src/Server/Stale.antt =====
-- A watch outlives UNWATCH: it stays with the watchers of the server.
use pendem.Base.{
  ℕ, ==_refl, Bool-cases, inl, inr, true, false, some, List, [], ◌∷◌, ◌++◌, Bytes, Map, lookup,
  lookup-insert_self, ◌≡◌, refl, ap, ◌∙◌,
}
use pendem.Resp.{null_bulk}
use pendem.Server.{
  Server, Config, CommandHandler, with_connection, update, extract_keys, is_write_command,
  reset_transaction,
}
use pendem.Server.Watch.{watchers_of, add_watcher}
use pendem.Server.Transaction.{
  run_handler, handle_exec, handle_multi, handle_watch, handle_unwatch, watch_keys,
}
use pendem.Server.Isolation.{
  mem_id, watches, or_true, mark_watched_keys_dirty-dirty, run_handler-connections,
  handle_exec-dirty,
}

mem_id-last : (i : ℕ) (ws : List ℕ) → mem_id i (ws ++ i ∷ []) ≡ true
unfolding mem_id
mem_id-last i [] = ==_refl i
mem_id-last i (w ∷ ws) = rw (mem_id-last i ws) refl

watchers_of-add_watcher :
    (key : Bytes) (i : ℕ) (m : Map (List ℕ))
    → mem_id i (watchers_of key (add_watcher key i m)) ≡ true
unfolding watchers_of add_watcher
watchers_of-add_watcher key i m = rw (watchers_of, lookup-insert_self) (mem_id-last i _)

module _ {C : Type 0} where
  -- WATCH of one key registers the connection, and UNWATCH does not take it off again.
  handle_unwatch-watches :
      (i : ℕ) (key : Bytes) (s : Server C)
      → (s.connections i).in_transaction ≡ false
      → watches i (key ∷ []) (handle_unwatch i (handle_watch i (key ∷ []) s).0).0.watchers ≡ true
  unfolding handle_unwatch handle_watch watch_keys with_connection watches
  handle_unwatch-watches i key s t = rw (handle_watch, t) (watchers_of-add_watcher key i s.watchers)

  handle_multi-in_transaction :
      (i : ℕ) (s : Server C) → ((handle_multi i [] s).0.connections i).in_transaction ≡ true
  unfolding handle_multi with_connection update
  handle_multi-in_transaction i s = elim (Bool-cases (s.connections i).in_transaction) [
    | inl e ↦ rw (handle_multi, e) e
    | inr e ↦ rw (handle_multi, e, ==_refl i) refl
  ]

  handle_multi-dirty :
      (i : ℕ) (s : Server C)
      → ((handle_multi i [] s).0.connections i).dirty ≡ (s.connections i).dirty
  unfolding handle_multi with_connection update
  handle_multi-dirty i s = elim (Bool-cases (s.connections i).in_transaction) [
    | inl e ↦ rw (handle_multi, e) refl
    | inr e ↦ rw (handle_multi, e, ==_refl i) refl
  ]

  -- After WATCH of one key outside a transaction, UNWATCH and a write of that key by any command
  -- that has a handler, the next transaction is aborted all the same: MULTI starts it, and EXEC
  -- answers null, whatever was queued.
  pub handle_unwatch-stale :
      (cfg : Config C) (now later i : ℕ) (cmd key : Bytes) (args : List Bytes) (s : Server C)
      (handler : CommandHandler C)
      → lookup cmd cfg.handlers ≡ some handler
      → is_write_command cmd ≡ true
      → extract_keys cmd args ≡ key ∷ []
      → (s.connections i).in_transaction ≡ false
      → let unwatched = (handle_unwatch i (handle_watch i (key ∷ []) s).0).0 in
        let begun = (handle_multi i [] (run_handler cfg now cmd args unwatched).0).0 in
        handle_exec cfg later i begun ≡ (with_connection i reset_transaction begun, null_bulk)
  handle_unwatch-stale cfg now later i cmd key args s handler h w k t =
      let unwatched = (handle_unwatch i (handle_watch i (key ∷ []) s).0).0 in
      let written = (run_handler cfg now cmd args unwatched).0 in
      handle_exec-dirty cfg later i _ (handle_multi-in_transaction i written) (
        handle_multi-dirty i written
        ∙ (ap (λ cs. (cs i).dirty) (run_handler-connections cfg now cmd args unwatched handler h w)
            ∙ (rw
                (
                  mark_watched_keys_dirty-dirty i (extract_keys cmd args) unwatched,
                  k,
                  handle_unwatch-watches i key s t,
                )
                (or_true (unwatched.connections i).dirty))))
