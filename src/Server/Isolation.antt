-- ===== src/Server/Isolation.antt =====
-- Who is marked dirty by a write, and what EXEC does of a dirty and of a clean transaction.
use pendem.Base.{
  ℕ, Bool-cases, Option-cases, inl, inr, Bool, true, false, none, some, List, [], ◌∷◌, Bytes, Map,
  equal, equal_iff, ◌==◌, lookup, delete, lookup-delete, if◌then◌else◌, ◌≡◌, refl, sym, ap, ◌∙◌,
  ◌||◌, arith,
}
use pendem.Resp.{null_bulk}
use pendem.Server.{
  Server, Config, CommandHandler, with_connection, update, mark_dirty, extract_keys,
  is_write_command, reset_transaction,
}
use pendem.Server.Watch.{watchers_of, mark_all, mark_watched_keys_dirty}
use pendem.Server.Transaction.{note_write, called, run_handler, handle_exec}

unfoldable pub mem_id : ℕ → List ℕ → Bool
mem_id i [] = false
mem_id i (w ∷ ws) = mem_id i ws || (i == w)

-- Connection `i` watches one of the keys.
unfoldable pub watches : ℕ → List Bytes → Map (List ℕ) → Bool
watches i [] m = false
watches i (key ∷ keys) m = watches i keys m || mem_id i (watchers_of key m)

or_false : (b : Bool) → (b || false) ≡ b
or_false true = refl
or_false false = refl

pub or_true : (b : Bool) → (b || true) ≡ true
or_true true = refl
or_true false = refl

or_swap : (a b c : Bool) → ((a || b) || c) ≡ (a || (c || b))
or_swap true b c = refl
or_swap false true true = refl
or_swap false true false = refl
or_swap false false c = sym (or_false c)

or_same : (a b : Bool) → ((a || b) || b) ≡ (a || b)
or_same true b = refl
or_same false true = refl
or_same false false = refl

or_swap_eq : (a b c d : Bool) → (a || d) ≡ (b || d) → ((a || c) || d) ≡ ((b || c) || d)
or_swap_eq a b c d h = rw (or_swap a c d, or_swap b c d) (ground arith)

watchers_of-delete :
    (key j : Bytes) (m : Map (List ℕ))
    → watchers_of j (delete key m) ≡ (if equal key j then [] else watchers_of j m)
unfolding watchers_of
watchers_of-delete key j m = elim (Bool-cases (equal key j)) [
  | inl e ↦ rw (watchers_of, lookup-delete, e) refl
  | inr e ↦ rw (watchers_of, lookup-delete, e) refl
]

-- A key that is deleted may be left out, where its watchers are counted beside the rest.
watches-delete :
    (i : ℕ) (key : Bytes) (keys : List Bytes) (m : Map (List ℕ))
    → (watches i keys (delete key m) || mem_id i (watchers_of key m))
      ≡ (watches i keys m || mem_id i (watchers_of key m))
unfolding watches mem_id
watches-delete i key [] m = refl
watches-delete i key (j ∷ keys) m = elim (Bool-cases (equal key j)) [
  | inl e ↦
      rw (watchers_of-delete key j m, e, ← (equal_iff key j).0 e, or_false)
        (watches-delete i key keys m
          ∙ sym (or_same (watches i keys m) (mem_id i (watchers_of key m))))
  | inr e ↦
      rw (watchers_of-delete key j m, e)
        (or_swap_eq (watches i keys (delete key m)) (watches i keys m) _ _
          (watches-delete i key keys m))
]

watchers_of-none : (key : Bytes) (m : Map (List ℕ)) → lookup key m ≡ none → watchers_of key m ≡ []
unfolding watchers_of
watchers_of-none key m e = rw (watchers_of, e) refl

watchers_of-some :
    (key : Bytes) (ws : List ℕ) (m : Map (List ℕ)) → lookup key m ≡ some ws → watchers_of key m ≡ ws
unfolding watchers_of
watchers_of-some key ws m e = rw (watchers_of, e) refl

module _ {C : Type 0} where
  dirty_at :
      (i w : ℕ) (s : Server C)
      → ((with_connection w mark_dirty s).connections i).dirty
        ≡ ((s.connections i).dirty || (i == w))
  unfolding with_connection update mark_dirty
  dirty_at i w s = elim (Bool-cases (i == w)) [
    | inl e ↦ rw (e) (sym (or_true (s.connections i).dirty))
    | inr e ↦ rw (e) (sym (or_false _))
  ]

  pub mark_all-dirty :
      (i : ℕ) (ws : List ℕ) (s : Server C)
      → ((mark_all ws s).connections i).dirty ≡ ((s.connections i).dirty || mem_id i ws)
  unfolding mark_all mem_id
  mark_all-dirty i [] s = sym (or_false _)
  mark_all-dirty i (w ∷ ws) s =
      rw (mark_all-dirty i ws (with_connection w mark_dirty s), dirty_at i w s)
        (or_swap (s.connections i).dirty (i == w) (mem_id i ws))

  mark_all-watchers : (ws : List ℕ) (s : Server C) → (mark_all ws s).watchers ≡ s.watchers
  unfolding mark_all with_connection
  mark_all-watchers [] s = refl
  mark_all-watchers (w ∷ ws) s = mark_all-watchers ws (with_connection w mark_dirty s)

  -- A connection is dirty after a write to the keys just where it was before, or watches one of
  -- them.
  pub mark_watched_keys_dirty-dirty :
      (i : ℕ) (keys : List Bytes) (s : Server C)
      → ((mark_watched_keys_dirty keys s).connections i).dirty
        ≡ ((s.connections i).dirty || watches i keys s.watchers)
  unfolding mark_watched_keys_dirty watches mem_id
  mark_watched_keys_dirty-dirty i [] s = sym (or_false _)
  mark_watched_keys_dirty-dirty i (key ∷ keys) s = elim (Option-cases (lookup key s.watchers)) [
    | inl e ↦
        rw (watchers_of-none key s.watchers e, mark_watched_keys_dirty, e, or_false)
          (mark_watched_keys_dirty-dirty i keys s)
    | inr (ws, e) ↦
        let s' = record (mark_all ws s) { watchers = delete key (mark_all ws s).watchers } in
        rw (mark_watched_keys_dirty, e)
          (mark_watched_keys_dirty-dirty i keys s'
            ∙ (rw
                (
                  mark_all-dirty i ws s,
                  mark_all-watchers ws s,
                  or_swap (s.connections i).dirty (mem_id i ws)
                      (watches i keys (delete key s.watchers)),
                  ← watchers_of-some key ws s.watchers e,
                )
                (ap (λ b. (s.connections i).dirty || b) (watches-delete i key keys s.watchers))))
  ]

  mark_all-in_transaction :
      (i : ℕ) (ws : List ℕ) (s : Server C)
      → ((mark_all ws s).connections i).in_transaction ≡ (s.connections i).in_transaction
  unfolding mark_all with_connection update mark_dirty
  mark_all-in_transaction i [] s = refl
  mark_all-in_transaction i (w ∷ ws) s =
      mark_all-in_transaction i ws (with_connection w mark_dirty s)
      ∙ elim (Bool-cases (i == w)) [ inl e ↦ rw (e) refl | inr e ↦ rw (e) refl ]

  pub mark_watched_keys_dirty-in_transaction :
      (i : ℕ) (keys : List Bytes) (s : Server C)
      → ((mark_watched_keys_dirty keys s).connections i).in_transaction
        ≡ (s.connections i).in_transaction
  unfolding mark_watched_keys_dirty
  mark_watched_keys_dirty-in_transaction i [] s = refl
  mark_watched_keys_dirty-in_transaction i (key ∷ keys) s =
      elim (Option-cases (lookup key s.watchers)) [
        | inl e ↦ rw (mark_watched_keys_dirty, e) (mark_watched_keys_dirty-in_transaction i keys s)
        | inr (ws, e) ↦
            rw (mark_watched_keys_dirty, e)
              (mark_watched_keys_dirty-in_transaction i keys
                  (record (mark_all ws s) { watchers = delete key (mark_all ws s).watchers })
                ∙ mark_all-in_transaction i ws s)
      ]

  -- The connections after a write command are those that the marking leaves.
  pub run_handler-connections :
      (cfg : Config C) (now : ℕ) (cmd : Bytes) (args : List Bytes) (s : Server C)
      (handler : CommandHandler C)
      → lookup cmd cfg.handlers ≡ some handler
      → is_write_command cmd ≡ true
      → (run_handler cfg now cmd args s).0.connections
        ≡ (mark_watched_keys_dirty (extract_keys cmd args) s).connections
  unfolding run_handler called note_write
  run_handler-connections cfg now cmd args s handler h w = rw (run_handler, h, w) refl

  -- A write command that has a handler leaves a connection dirty just where it was dirty before, or
  -- watches one of the keys that `extractKeys` finds in the command (the first key alone of a DEL).
  pub run_handler-dirty :
      (cfg : Config C) (now i : ℕ) (cmd : Bytes) (args : List Bytes) (s : Server C)
      (handler : CommandHandler C)
      → lookup cmd cfg.handlers ≡ some handler
      → is_write_command cmd ≡ true
      → ((run_handler cfg now cmd args s).0.connections i).dirty
        ≡ ((s.connections i).dirty || watches i (extract_keys cmd args) s.watchers)
  run_handler-dirty cfg now i cmd args s handler h w =
      ap (λ cs. (cs i).dirty) (run_handler-connections cfg now cmd args s handler h w)
      ∙ mark_watched_keys_dirty-dirty i (extract_keys cmd args) s

  -- A dirty transaction answers EXEC with null, runs nothing, and is over.
  pub handle_exec-dirty :
      (cfg : Config C) (now i : ℕ) (s : Server C)
      → (s.connections i).in_transaction ≡ true
      → (s.connections i).dirty ≡ true
      → handle_exec cfg now i s ≡ (with_connection i reset_transaction s, null_bulk)
  unfolding handle_exec
  handle_exec-dirty cfg now i s t d = rw (handle_exec, t, d) refl

  -- A write command that has a handler, one of whose keys that `extractKeys` finds (the first key alone
  -- of a DEL) a transaction watches, aborts the transaction:
  -- its EXEC answers null, runs none of the queued commands, and leaves the connection out of a
  -- transaction.
  pub handle_exec-conflict :
      (cfg : Config C) (now later i : ℕ) (cmd : Bytes) (args : List Bytes) (s : Server C)
      (handler : CommandHandler C)
      → lookup cmd cfg.handlers ≡ some handler
      → is_write_command cmd ≡ true
      → watches i (extract_keys cmd args) s.watchers ≡ true
      → (s.connections i).in_transaction ≡ true
      → let s' = (run_handler cfg now cmd args s).0 in
        handle_exec cfg later i s' ≡ (with_connection i reset_transaction s', null_bulk)
  handle_exec-conflict cfg now later i cmd args s handler h w k t =
      let s' = (run_handler cfg now cmd args s).0 in
      let keys = extract_keys cmd args in
      let same = ap (λ cs. cs i) (run_handler-connections cfg now cmd args s handler h w) in
      handle_exec-dirty cfg later i s'
        (ap (λ c. c.in_transaction) same ∙ (mark_watched_keys_dirty-in_transaction i keys s ∙ t))
        (ap (λ c. c.dirty) same
          ∙ (mark_watched_keys_dirty-dirty i keys s ∙ (rw (k) (or_true (s.connections i).dirty))))
