-- ===== src/Server/Auth.antt =====
-- The password gate of `processCommandWithTx` and of AUTH.
use pendem.Base.{
  ℕ, ==_refl, List-cases, Bool-cases, inl, inr, Bool, true, false, List, [], ◌∷◌, Bytes, codes,
  equal, ◌==◌, if◌then◌else◌, ◌≡◌, refl, ◌∙◌, true≢false,
}
use pendem.Resp.{RespValue, elements}
use pendem.Server.{Server, Config, with_connection, update, parse_cmd, IsCommand}
use pendem.Server.Process.{
  process_pipeline, no_auth, handle_auth, auth_password, process_command_with_tx,
}

module _ {C : Type 0} where
  -- Where a password is set and the connection has not given it, a command other than AUTH is
  -- answered NOAUTH, and nothing of the server changes: no handler runs, nothing is queued, no
  -- key is watched.
  pub process_command_with_tx-no_auth :
      (cfg : Config C) (now i : ℕ) (value : RespValue) (cmd : Bytes) (args : List Bytes)
      (s : Server C)
      → IsCommand value cmd args
      → equal cmd (codes "AUTH") ≡ false
      → equal cfg.require_pass [] ≡ false
      → (s.connections i).authenticated ≡ false
      → process_command_with_tx cfg now i value s ≡ (s, no_auth)
  unfolding process_command_with_tx
  process_command_with_tx-no_auth cfg now i value cmd args s (v, vs, e, parsed) n p a =
      rw (e, process_command_with_tx, parsed, n, p, a) refl

  -- What a locked-out connection `i` may do to the server.
  pub record IsLockedOut (i : ℕ) (s s' : Server C) : Type 0 where
    pub same_state : s'.state ≡ s.state
    pub same_watchers : s'.watchers ≡ s.watchers
    pub same_others : (j : ℕ) → (j == i) ≡ false → s'.connections j ≡ s.connections j
    pub still_out : (s'.connections i).authenticated ≡ false

  unfoldable pub right_password : Config C → List Bytes → Bool
  right_password cfg [] = false
  right_password cfg (password ∷ []) = equal password cfg.require_pass
  right_password cfg (password ∷ x ∷ xs) = false

  -- The value is AUTH with the right password.
  unfoldable pub opens : Config C → RespValue → Bool
  unfolding right_password
  opens cfg value =
      let (cmd, args) = parse_cmd (elements value) in
      if equal cmd (codes "AUTH") then right_password cfg args else false

  unfoldable pub any_opens : Config C → List RespValue → Bool
  any_opens cfg [] = false
  any_opens cfg (v ∷ vs) = let rest = any_opens cfg vs in if opens cfg v then true else rest

  pub locked_refl :
      (i : ℕ) (s : Server C) → (s.connections i).authenticated ≡ false → IsLockedOut i s s
  locked_refl i s a = record {
    same_state = refl;
    same_watchers = refl;
    same_others = λ j h. refl;
    still_out = a;
  }

  locked_closing :
      (i : ℕ) (s : Server C)
      → (s.connections i).authenticated ≡ false
      → IsLockedOut i s (with_connection i (λ c. record c { closing = true }) s)
  unfolding with_connection update
  locked_closing i s a = record {
    same_state = refl;
    same_watchers = refl;
    same_others = λ j h. rw (h) refl;
    still_out = rw (==_refl i) a;
  }

  auth_locked :
      (cfg : Config C) (i : ℕ) (args : List Bytes) (s : Server C)
      → equal cfg.require_pass [] ≡ false
      → (s.connections i).authenticated ≡ false
      → right_password cfg args ≡ false
      → IsLockedOut i s (handle_auth cfg i args s).0
  unfolding handle_auth auth_password right_password
  auth_locked cfg i [] s p a n = rw (p) (locked_refl i s a)
  auth_locked cfg i (password ∷ []) s p a n = rw (p, n) (locked_closing i s a)
  auth_locked cfg i (password ∷ x ∷ xs) s p a n = rw (p) (locked_refl i s a)

  opens_arguments :
      (cfg : Config C) (value v : RespValue) (vs : List RespValue)
      → elements value ≡ v ∷ vs
      → equal (parse_cmd (v ∷ vs)).0 (codes "AUTH") ≡ true
      → opens cfg value ≡ false
      → right_password cfg (parse_cmd (v ∷ vs)).1 ≡ false
  unfolding opens
  opens_arguments cfg value v vs e c n = rw (c) at (rw (e) at n)

  process_locked :
      (cfg : Config C) (now i : ℕ) (value : RespValue) (s : Server C)
      → equal cfg.require_pass [] ≡ false
      → (s.connections i).authenticated ≡ false
      → opens cfg value ≡ false
      → IsLockedOut i s (process_command_with_tx cfg now i value s).0
  unfolding process_command_with_tx opens
  process_locked cfg now i value s p a n = elim (List-cases (elements value)) [
    | inl e ↦ rw (process_command_with_tx, e) (locked_refl i s a)
    | inr (v, vs, e) ↦ elim (Bool-cases (equal (parse_cmd (v ∷ vs)).0 (codes "AUTH"))) [
      | inl c ↦
          rw (process_command_with_tx, e, c)
            (auth_locked cfg i (parse_cmd (v ∷ vs)).1 s p a (opens_arguments cfg value _ _ e c n))
      | inr c ↦
          rw (process_command_with_tx-no_auth cfg now i value _ _ s (v, vs, e, refl) c p a)
            (locked_refl i s a)
    ]
  ]

  pub locked_trans :
      {i : ℕ} {s s' s'' : Server C}
      → IsLockedOut i s s'
      → IsLockedOut i s' s''
      → IsLockedOut i s s''
  locked_trans h h' = record {
    same_state = h'.same_state ∙ h.same_state;
    same_watchers = h'.same_watchers ∙ h.same_watchers;
    same_others = λ j d. h'.same_others j d ∙ h.same_others j d;
    still_out = h'.still_out;
  }

  -- Where a password is set and the connection has not given it, no sequence of commands without
  -- the right AUTH gets anywhere: what the handlers work on, the watchers and every other
  -- connection stay as they are, and the connection stays unauthenticated.
  pub process_pipeline-IsLockedOut :
      (cfg : Config C) (now i : ℕ) (cmds : List RespValue) (s : Server C)
      → equal cfg.require_pass [] ≡ false
      → (s.connections i).authenticated ≡ false
      → any_opens cfg cmds ≡ false
      → IsLockedOut i s (process_pipeline cfg now i cmds s).0
  unfolding process_pipeline any_opens
  process_pipeline-IsLockedOut cfg now i [] s p a n = locked_refl i s a
  process_pipeline-IsLockedOut cfg now i (cmd ∷ cmds) s p a n = elim (Bool-cases (opens cfg cmd)) [
    | inl o ↦ elim (true≢false (rw (o) at n)) [ ]
    | inr o ↦
        let first = process_locked cfg now i cmd s p a o in
        locked_trans first
          (process_pipeline-IsLockedOut cfg now i cmds _ p first.still_out (rw (o) at n))
  ]
