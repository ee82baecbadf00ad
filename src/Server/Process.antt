-- ===== src/Server/Process.antt =====
-- `processCommandWithTx` and `processPipeline`.
use pendem.Base.{
  ℕ, true, not, ◌&&◌, Option, none, some, List, [], ◌∷◌, Bytes, codes, equal, if◌then◌else◌,
}
use pendem.Resp.{RespValue, error, elements}
use pendem.Server.{set_authenticated, Server, Config, with_connection, parse_cmd}
use pendem.Server.Transaction.{ok_reply, process_command, handle_tx_cmd, invalid_command}

abbrev pub no_auth : RespValue
no_auth = error (codes "NOAUTH Authentication required.")

module _ {C : Type 0} where
  -- AUTH with one argument, where a password is set. A wrong one closes the connection a little
  -- later.
  unfoldable pub auth_password : Config C → ℕ → Bytes → Server C → Server C × RespValue
  auth_password cfg i password s =
      if equal password cfg.require_pass
      then (with_connection i (set_authenticated true) s, ok_reply)
      else (
        with_connection i (λ c. record c { closing = true }) s,
        error (codes "ERR invalid password"),
      )

  unfoldable pub handle_auth : Config C → ℕ → List Bytes → Server C → Server C × RespValue
  unfolding auth_password
  handle_auth cfg i args s =
      if equal cfg.require_pass []
      then (s, error (codes "ERR Client sent AUTH, but no password is set"))
      else elim args [
        | [] ↦ (s, error (codes "ERR wrong number of arguments for 'auth' command"))
        | password ∷ more ↦ elim more [
          | [] ↦ auth_password cfg i password s
          | x ∷ xs ↦ (s, error (codes "ERR wrong number of arguments for 'auth' command"))
        ]
      ]

  unfoldable pub handed_on :
      Config C → ℕ → RespValue → Server C × Option RespValue → Server C × RespValue
  handed_on cfg now value (s, some reply) = (s, reply)
  handed_on cfg now value (s, none) = process_command cfg now value [] [] s

  unfoldable pub process_command_with_tx :
      Config C → ℕ → ℕ → RespValue → Server C → Server C × RespValue
  unfolding handle_auth handed_on
  process_command_with_tx cfg now i value s = elim (elements value) [
    | [] ↦ (s, invalid_command)
    | v ∷ vs ↦
        let (cmd, args) = parse_cmd (v ∷ vs) in
        if equal cmd (codes "AUTH")
        then handle_auth cfg i args s
        else if not (equal cfg.require_pass []) && not (s.connections i).authenticated
        then (s, no_auth)
        else handed_on cfg now value (handle_tx_cmd cfg now i value s)
  ]

  unfoldable pub process_pipeline :
      Config C → ℕ → ℕ → List RespValue → Server C → Server C × List RespValue
  process_pipeline cfg now i [] s = (s, [])
  process_pipeline cfg now i (cmd ∷ cmds) s =
      let (s', reply) = process_command_with_tx cfg now i cmd s in
      let (s'', replies) = process_pipeline cfg now i cmds s' in (s'', reply ∷ replies)
