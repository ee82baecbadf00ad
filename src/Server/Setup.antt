-- ===== src/Server/Setup.antt =====
-- NewServer, RegisterHandler and GetHandler of internal/server/server.go: what a server is before its first
-- connection, and the names of its handlers.
use pendem.Base.{
  ℕ, false, if◌then◌else◌, sym, ◌∙◌, some, Option, List, [], ◌∷◌, ◌≡◌, refl, Bytes, equal, insert,
  lookup, lookup-insert, lookup-insert_self,
}
use pendem.Base.Strconv.{to_upper}
use pendem.Resp.{RespValue, elements, str}
use pendem.Server.{Config, CommandHandler, Server, new_connection, parse_cmd, bulk_args}
use pendem.Server.Transaction.{process_command, run_handler, note_write, called}

module _ {C : Type 0} where
  unfoldable pub new_server : C → Server C
  new_server state = record { connections = λ i. new_connection; watchers = []; state = state }

  -- The handlers of a new server with a password, which may be empty.
  unfoldable pub new_handlers : Bytes → Config C
  new_handlers pass = record { require_pass = pass; handlers = [] }

  unfoldable pub register_handler : Bytes → CommandHandler C → Config C → Config C
  register_handler cmd handler cfg = record cfg {
    handlers = insert (to_upper cmd) handler cfg.handlers;
  }

  unfoldable pub get_handler : Bytes → Config C → Option (CommandHandler C)
  get_handler cmd cfg = lookup cmd cfg.handlers

  get_handler-register :
      (name cmd : Bytes) (handler : CommandHandler C) (cfg : Config C)
      → get_handler (to_upper cmd) (register_handler name handler cfg) ≡ (
          if equal (to_upper name) (to_upper cmd)
          then some handler
          else get_handler (to_upper cmd) cfg)
  unfolding get_handler register_handler
  get_handler-register name cmd handler cfg =
      lookup-insert (to_upper name) (to_upper cmd) handler cfg.handlers

  process_command-run :
      (cfg : Config C) (now : ℕ) (value v : RespValue) (vs : List RespValue) (s : Server C)
      → elements value ≡ v ∷ vs
      → process_command cfg now value [] [] s
        ≡ run_handler cfg now (to_upper (str v)) (bulk_args vs) s
  unfolding process_command parse_cmd equal
  process_command-run cfg now value v vs s e = rw (process_command, e) refl

  -- A registered handler runs for its name in any case, with the arguments that are bulk strings, behind
  -- the marking of the watchers.
  process_command-registered :
      (name : Bytes) (handler : CommandHandler C) (cfg : Config C) (now : ℕ) (value v : RespValue)
      (vs : List RespValue) (s : Server C)
      → elements value ≡ v ∷ vs
      → to_upper (str v) ≡ to_upper name
      → let s' = note_write (to_upper name) (bulk_args vs) s in
        process_command (register_handler name handler cfg) now value [] [] s
        ≡ called s' (handler now (bulk_args vs) s'.state)
  unfolding run_handler register_handler
  process_command-registered name handler cfg now value v vs s e same =
      process_command-run (register_handler name handler cfg) now value v vs s e
      ∙ rw (run_handler, same, lookup-insert_self (to_upper name) handler cfg.handlers, same) refl

  -- All other commands go on as before.
  process_command-others :
      (name : Bytes) (handler : CommandHandler C) (cfg : Config C) (now : ℕ) (value v : RespValue)
      (vs : List RespValue) (s : Server C)
      → elements value ≡ v ∷ vs
      → equal (to_upper name) (to_upper (str v)) ≡ false
      → process_command (register_handler name handler cfg) now value [] [] s
        ≡ process_command cfg now value [] [] s
  unfolding run_handler register_handler
  process_command-others name handler cfg now value v vs s e other =
      process_command-run (register_handler name handler cfg) now value v vs s e
      ∙ rw
          (
            run_handler,
            lookup-insert (to_upper name) (to_upper (str v)) handler cfg.handlers,
            other,
          )
          refl
      ∙ sym (process_command-run cfg now value v vs s e)
