-- ===== src/ServerTests.antt =====
-- Runs of the theorems on the server at concrete inputs, with a handler that keeps a counter.
use pendem.Base.{arith}
use pendem.Resp.{error, ok}
use pendem.Resp.Encode.{encode, crlf}
use pendem.Resp.Parse.{read}
use pendem.Server.Splitting.{run_handler-splits}
use pendem.Base.{
  ℕ, ◌+◌, true, false, not, ◌&&◌, ◌||◌, some, List, [], ◌∷◌, ◌++◌, map, Bytes, codes, equal, length,
  replicate, lookup, ◌≡◌, refl,
}
use pendem.Base.Int.{pos}
use pendem.Base.Strconv.{to_upper}
use pendem.Resp.{
  RespValue, elements, str, is_bulk, integer, bulk_string, null_bulk, array, from_list,
}
use pendem.Server.{
  Connection, Server, Config, CommandHandler, new_connection, IsCommand, parse_cmd,
  is_write_command, extract_keys, with_connection, reset_transaction,
}
use pendem.Server.Transaction.{
  ok_reply, run_handler, take_queue, handle_exec, handle_multi, handle_watch, handle_unwatch,
}
use pendem.Server.Process.{process_pipeline}
use pendem.Server.Watch.{watchers_of}
use pendem.Server.Auth.{IsLockedOut, opens, any_opens, right_password, process_pipeline-IsLockedOut}
use pendem.Server.Isolation.{watches, mem_id, handle_exec-conflict, run_handler-dirty}
use pendem.Server.Stale.{handle_unwatch-stale}
use pendem.Server.Queue.{IsQueueable, InTurn, queued_reply, process_pipeline-run_queued}

-- The handler of SET counts its calls and answers the number of arguments; GET answers the count.
abbrev counting : Config ℕ
counting = record {
  require_pass = codes "pw";
  handlers =
      (codes "SET", λ now args n. (n + 1, integer (pos (length args))))
      ∷ (codes "GET", λ now args n. (n, integer (pos n)))
      ∷ [];
}

abbrev command : List Bytes → RespValue
command words = array (from_list (map (λ w. bulk_string w) words))

abbrev set_command : RespValue
set_command = command (codes "set" ∷ codes "k" ∷ codes "v" ∷ [])

abbrev get_command : RespValue
get_command = command (codes "get" ∷ codes "k" ∷ [])

abbrev in_connection : Connection
in_connection = record new_connection { authenticated = true }

abbrev fresh_server : Server ℕ
fresh_server = record { connections = λ i. new_connection; watchers = []; state = 0 }

abbrev open_server : Server ℕ
open_server = record { connections = λ i. in_connection; watchers = []; state = 0 }

abbrev multi_command : RespValue
multi_command = command (codes "multi" ∷ [])

abbrev exec_command : RespValue
exec_command = command (codes "exec" ∷ [])

multi-IsCommand : IsCommand multi_command (codes "MULTI") []
unfolding elements from_list parse_cmd str to_upper is_bulk
multi-IsCommand = (bulk_string (codes "multi"), [], refl, refl)

exec-IsCommand : IsCommand exec_command (codes "EXEC") []
unfolding elements from_list parse_cmd str to_upper is_bulk
exec-IsCommand = (bulk_string (codes "exec"), [], refl, refl)

set-IsQueueable : IsQueueable set_command
unfolding elements from_list parse_cmd str to_upper equal
set-IsQueueable = record {
  first = bulk_string (codes "set");
  others = bulk_string (codes "k") ∷ bulk_string (codes "v") ∷ [];
  read_as = refl;
  not_auth = refl;
  not_multi = refl;
  not_watch = refl;
  not_unwatch = refl;
  not_exec = refl;
  not_discard = refl;
}

get-IsQueueable : IsQueueable get_command
unfolding elements from_list parse_cmd str to_upper equal
get-IsQueueable = record {
  first = bulk_string (codes "get");
  others = bulk_string (codes "k") ∷ [];
  read_as = refl;
  not_auth = refl;
  not_multi = refl;
  not_watch = refl;
  not_unwatch = refl;
  not_exec = refl;
  not_discard = refl;
}

gate_open :
    (not (equal counting.require_pass []) && not (open_server.connections 0).authenticated) ≡ false
unfolding equal
gate_open = refl

process_pipeline-run_queued_example :
    (u : Server ℕ) × (replies : List RespValue) × InTurn counting 5
      (with_connection 0 take_queue open_server)
      (set_command ∷ get_command ∷ [])
      u
      replies
    × (process_pipeline counting 5 0
          (multi_command ∷ (set_command ∷ get_command ∷ []) ++ exec_command ∷ [])
          open_server
        ≡ (
          u,
          ok_reply ∷ replicate (length (set_command ∷ get_command ∷ [])) queued_reply
              ++ array (from_list replies) ∷ [],
        ))
process_pipeline-run_queued_example =
    process_pipeline-run_queued counting 5 0 multi_command exec_command
      (set_command ∷ get_command ∷ []) open_server multi-IsCommand exec-IsCommand
      (set-IsQueueable, (get-IsQueueable, tt)) gate_open refl refl

abbrev not_the_password : RespValue
not_the_password = command (codes "auth" ∷ codes "guess" ∷ [])

no_guess : any_opens counting (not_the_password ∷ set_command ∷ multi_command ∷ []) ≡ false
unfolding any_opens opens right_password elements from_list parse_cmd str to_upper is_bulk equal
no_guess = refl

password_set : equal counting.require_pass [] ≡ false
unfolding equal
password_set = refl

process_pipeline-IsLockedOut_example :
    IsLockedOut 3 fresh_server
      (process_pipeline counting 5 3
        (not_the_password ∷ set_command ∷ multi_command ∷ [])
        fresh_server).0
process_pipeline-IsLockedOut_example =
    process_pipeline-IsLockedOut counting 5 3 (not_the_password ∷ set_command ∷ multi_command ∷ [])
      fresh_server password_set refl no_guess

-- Connection 1 watches a key inside a transaction; connections 1 and 2 watch another.
abbrev watched_server : Server ℕ
watched_server = record {
  connections = λ i. record in_connection { in_transaction = true };
  watchers = (codes "k", 1 ∷ []) ∷ (codes "j", 2 ∷ 1 ∷ []) ∷ [];
  state = 0;
}

abbrev set_handler : CommandHandler ℕ
set_handler now args n = (n + 1, integer (pos (length args)))

set_handled : lookup (codes "SET") counting.handlers ≡ some set_handler
unfolding lookup equal
set_handled = refl

set_writes : is_write_command (codes "SET") ≡ true
unfolding is_write_command equal
set_writes = refl

set_touches :
    watches 1 (extract_keys (codes "SET") (codes "k" ∷ codes "v" ∷ [])) watched_server.watchers
    ≡ true
unfolding watches extract_keys equal watchers_of lookup mem_id
set_touches = refl

run_handler-dirty_example :
    ((run_handler counting 5
        (codes "SET")
        (codes "k" ∷ codes "v" ∷ [])
        watched_server).0.connections
      1).dirty
    ≡ ((watched_server.connections 1).dirty
        || watches 1
            (extract_keys (codes "SET") (codes "k" ∷ codes "v" ∷ []))
            watched_server.watchers)
run_handler-dirty_example =
    run_handler-dirty counting 5 1 (codes "SET") (codes "k" ∷ codes "v" ∷ []) watched_server
      set_handler set_handled set_writes

handle_exec-conflict_example :
    let s' = (run_handler counting 5 (codes "SET") (codes "k" ∷ codes "v" ∷ []) watched_server).0 in
    handle_exec counting 6 1 s' ≡ (with_connection 1 reset_transaction s', null_bulk)
handle_exec-conflict_example =
    handle_exec-conflict counting 5 6 1 (codes "SET") (codes "k" ∷ codes "v" ∷ []) watched_server
      set_handler set_handled set_writes set_touches refl

set_key : extract_keys (codes "SET") (codes "k" ∷ codes "v" ∷ []) ≡ codes "k" ∷ []
unfolding extract_keys equal
set_key = refl

handle_unwatch-stale_example :
    let unwatched = (handle_unwatch 1 (handle_watch 1 (codes "k" ∷ []) open_server).0).0 in
    let begun =
      (handle_multi 1 []
        (run_handler counting 5 (codes "SET") (codes "k" ∷ codes "v" ∷ []) unwatched).0).0 in
    handle_exec counting 6 1 begun ≡ (with_connection 1 reset_transaction begun, null_bulk)
handle_unwatch-stale_example =
    handle_unwatch-stale counting 5 6 1 (codes "SET") (codes "k") (codes "k" ∷ codes "v" ∷ [])
      open_server set_handler set_handled set_writes set_key refl

-- The name is that of no command, and has a whole reply inside.
run_handler-splits_example :
    read
      (encode (run_handler counting 7 (codes "A" ++ (crlf ++ codes "+OK")) [] fresh_server).1 ++ [])
    ≡ ok
        (error (codes "ERR unknown command '" ++ codes "A"))
        ((codes "+OK" ++ codes "'") ++ (crlf ++ []))
unfolding lookup equal
run_handler-splits_example =
    run_handler-splits counting 7 (codes "A") (codes "+OK") [] fresh_server [] (omega arith) refl
