-- ===== src/StreamTests.antt =====
-- Runs of the theorems on connections and the accept loop at concrete inputs.
use pendem.Base.{◌↔◌, if◌then◌else◌}
use pendem.Server.Idle
use pendem.Server.Idle.{Event, served, ticked, closed, fresh}
use pendem.Server.Idle.Timeout.{Ends, run-closed_iff}
use pendem.Base.{
  equal, ℕ, ◌+◌, ◌≤◌, true, false, List, [], ◌∷◌, ◌++◌, map, Bytes, All, codes, length, ◌≡◌, refl,
  arith,
}
use pendem.Base.Int.{pos, pos_part}
use pendem.Base.Strconv.{to_upper}
use pendem.Resp.{
  elements, is_array, str, is_bulk, RespValue, integer, bulk_string, array, from_list, fail, eof,
}
use pendem.Resp.Parse.{read, read_at, read_typed}
use pendem.Server.{parse_cmd, bulk_args, Server, Config, new_connection}
use pendem.Server.Stream.{encode_all, Panics, handle_connection}
use pendem.Server.Stream.Replies.{
  IsSent, commands_of, answer_all, answered, handle_connection-answer_all,
}
use pendem.Server.Stream.Gate.{OpensNothing, handle_connection-locked}
use pendem.Server.Auth.{any_opens, opens}
use pendem.Server.Accept.{
  Life, new_life, int32, Steps, OwnSteps, no_step, next, wait, accept, admit, launch, join,
  accepting, checked, admitted, has_place,
}
use pendem.Server.Accept.Bound.{Steps-bounded}
use pendem.Server.Accept.Shutdown.{steps_left, IsOver, Steps-shutdown}

abbrev counting : Config ℕ
counting = record {
  require_pass = [];
  handlers =
      (codes "SET", λ now args n. (n + 1, integer (pos (length args))))
      ∷ (codes "GET", λ now args n. (n, integer (pos n)))
      ∷ [];
}

abbrev server : Server ℕ
server = record { connections = λ i. new_connection; watchers = []; state = 0 }

abbrev command : List Bytes → RespValue
command words = array (from_list (map (λ w. bulk_string w) words))

abbrev sent : List RespValue
sent =
    command (codes "SET" ∷ codes "k" ∷ codes "v" ∷ []) ∷ command (codes "GET" ∷ codes "k" ∷ []) ∷ []

sent-IsSent : All IsSent sent
unfolding from_list
sent-IsSent = (
  (
    omega arith,
    omega arith,
    ((omega arith, omega arith), ((omega arith, omega arith), ((omega arith, omega arith), tt))),
  ),
  ((omega arith, omega arith, ((omega arith, omega arith), ((omega arith, omega arith), tt))), tt),
)

nothing_left : read [] ≡ fail eof
unfolding read read_at read_typed
nothing_left = refl

abbrev no_panic : Panics ℕ
no_panic now value s = false

-- A handler that panics.
abbrev scan_panics : Panics ℕ
scan_panics now value s = equal (parse_cmd (elements value)).0 (codes "SCAN")

handle_connection-answer_all_example :
    handle_connection false counting no_panic 1 (5 ∷ 6 ∷ 7 ∷ []) (encode_all sent ++ []) server
    ≡ answered counting 1 (answer_all counting 1 (5 ∷ 6 ∷ 7 ∷ []) sent server)
handle_connection-answer_all_example =
    handle_connection-answer_all counting 1 no_panic (λ now v s. refl) (5 ∷ 6 ∷ 7 ∷ []) sent [] eof
      server sent-IsSent nothing_left

-- A server for one connection that has started one.
abbrev started : Life
started = record new_life { active_conn = 1; starting = 1 }

started-Steps : Steps (pos 1) new_life started 4
unfolding has_place int32
started-Steps = next _ _ _ _ (wait new_life refl refl) (
    next _ _ _ _ (accept (record new_life { loop = accepting }) refl refl) (
      next _ _ _ _ (admit (record new_life { loop = checked }) refl refl)
        (next _ _ _ _ (launch (record new_life { loop = admitted }) refl) (no_step started))))

Steps-bounded_example :
    (started.active_conn
      ≡ started.starting + started.joined + started.serving + started.reading + started.handling)
    × (started.active_conn ≤ pos_part (int32 (pos 1)))
Steps-bounded_example = Steps-bounded (pos 1) started 4 started-Steps

abbrev closing : Life
closing = record started { quit = true; closed = true }

abbrev joining : Life
joining = record closing { starting = 0; joined = 1 }

Steps-shutdown_example :
    (1 + steps_left joining ≤ steps_left closing)
    × ((u : Life) × (m : ℕ) × OwnSteps (pos 1) joining u m × IsOver (pos 1) u)
Steps-shutdown_example =
    Steps-shutdown (pos 1) closing joining 1 refl refl
      (next closing joining joining 0 (join closing 0 refl) (no_step joining))

abbrev guarded : Config ℕ
guarded = record counting { require_pass = codes "pw" }

password_set : equal guarded.require_pass [] ≡ false
unfolding equal
password_set = refl

sent-OpensNothing : All (OpensNothing guarded 1) sent
unfolding any_opens commands_of elements from_list is_array opens parse_cmd bulk_args str is_bulk
    to_upper equal
sent-OpensNothing = (refl, (refl, tt))

handle_connection-locked_example :
    let after =
      (handle_connection false guarded scan_panics 1
        (5 ∷ 6 ∷ 7 ∷ [])
        (encode_all sent ++ [])
        server).server in
    (after.state ≡ 0) × (after.connections 2 ≡ new_connection)
handle_connection-locked_example =
    handle_connection-locked guarded 1 scan_panics (5 ∷ 6 ∷ 7 ∷ []) sent [] eof server 2
      password_set refl sent-OpensNothing sent-IsSent nothing_left refl

-- A connection that is served once and then left alone for longer than five seconds.
abbrev idle_events : List Event
idle_events = ticked 3 ∷ served 4 ∷ ticked 9 ∷ ticked 10 ∷ served 11 ∷ []

run-closed_iff_example :
    let c = Idle.run (pos 5000000000) idle_events (fresh 1) in
    ((c.is_closed ≡ true) ↔ Ends (pos 5000000000) 1 idle_events)
    × (c.ends ≡ (if c.is_closed then 1 else 0))
run-closed_iff_example = run-closed_iff (pos 5000000000) 1 idle_events
