-- ===== src/Server/Stream.antt =====
-- `handleConnection` of internal/server/server.go: from the bytes that a client sends to the bytes
-- of the replies. The input is a list, with its end; the times are those of the rounds of the loop in
-- which the tests at its top let it go on, and the list ends where they find the connection closed (an
-- idle one, a wrong password) or `quit` closed by a shutdown.
pub mod Replies
pub mod Gate
use pendem.Base.{ℕ, Bool, true, false, List, [], ◌∷◌, ◌++◌, Bytes, codes, if◌then◌else◌}
use pendem.Resp.{RespValue, elements, is_array, ok, fail, panic}
use pendem.Resp.Encode.{encode}
use pendem.Resp.Parse.{read}
use pendem.Server.{Server, Config}
use pendem.Server.Watch.{cleanup_watchers}
use pendem.Server.Process.{process_command_with_tx, process_pipeline}

unfoldable pub encode_all : List RespValue → Bytes
encode_all [] = []
encode_all (v ∷ vs) = encode v ++ encode_all vs

-- What `handleConnection` leaves: the server, the bytes that it wrote, and whether the process is
-- still there after it.
pub record Served (C : Type 0) : Type 0 where
  pub server : Server C
  pub written : Bytes
  pub survived : Bool

-- Whether, at a time, a handler panics that the commands of a value call. The handlers of `Config` say
-- what the others do.
abbrev pub Panics : Type 0 → Type 0
Panics C = ℕ → RespValue → Server C → Bool

module _ {C : Type 0} where
  one_reply : Server C × RespValue → Server C × List RespValue
  one_reply (s, reply) = (s, reply ∷ [])

  -- A value is a pipeline where the first of its elements is an array.
  unfoldable pub respond : Config C → ℕ → ℕ → RespValue → Server C → Server C × List RespValue
  unfolding one_reply
  respond cfg now i value s = elim (elements value) [
    | [] ↦ one_reply (process_command_with_tx cfg now i value s)
    | v ∷ vs ↦
        if is_array v
        then process_pipeline cfg now i (v ∷ vs) s
        else one_reply (process_command_with_tx cfg now i value s)
  ]

  -- What is deferred.
  abbrev pub closed : ℕ → Server C → Served C
  closed i s = record { server = cleanup_watchers i s; written = []; survived = true }

  abbrev pub wrote : Bytes → Served C → Served C
  wrote bytes r = record r { written = bytes ++ r.written }

  -- The loop: an error of the parser ends it, a panic of the parser or of a handler ends the process.
  unfoldable pub serve : Config C → Panics C → ℕ → List ℕ → Bytes → Server C → Served C
  unfolding respond encode_all
  serve cfg panics i [] input s = closed i s
  serve cfg panics i (now ∷ times) input s = elim (read input) [
    | ok value rest ↦
        let (s', replies) = respond cfg now i value s in
        if panics now value s
        then record { server = s; written = []; survived = false }
        else wrote (encode_all replies) (serve cfg panics i times rest s')
    | fail e ↦ closed i s
    | panic ↦ record { server = s; written = []; survived = false }
  ]

  -- Where the server shuts down the connection is sent away.
  unfoldable pub handle_connection :
      Bool → Config C → Panics C → ℕ → List ℕ → Bytes → Server C → Served C
  unfolding serve
  handle_connection quit cfg panics i times input s =
      if quit
      then wrote (codes "ERR server shutting down" ++ 10 ∷ []) (closed i s)
      else serve cfg panics i times input s
