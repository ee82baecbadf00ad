-- ===== src/Server/Stream/Replies.antt =====
-- The loop of `handleConnection` against the commands that a client sends.
use pendem.Base.{
  if◌then◌else◌, List-cases, Bool-cases, inl, inr, ℕ, true, false, List, [], ◌∷◌, ◌++◌, Bytes, All,
  append_assoc, ◌≡◌, refl, sym, ap, ◌∙◌,
}
use pendem.Server.Process.{process_pipeline}
use pendem.Resp.{is_array, elements, RespValue, ReadError, ok, fail}
use pendem.Resp.Encode.{encode}
use pendem.Resp.Parse.{read, max_resp_depth}
use pendem.Resp.RoundTrip.{IsReadable, read-encode}
use pendem.Server.{Server, Config}
use pendem.Server.Watch.{cleanup_watchers}
use pendem.Server.Stream.{encode_all, Served, Panics, respond, wrote, serve, handle_connection}

abbrev pub IsSent : RespValue → Type 0
IsSent v = IsReadable v max_resp_depth

-- The commands of a value: its elements, where the first of them is an array, or itself.
unfoldable pub commands_of : RespValue → List RespValue
commands_of v = elim (elements v) [ [] ↦ v ∷ [] | w ∷ ws ↦ if is_array w then w ∷ ws else v ∷ [] ]

module _ {C : Type 0} (cfg : Config C) (i : ℕ) where
  -- The commands of values, answered one after the other, as long as there is a time for the next
  -- value.
  unfoldable pub answer_all : List ℕ → List RespValue → Server C → Server C × List RespValue
  answer_all (now ∷ times) (v ∷ vs) s =
      let (s', replies) = process_pipeline cfg now i (commands_of v) s in
      let (s'', more) = answer_all times vs s' in (s'', replies ++ more)
  answer_all _ _ s = (s, [])

  respond-commands_of :
      (now : ℕ) (v : RespValue) (s : Server C)
      → respond cfg now i v s ≡ process_pipeline cfg now i (commands_of v) s
  unfolding respond process_pipeline commands_of
  respond-commands_of now v s = elim (List-cases (elements v)) [
    | inl e ↦ rw (respond, commands_of, e) refl
    | inr (w, ws, e) ↦ elim (Bool-cases (is_array w)) [
      | inl nested ↦ rw (respond, commands_of, e, nested) refl
      | inr flat ↦ rw (respond, commands_of, e, flat) refl
    ]
  ]

  encode_all-append :
      (vs ws : List RespValue) → encode_all (vs ++ ws) ≡ encode_all vs ++ encode_all ws
  unfolding encode_all
  encode_all-append [] ws = refl
  encode_all-append (v ∷ vs) ws =
      ap (λ b. encode v ++ b) (encode_all-append vs ws)
      ∙ sym (append_assoc (encode v) (encode_all vs) (encode_all ws))

  -- The connection is closed behind the replies.
  unfoldable pub answered : Server C × List RespValue → Served C
  answered (s, replies) = record {
    server = cleanup_watchers i s;
    written = encode_all replies;
    survived = true;
  }

  abbrev written_by : Server C → Bytes → Served C
  written_by s bytes = record { server = cleanup_watchers i s; written = bytes; survived = true }

  pub serve-ok :
      (panics : Panics C) (now : ℕ) (times : List ℕ) (v : RespValue) (input rest : Bytes)
      (s : Server C)
      → panics now v s ≡ false
      → read input ≡ ok v rest
      → serve cfg panics i (now ∷ times) input s
        ≡ wrote
            (encode_all (process_pipeline cfg now i (commands_of v) s).1)
            (serve cfg panics i times rest (process_pipeline cfg now i (commands_of v) s).0)
  unfolding serve
  serve-ok panics now times v input rest s calm e =
      rw (serve, e, calm, respond-commands_of now v s) refl

  serve-answer_all :
      (panics : Panics C)
      → ((now : ℕ) (v : RespValue) (s : Server C) → panics now v s ≡ false)
      → (times : List ℕ) (vs : List RespValue) (tail : Bytes) (e : ReadError) (s : Server C)
      → All IsSent vs
      → read tail ≡ fail e
      → serve cfg panics i times (encode_all vs ++ tail) s ≡ answered (answer_all times vs s)
  unfolding encode_all answer_all answered serve
  serve-answer_all panics calm [] vs tail e s sent ends = refl
  serve-answer_all panics calm (now ∷ times) [] tail e s sent ends = rw (serve, ends) refl
  serve-answer_all panics calm (now ∷ times) (v ∷ vs) tail e s sent ends =
      let (s', replies) = process_pipeline cfg now i (commands_of v) s in
      let input = append_assoc (encode v) (encode_all vs) tail in
      ap (λ bytes. serve cfg panics i (now ∷ times) bytes s) input
      ∙ serve-ok panics now times v (encode v ++ (encode_all vs ++ tail)) (encode_all vs ++ tail) s
          (calm now v s) (read-encode v (encode_all vs ++ tail) sent.0)
      ∙ ap (wrote (encode_all replies))
          (serve-answer_all panics calm times vs tail e s' sent.1 ends)
      ∙ ap (written_by (answer_all times vs s').0)
          (sym (encode_all-append replies (answer_all times vs s').1))

  -- Where no handler panics: a client that sends values, each within the limits of the parser and
  -- with no empty bulk string and no line feed in a simple string or an error, and behind them nothing or
  -- something that is no value, has their commands answered in their order, each reply encoded
  -- behind the one before, as far as the connection is not closed by another goroutine; nothing
  -- else is written, the process survives, and the watchers of the connection's keys are cleaned up.
  pub handle_connection-answer_all :
      (panics : Panics C)
      → ((now : ℕ) (v : RespValue) (s : Server C) → panics now v s ≡ false)
      → (times : List ℕ) (vs : List RespValue) (tail : Bytes) (e : ReadError) (s : Server C)
      → All IsSent vs
      → read tail ≡ fail e
      → handle_connection false cfg panics i times (encode_all vs ++ tail) s
        ≡ answered (answer_all times vs s)
  unfolding handle_connection
  handle_connection-answer_all panics calm times vs tail e s sent ends =
      serve-answer_all panics calm times vs tail e s sent ends
