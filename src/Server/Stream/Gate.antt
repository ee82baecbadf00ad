-- ===== src/Server/Stream/Gate.antt =====
-- What a client without the password can do, from the bytes that it sends.
use pendem.Base.{
  refl, append_assoc, Bool-cases, inl, inr, ℕ, false, List, [], ◌∷◌, ◌++◌, Bytes, All, equal, ◌==◌,
  ◌≡◌, ◌∙◌,
}
use pendem.Resp.{RespValue, ReadError, fail}
use pendem.Resp.Parse.{read}
use pendem.Resp.Encode.{encode}
use pendem.Resp.RoundTrip.{read-encode}
use pendem.Server.{Server, Config}
use pendem.Server.Watch.{cleanup_watchers}
use pendem.Server.Process.{process_pipeline}
use pendem.Server.Auth.{any_opens, process_pipeline-IsLockedOut}
use pendem.Server.Stream.{encode_all, Panics, serve, handle_connection}
use pendem.Server.Stream.Replies.{IsSent, commands_of, serve-ok}

module _ {C : Type 0} (cfg : Config C) (i : ℕ) where
  -- No command of the value is the right AUTH.
  abbrev pub OpensNothing : RespValue → Type 0
  OpensNothing v = any_opens cfg (commands_of v) ≡ false

  -- What the handlers work on, and the other connections, are as they were.
  abbrev Keeps : Server C → Server C → Type 0
  Keeps s s' =
      (s'.state ≡ s.state) × ((j : ℕ) → (j == i) ≡ false → s'.connections j ≡ s.connections j)

  serve-Keeps :
      (panics : Panics C) (times : List ℕ) (vs : List RespValue) (tail : Bytes) (e : ReadError)
      (s : Server C)
      → equal cfg.require_pass [] ≡ false
      → (s.connections i).authenticated ≡ false
      → All OpensNothing vs
      → All IsSent vs
      → read tail ≡ fail e
      → Keeps s (serve cfg panics i times (encode_all vs ++ tail) s).server
  unfolding serve encode_all cleanup_watchers
  serve-Keeps panics [] vs tail e s p a n sent ends = (refl, λ j other. refl)
  serve-Keeps panics (now ∷ times) [] tail e s p a n sent ends =
      rw (serve, ends) (refl, λ j other. refl)
  serve-Keeps panics (now ∷ times) (v ∷ vs) tail e s p a n sent ends =
      let input = append_assoc (encode v) (encode_all vs) tail in
      let found = read-encode v (encode_all vs ++ tail) sent.0 in
      elim (Bool-cases (panics now v s)) [
        | inl panicked ↦ rw (input, serve, found, panicked) (refl, λ j other. refl)
        | inr calm ↦
            let first = process_pipeline-IsLockedOut cfg now i (commands_of v) s p a n.0 in
            let rest =
              serve-Keeps panics times vs tail e (process_pipeline cfg now i (commands_of v) s).0 p
                first.still_out n.1 sent.1 ends in
            rw
              (
                input,
                serve-ok cfg i panics now times v (encode v ++ (encode_all vs ++ tail))
                    (encode_all vs ++ tail) s calm found,
              )
              (rest.0 ∙ first.same_state, λ j other. rest.1 j other ∙ first.same_others j other)
      ]

  -- Where a password is set and a client sends values, each within the limits of the parser and none
  -- with the right AUTH, and behind them nothing or something that is no value, what the handlers
  -- work on is as it was, and so is every other connection.
  pub handle_connection-locked :
      (panics : Panics C) (times : List ℕ) (vs : List RespValue) (tail : Bytes) (e : ReadError)
      (s : Server C) (j : ℕ)
      → equal cfg.require_pass [] ≡ false
      → (s.connections i).authenticated ≡ false
      → All OpensNothing vs
      → All IsSent vs
      → read tail ≡ fail e
      → (j == i) ≡ false
      → let after = (handle_connection false cfg panics i times (encode_all vs ++ tail) s).server in
        (after.state ≡ s.state) × (after.connections j ≡ s.connections j)
  unfolding handle_connection
  handle_connection-locked panics times vs tail e s j p a n sent ends other =
      let kept = serve-Keeps panics times vs tail e s p a n sent ends in (kept.0, kept.1 j other)
