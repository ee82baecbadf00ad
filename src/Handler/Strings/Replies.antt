-- ===== src/Handler/Strings/Replies.antt =====
-- SET, APPEND and GET one after another, through the handlers.
use pendem.Base.{
  ℕ, Bool-cases, Option, ◌++◌, inl, inr, none, some, List, [], ◌∷◌, Bytes, length, if◌then◌else◌,
  ◌≡◌, refl, ap,
}
use pendem.Base.Int.{pos}
use pendem.Engine.Item.{new_item, is_expired}
use pendem.Engine.Cache
use pendem.Engine.Cache.{Cache}
use pendem.Engine.Cache.Routing.{IsWhole, view, get-view, get-set, get-IsWhole}
use pendem.Engine.Shard.Race.{visible}
use pendem.Handler.{Handler, log_command, count_reply, bulk_or_null}
use pendem.Handler.Strings.{get, set, append, appended, parse_ttl}

abbrev pub or_empty : Option Bytes → Bytes
or_empty none = []
or_empty (some value) = value

appended-or_empty :
    (old : Option Bytes) (value : Bytes) → appended old value ≡ or_empty old ++ value
unfolding appended
appended-or_empty none value = refl
appended-or_empty (some old) value = refl

module _ {F : Type 0} where
  log_command-cache :
      (cmd : Bytes) (args : List Bytes) (h : Handler F) → (log_command cmd args h).cache ≡ h.cache
  unfolding log_command
  log_command-cache cmd args h = elim (Bool-cases h.persistent) [
    | inl e ↦ rw (log_command, e) refl
    | inr e ↦ rw (log_command, e) refl
  ]

  -- GET answers with what the cache holds under the key, and null where that is expired or missing.
  get-reply :
      (now : ℕ) (key : Bytes) (args : List Bytes) (h : Handler F)
      → IsWhole h.cache
      → (get now (key ∷ args) h).1 ≡ bulk_or_null (visible now (view key h.cache))
  unfolding get
  get-reply now key args h w = ap bulk_or_null (get-view now key h.cache w)

  -- On a whole cache, GET after SET, whatever its options, answers the value, until the item that
  -- SET makes is expired.
  get-set_reply :
      (now later : ℕ) (key value : Bytes) (options : List Bytes) (h : Handler F)
      → IsWhole h.cache
      → (get later (key ∷ []) (set now (key ∷ value ∷ options) h).0).1
        ≡ bulk_or_null
            (if is_expired later (new_item now value (parse_ttl options)) then none else some value)
  unfolding get set
  get-set_reply now later key value options h w =
      rw (log_command-cache)
        (ap bulk_or_null (get-set now later key value (parse_ttl options) h.cache w))

  -- On a whole cache, APPEND answers with the length of the value it leaves, and GET answers that
  -- value at any later time: the old value, if it was not expired, and the new bytes behind it. An
  -- expiry that the key had is gone.
  pub get-append :
      (now later : ℕ) (key value : Bytes) (h : Handler F)
      → IsWhole h.cache
      → let left = or_empty (visible now (view key h.cache)) ++ value in
        let after = append now (key ∷ value ∷ []) h in
        (after.1 ≡ count_reply (length left))
        × ((get later (key ∷ []) after.0).1 ≡ bulk_or_null (some left))
  unfolding get append is_expired new_item
  get-append now later key value h w =
      let left = appended (visible now (view key h.cache)) value in
      rw
        (
          get-view now key h.cache w,
          log_command-cache,
          ← appended-or_empty (visible now (view key h.cache)) value,
        )
        (
          refl,
          ap bulk_or_null (
              get-set now later key left (pos 0) (Cache.get now key h.cache).0
                (get-IsWhole now key h.cache w)),
        )
