-- ===== src/Handler/Strings.antt =====
-- internal/handler/string.go.
pub mod Replies
use pendem.Base.{
  ℕ, suc, ◌+◌, ◌*◌, ◌^◌, Bool, true, false, Option, none, some, List, [], ◌∷◌, ◌++◌, Bytes, codes,
  equal, length, if◌then◌else◌,
}
use pendem.Base.Int.{ℤ, pos, negsuc, wrap64, neg_ℕ}
use pendem.Base.Strconv.{parse_int, to_upper}
use pendem.Resp.{RespValue, simple_string, bulk_string, integer, null_bulk}
use pendem.Engine.Cache
use pendem.Engine.Cache.{Cache}
use pendem.Handler.{Handler, Command, log_command, wrong_args, count_reply, bulk_or_null}

-- `time.Duration(n) * unit`, in 64 bits.
unfoldable pub duration : ℤ → ℕ → ℤ
unfolding wrap64
duration (pos n) unit = wrap64 (pos (n * unit))
duration (negsuc n) unit = wrap64 (neg_ℕ (suc n * unit))

abbrev pub ttl_of : Option ℤ → ℕ → ℤ
ttl_of none unit = pos 0
ttl_of (some n) unit = duration n unit

-- The options of SET behind the key and the value; what is not understood is no expiry.
unfoldable pub parse_ttl : List Bytes → ℤ
unfolding duration
parse_ttl (option ∷ n ∷ rest) =
    if equal (to_upper option) (codes "EX")
    then ttl_of (parse_int n) (10 ^ 9)
    else if equal (to_upper option) (codes "PX")
    then ttl_of (parse_int n) (10 ^ 6)
    else pos 0
parse_ttl _ = pos 0

unfoldable pub appended : Option Bytes → Bytes → Bytes
appended none value = value
appended (some old) value = old ++ value

module _ {F : Type 0} where
  unfoldable pub get : Command F
  get now [] h = (h, wrong_args (codes "get"))
  get now (key ∷ args) h =
      let (cache, value) = Cache.get now key h.cache in
      (record h { cache = cache }, bulk_or_null value)

  count_keys : List Bytes → Cache F → ℕ
  count_keys [] c = 0
  count_keys (key ∷ keys) c = (if Cache.has_key key c then 1 else 0) + count_keys keys c

  unfoldable pub exists : Command F
  unfolding count_keys
  exists now [] h = (h, wrong_args (codes "exists"))
  exists now (key ∷ keys) h = (h, count_reply (count_keys (key ∷ keys) h.cache))

  unfoldable pub set : Command F
  set now (key ∷ value ∷ options) h = (
    log_command (codes "SET") (key ∷ value ∷ options)
        (record h { cache = Cache.set now key value (parse_ttl options) h.cache }),
    simple_string (codes "OK"),
  )
  set now _ h = (h, wrong_args (codes "set"))

  unfoldable pub delete_loop : List Bytes → Cache F → ℕ → Cache F × ℕ
  delete_loop [] c count = (c, count)
  delete_loop (key ∷ keys) c count =
      let (c', found) = Cache.delete key c in
      delete_loop keys c' (if found then count + 1 else count)

  unfoldable pub delete : Command F
  delete now [] h = (h, wrong_args (codes "del"))
  delete now (key ∷ keys) h =
      let (cache, count) = delete_loop (key ∷ keys) h.cache 0 in
      (log_command (codes "DEL") (key ∷ keys) (record h { cache = cache }), count_reply count)

  unfoldable pub ttl : Command F
  ttl now [] h = (h, wrong_args (codes "ttl"))
  ttl now (key ∷ args) h =
      let (cache, left) = Cache.ttl now key h.cache in (record h { cache = cache }, integer left)

  unfoldable pub append : Command F
  unfolding appended
  append now (key ∷ value ∷ args) h =
      let (cache, old) = Cache.get now key h.cache in
      let new = appended old value in
      (
        log_command (codes "APPEND") (key ∷ value ∷ args)
            (record h { cache = Cache.set now key new (pos 0) cache }),
        count_reply (length new),
      )
  append now _ h = (h, wrong_args (codes "append"))

  unfoldable pub strlen : Command F
  strlen now [] h = (h, wrong_args (codes "strlen"))
  strlen now (key ∷ args) h =
      let (cache, value) = Cache.get now key h.cache in
      (record h { cache = cache }, count_reply (elim value [ none ↦ 0 | some v ↦ length v ]))
