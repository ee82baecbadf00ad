-- ===== src/Handler/Lists.antt =====
-- internal/handler/list.go.
use pendem.Base.{ℕ, Option, none, some, List, [], ◌∷◌, Bytes, codes}
use pendem.Base.Int.{ℤ}
use pendem.Base.Strconv.{parse_int}
use pendem.Resp.{RespValue, null_bulk, bulk_string}
use pendem.Engine.ListValue.{ListValue, lpush, rpush, lpop, rpop, lrange, llen}
use pendem.Engine.Cache
use pendem.Engine.Cache.{Cache}
use pendem.Handler.{
  Handler, Command, log_command, wrong_args, not_an_integer, count_reply, bulk_array,
}

range_reply : Option ListValue → Option ℤ → Option ℤ → RespValue
range_reply list (some start) (some stop) = elim list [
  | none ↦ bulk_array []
  | some l ↦ bulk_array (lrange l start stop)
]
range_reply list _ _ = not_an_integer

module _ {F : Type 0} where
  -- `GetOrCreateList`, and the push through the pointer that it returns.
  unfoldable pub push_cache :
      (ListValue → List Bytes → ListValue × ℕ) → Bytes → List Bytes → Cache F → Cache F × ℕ
  push_cache push key values c =
      let (c', list) = Cache.get_or_create_list key c in
      let (list', count) = push list values in (Cache.store_list key list' c', count)

  push_command : Bytes → Bytes → (ListValue → List Bytes → ListValue × ℕ) → Command F
  push_command name cmd push now (key ∷ value ∷ values) h =
      let (cache, count) = push_cache push key (value ∷ values) h.cache in
      (log_command cmd (key ∷ value ∷ values) (record h { cache = cache }), count_reply count)
  push_command name cmd push now _ h = (h, wrong_args name)

  unfoldable pub lpush_command : Command F
  unfolding push_command push_cache
  lpush_command = push_command (codes "lpush") (codes "LPUSH") lpush

  unfoldable pub rpush_command : Command F
  unfolding push_command push_cache
  rpush_command = push_command (codes "rpush") (codes "RPUSH") rpush

  -- A pop that finds nothing is not logged.
  popped : Bytes → Bytes → List Bytes → Handler F → ListValue × Option Bytes → Handler F × RespValue
  popped cmd key args h (list, none) = (h, null_bulk)
  popped cmd key args h (list, some v) = (
    log_command cmd (key ∷ args) (record h { cache = Cache.store_list key list h.cache }),
    bulk_string v,
  )

  pop_command : Bytes → Bytes → (ListValue → ListValue × Option Bytes) → Command F
  pop_command name cmd pop now [] h = (h, wrong_args name)
  pop_command name cmd pop now (key ∷ args) h = elim (Cache.get_list key h.cache) [
    | none ↦ (h, null_bulk)
    | some list ↦ popped cmd key args h (pop list)
  ]

  unfoldable pub lpop_command : Command F
  unfolding pop_command popped
  lpop_command = pop_command (codes "lpop") (codes "LPOP") lpop

  unfoldable pub rpop_command : Command F
  unfolding pop_command popped
  rpop_command = pop_command (codes "rpop") (codes "RPOP") rpop

  unfoldable pub lrange_command : Command F
  unfolding range_reply
  lrange_command now (key ∷ start ∷ stop ∷ args) h =
      (h, range_reply (Cache.get_list key h.cache) (parse_int start) (parse_int stop))
  lrange_command now _ h = (h, wrong_args (codes "lrange"))

  unfoldable pub llen_command : Command F
  llen_command now [] h = (h, wrong_args (codes "llen"))
  llen_command now (key ∷ args) h = elim (Cache.get_list key h.cache) [
    | none ↦ (h, count_reply 0)
    | some list ↦ (h, count_reply (llen list))
  ]
