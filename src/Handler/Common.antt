-- ===== src/Handler/Common.antt =====
-- internal/handler/common.go: PING, ECHO, POLICY, SCAN and MEMORY.
use pendem.Base.{
  ltb, ◌*◌, ℕ, Option, none, some, List, [], ◌∷◌, ◌++◌, Bytes, codes, equal, if◌then◌else◌,
}
use pendem.Base.Int.{ℤ, pos}
use pendem.Base.Strconv.{parse_int, format_int, format_uint, to_upper}
use pendem.Resp.{RespValue, simple_string, bulk_string, array, from_list}
use pendem.Engine.Cache
use pendem.Engine.Cache.{Cache}
use pendem.Handler.{Handler, Command, wrong_args, not_an_integer, bulk_array}

-- The options of SCAN, taken two at a time: the pattern and the count.
unfoldable pub scan_options : List Bytes → Bytes → ℤ → Bytes × ℤ
scan_options (option ∷ value ∷ rest) pattern count =
    let counted = elim (parse_int value) as (λ _. ℤ) [ none ↦ count | some n ↦ n ] in
    let name = to_upper option in
    scan_options rest (if equal name (codes "MATCH") then value else pattern)
      (if equal name (codes "COUNT") then counted else count)
scan_options _ pattern count = (pattern, count)

scan_reply : List Bytes × ℤ → RespValue
scan_reply (keys, next) = array (from_list (bulk_string (format_int next) ∷ bulk_array keys ∷ []))

module _ {F : Type 0} where
  unfoldable pub ping : Command F
  ping now [] h = (h, simple_string (codes "PONG"))
  ping now (arg ∷ args) h = (h, bulk_string arg)

  unfoldable pub echo : Command F
  echo now [] h = (h, wrong_args (codes "echo"))
  echo now (arg ∷ args) h = (h, bulk_string arg)

  unfoldable pub policy : Command F
  policy now (key ∷ args) h =
      (h, simple_string (codes "Policy for key '" ++ (key ++ codes "' not implemented yet")))
  policy now [] h = (
    h,
    simple_string (
        codes "Eviction policy: "
        ++ (Cache.policy h.cache
            ++ (codes " (items: "
                ++ (format_uint (Cache.size h.cache)
                    ++ (codes ", max: "
                        ++ (format_int (Cache.max_capacity h.cache) ++ codes ")")))))),
  )

  -- `none` where the scan of the cache panics.
  unfoldable pub scan : ℕ → List Bytes → Handler F → Option RespValue
  unfolding scan_options scan_reply
  scan now [] h = some (wrong_args (codes "scan"))
  scan now (arg ∷ options) h = elim (parse_int arg) [
    | none ↦ some not_an_integer
    | some cursor ↦
        let (pattern, count) = scan_options options (codes "*") (pos 10) in
        elim (Cache.scan now cursor pattern count h.cache) [
          | none ↦ none
          | some found ↦ some (scan_reply found)
        ]
  ]

module _ {F : Type 0} (fixed : ℕ → ℕ → Bytes) where
  -- MEMORY USAGE. `fixed n unit` is n / unit with two decimals; a float64 keeps the comparisons
  -- with 1 exact.
  unfoldable pub memory_usage : List Bytes → Cache F → RespValue
  memory_usage (key ∷ args) c =
      simple_string (codes "Memory usage for key '" ++ (key ++ codes "' not implemented yet"))
  memory_usage [] c =
      let bytes = Cache.memory_usage c in
      simple_string (
        if ltb (1024 * 1024) bytes
        then fixed bytes (1024 * 1024) ++ codes " MB"
        else if ltb 1024 bytes
        then fixed bytes 1024 ++ codes " KB"
        else format_uint bytes ++ codes " bytes")

  -- MEMORY, with the numbers of the runtime as a text.
  unfoldable pub memory : Bytes → Command F
  unfolding memory_usage
  memory stats now [] h = (h, simple_string stats)
  memory stats now (arg ∷ args) h =
      if equal (to_upper arg) (codes "USAGE")
      then (h, memory_usage args h.cache)
      else (h, bulk_string arg)
