-- ===== src/Handler.antt =====
-- internal/handler: the state that the handlers share, their replies, and the commands by type.
pub mod Common
pub mod Strings
pub mod Hashes
pub mod Lists
pub mod Sets
pub mod SortedSets
pub mod Batch
pub mod Table
use pendem.Base.{
  ℕ, ◌+◌, ◌*◌, ◌^◌, Bool, true, false, Option, none, some, List, [], ◌∷◌, ◌++◌, map, Bytes, codes,
  if◌then◌else◌,
}
use pendem.Base.Int.{ℤ, pos}
use pendem.Resp.{RespValue, error, bulk_string, integer, null_bulk, array, from_list}
use pendem.Engine.Cache.{Cache}

-- `Handler`, with the persistence manager as the commands that it was given to log: each is written
-- by a goroutine of its own, in the order of `launched` if these run in the order of their start.
pub record Handler (F : Type 0) : Type 0 where
  pub cache : Cache F
  pub persistent : Bool
  pub launched : List (List Bytes)

-- A `CommandHandler` at a time.
abbrev pub Command : Type 0 → Type 0
Command F = ℕ → List Bytes → Handler F → Handler F × RespValue

-- `if h.persistenceMgr != nil { go h.persistenceMgr.LogCommand(cmd, args...) }`
unfoldable pub log_command : {F : Type 0} → Bytes → List Bytes → Handler F → Handler F
log_command cmd args h =
    if h.persistent then record h { launched = h.launched ++ (cmd ∷ args) ∷ [] } else h

abbrev pub wrong_args : Bytes → RespValue
wrong_args name = error (codes "ERR wrong number of arguments for '" ++ (name ++ codes "' command"))

abbrev pub not_an_integer : RespValue
not_an_integer = error (codes "ERR value is not an integer or out of range")

abbrev pub count_reply : ℕ → RespValue
count_reply n = integer (pos n)

abbrev pub bulk_or_null : Option Bytes → RespValue
bulk_or_null none = null_bulk
bulk_or_null (some v) = bulk_string v

abbrev pub bulk_array : List Bytes → RespValue
bulk_array vs = array (from_list (map (λ v. bulk_string v) vs))

-- The pairs that a loop `for i := 0; i < len(args); i += 2` takes; `none` if one is left over.
add_pair : Bytes → Bytes → Option (List (Bytes × Bytes)) → Option (List (Bytes × Bytes))
add_pair a b none = none
add_pair a b (some ps) = some ((a, b) ∷ ps)

unfoldable pub pairs_of : List Bytes → Option (List (Bytes × Bytes))
unfolding add_pair
pairs_of [] = some []
pairs_of (a ∷ []) = none
pairs_of (a ∷ b ∷ rest) = add_pair a b (pairs_of rest)
