-- ===== src/Resp.antt =====
-- internal/server/resp.go: the values of the protocol, and the outcomes of reading one.
pub mod Encode
pub mod Parse
pub mod RoundTrip
pub mod Faults
pub mod Progress
pub mod Streaming
use pendem.Base.{
  ℕ, zero, suc, ◌+◌, ◌≤◌, Bool, true, false, Option, none, some, List, [], ◌∷◌, Bytes, ltb,
}
use pendem.Base.Int.{ℤ}

-- `RESPValue`: one constructor for each combination of `Type` and `IsNull` that the code builds.
mutual
  pub data RespValue : Type 0 where
    simple_string error bulk_string : Bytes → RespValue
    integer : ℤ → RespValue
    null_bulk null_array : RespValue
    array : RespValues → RespValue

  pub data RespValues : Type 0 where
    nil : RespValues
    cons : RespValue → RespValues → RespValues

unfoldable pub from_list : List RespValue → RespValues
from_list [] = nil
from_list (v ∷ vs) = cons v (from_list vs)

unfoldable pub to_list : RespValues → List RespValue
to_list nil = []
to_list (cons v vs) = v ∷ to_list vs

abbrev pub length_values : RespValues → ℕ
length_values nil = 0
length_values (cons v vs) = suc (length_values vs)

-- The field `Str`, empty where the code leaves it out.
unfoldable pub str : RespValue → Bytes
str (simple_string s) = s
str (error s) = s
str (bulk_string s) = s
str _ = []

-- The field `Array`, `nil` where the code leaves it out.
unfoldable pub elements : RespValue → List RespValue
unfolding to_list
elements (array vs) = to_list vs
elements _ = []

-- `v.Type == BulkString`
unfoldable pub is_bulk : RespValue → Bool
is_bulk (bulk_string s) = true
is_bulk null_bulk = true
is_bulk _ = false

-- `v.Type == Array`
unfoldable pub is_array : RespValue → Bool
is_array (array vs) = true
is_array null_array = true
is_array _ = false

-- The errors of the parser that its callers tell apart, or that it names.
pub data ReadError : Type 0 where
  eof invalid_resp too_deep too_large : ReadError
  unknown_type : ℕ → ReadError

-- What `Read` does: a value and the input behind it, an error, or a panic of the runtime.
pub data Outcome {ℓ} (A : Type ℓ) : Type ℓ where
  ok : A → Bytes → Outcome A
  fail : ReadError → Outcome A
  panic : Outcome A

infixl 5 ◌>>=◌
abbrev pub ◌>>=◌ {ℓ κ} : {A : Type ℓ} {B : Type κ} → Outcome A → (A → Bytes → Outcome B) → Outcome B
ok a rest >>= f = f a rest
fail e >>= f = fail e
panic >>= f = panic
