-- ===== src/Engine/Hash.antt =====
-- internal/engine/hash.go. Each method holds the hash's lock for its whole body, so it is one step.
pub mod Fields
use pendem.Base.{
  ℕ, Bool, true, false, Option, none, some, List, [], ◌∷◌, Bytes, Map, length, lookup, insert,
  delete,
}

pub record Hash : Type 0 where
  pub fields : Map Bytes

abbrev pub new_hash : Hash
new_hash = record { fields = [] }

unfoldable pub has : Hash → Bytes → Bool
has h field = elim (lookup field h.fields) [ none ↦ false | some v ↦ true ]

unfoldable pub set : Hash → Bytes → Bytes → Hash
set h field value = record h { fields = insert field value h.fields }

unfoldable pub get : Hash → Bytes → Option Bytes
get h field = lookup field h.fields

unfoldable pub delete_field : Hash → Bytes → Hash × Bool
delete_field h field = elim (lookup field h.fields) [
  | none ↦ (h, false)
  | some v ↦ (record h { fields = delete field h.fields }, true)
]

-- A copy of the map.
unfoldable pub get_all : Hash → Map Bytes
get_all h = h.fields

unfoldable pub len : Hash → ℕ
len h = length h.fields

firsts : Map Bytes → List Bytes
firsts [] = []
firsts ((k, v) ∷ m) = k ∷ firsts m

seconds : Map Bytes → List Bytes
seconds [] = []
seconds ((k, v) ∷ m) = v ∷ seconds m

unfoldable pub keys : Hash → List Bytes
unfolding firsts
keys h = firsts h.fields

unfoldable pub values : Hash → List Bytes
unfolding seconds
values h = seconds h.fields
