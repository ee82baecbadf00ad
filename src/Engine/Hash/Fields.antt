-- ===== src/Engine/Hash/Fields.antt =====
-- The fields of a hash under HSET and HDEL.
use pendem.Base.{
  ℕ, ◌+◌, Option, none, some, Option-cases, inl, inr, Bytes, equal, equal_iff, lookup,
  lookup-insert, lookup-delete, insert-IsMap, delete-IsMap, length-insert, IsMap, if◌then◌else◌,
  ◌≡◌, arith,
}
use pendem.Engine.Hash.{Hash, has, set, get, delete_field, len}

-- No field stands twice.
abbrev IsHash : Hash → Type 0
IsHash h = IsMap h.fields

abbrev new_fields : Option Bytes → ℕ
new_fields none = 1
new_fields (some v) = 0

-- On a hash that holds each field once, setting a field gives that field the value and no other
-- field another one, keeps each field once, and the hash grows by one just where the field is new.
set-fields :
    (h : Hash) (field value : Bytes)
    → IsHash h
    → IsHash (set h field value)
      × (len (set h field value) ≡ len h + new_fields (get h field))
      × ((other : Bytes)
          → get (set h field value) other ≡ (if equal field other then some value else get h other))
unfolding set len get
set-fields h field value v = (
  insert-IsMap field value h.fields v,
  ground (arith, length-insert field value h.fields),
  λ other. lookup-insert field other value h.fields,
)

-- On a hash that holds each field once, deleting a field takes away that field and no other, keeps
-- each field once, and reports whether the field was there.
delete_field-fields :
    (h : Hash) (field : Bytes)
    → IsHash h
    → IsHash (delete_field h field).0
      × ((delete_field h field).1 ≡ has h field)
      × ((other : Bytes)
          → get (delete_field h field).0 other ≡ (if equal field other then none else get h other))
unfolding delete_field has get
delete_field-fields h field v = elim (Option-cases (lookup field h.fields)) [
  | inl e ↦ rw (delete_field, e) (v, ground arith, λ other. ground (arith, equal_iff field other))
  | inr (w, e) ↦
      rw (delete_field, e)
        (delete-IsMap field h.fields v, ground arith, λ other. lookup-delete field other h.fields)
]
