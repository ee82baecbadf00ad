-- ===== src/Persistence/Rdb/Reading.antt =====
-- `Load` reads back what `Save` writes, part by part.
use pendem.Base.{
  ℕ, ◌^◌, ◌<◌, ◌≡◌, refl, ◌∙◌, false, Option, none, some, [], ◌∷◌, ◌++◌, append_assoc, Bytes, Map,
  length, take-length_append, drop-length_append, length-append, ltb, All, arith, IsMap, insert,
  insert-IsMap, lookup, lookup-insert, lookup-insert_self, equal, equal_iff, if◌then◌else◌,
  Bool-cases, inl, inr,
}
use pendem.Base.Int.{pos}
use pendem.Base.Strconv.RoundTrip.{IsInt64}
use pendem.Base.Words.{
  word_limit, le_bytes, length-le_bytes, of_le-le_bytes, int64_bits, int64_bits-lt,
  bits_int64-int64_bits,
}
use pendem.Engine.Item.{Item, item_ttl}
use pendem.Engine.Shard.Fill.{first_found}
use pendem.Persistence.Rdb.{
  is_past, save_item, save_items, got, LoadError, read_full, read_word, read_item, read_items,
  keep_item, saved_ttl, short_key_length, short_key, short_value_length, short_value, short_ttl,
  short_expiration,
}

pub read_full-append :
    (n : ℕ) (e : LoadError) (bs rest : Bytes)
    → length bs ≡ n
    → read_full n e (bs ++ rest) ≡ got bs rest
unfolding read_full
read_full-append n e bs rest h =
    rw (← h, read_full, enough, take-length_append, drop-length_append) refl
  where
    enough : ltb (length (bs ++ rest)) (length bs) ≡ false
    enough = ground (arith, length-append bs rest)

pub read_word-le_bytes :
    (w n : ℕ) (e : LoadError) (rest : Bytes)
    → n < word_limit w
    → read_word w e (le_bytes w n ++ rest) ≡ got n rest
unfolding read_word
read_word-le_bytes w n e rest h =
    rw (read_full-append w e (le_bytes w n) rest (length-le_bytes w n), of_le-le_bytes w n h) refl

-- What the format has room for.
abbrev pub IsStorable : Bytes × Item → Type 0
IsStorable (key, item) =
    (length key < 2 ^ 16) × (length item.value < 2 ^ 32) × IsInt64 item.expiration

-- What is read back of an item.
abbrev pub reread : Item → Item
reread item = record item { created_at = pos 0 }

pub read_item-save_item :
    (now : ℕ) (key : Bytes) (item : Item) (rest : Bytes)
    → IsStorable (key, item)
    → read_item (save_item now (key, item) ++ rest) ≡ got (key, reread item) rest
unfolding read_item save_item
read_item-save_item now key item rest (k, v, x) = simp append_assoc (
    rw
      (
        read_word-le_bytes 2 (length key) short_key_length _ k,
        read_full-append (length key) short_key key _ refl,
        read_word-le_bytes 4 (length item.value) short_value_length _ v,
        read_full-append (length item.value) short_value item.value _ refl,
        read_word-le_bytes 8 ttl short_ttl _ (int64_bits-lt _),
        read_word-le_bytes 8 (int64_bits item.expiration) short_expiration rest (int64_bits-lt _),
        bits_int64-int64_bits item.expiration x,
      )
      refl)
  where
    ttl : ℕ
    ttl = int64_bits (saved_ttl (item_ttl now item))

-- The items that are read back, over those that were read before.
unfoldable pub kept : ℕ → Map Item → Map Item → Map Item
kept now [] acc = acc
kept now ((key, item) ∷ items) acc = kept now items (keep_item now (key, reread item) acc)

pub read_items-save_items :
    (now later : ℕ) (items acc : Map Item) (rest : Bytes)
    → All IsStorable items
    → read_items later (length items) acc (save_items now items ++ rest)
      ≡ got (kept later items acc) rest
unfolding read_items save_items kept
read_items-save_items now later [] acc rest h = refl
read_items-save_items now later ((key, item) ∷ items) acc rest h =
    rw
      (
        append_assoc (save_item now (key, item)) (save_items now items) rest,
        read_item-save_item now key item (save_items now items ++ rest) h.0,
      )
      (read_items-save_items now later items (keep_item later (key, reread item) acc) rest h.1)

-- An item that is not past at the time of the loading, as it is read back.
unfoldable pub survives : ℕ → Option Item → Option Item
survives now none = none
survives now (some i) = if is_past now i then none else some (reread i)

none_after : (o : Option Item) → first_found o none ≡ o
unfolding first_found
none_after none = refl
none_after (some i) = refl

lookup-kept_over :
    (now : ℕ) (items acc : Map Item) (k : Bytes)
    → IsMap items
    → lookup k (kept now items acc) ≡ first_found (survives now (lookup k items)) (lookup k acc)
unfolding kept keep_item survives first_found lookup
lookup-kept_over now [] acc k u = refl
lookup-kept_over now ((j, i) ∷ items) acc k (absent, u) =
    let rest = lookup-kept_over now items (keep_item now (j, reread i) acc) k u in
    rest ∙ elim (Bool-cases (equal j k)) [
      | inl e ↦
          let same = (equal_iff j k).0 e in
          rw (e, ← same, absent)
            (elim (Bool-cases (is_past now i)) [
              | inl p ↦ rw p refl
              | inr p ↦ rw (p, lookup-insert_self) refl
            ])
      | inr e ↦ rw e (elim (Bool-cases (is_past now i)) [
        | inl p ↦ rw p refl
        | inr p ↦ rw (p, lookup-insert, e) refl
      ])
    ]

pub lookup-kept :
    (now : ℕ) (items : Map Item) (k : Bytes)
    → IsMap items
    → lookup k (kept now items []) ≡ survives now (lookup k items)
unfolding survives first_found lookup
lookup-kept now items k u =
    lookup-kept_over now items [] k u ∙ none_after (survives now (lookup k items))

pub kept-IsMap : (now : ℕ) (items acc : Map Item) → IsMap acc → IsMap (kept now items acc)
unfolding kept keep_item
kept-IsMap now [] acc u = u
kept-IsMap now ((j, i) ∷ items) acc u = elim (Bool-cases (is_past now i)) [
  | inl p ↦ rw p (kept-IsMap now items acc u)
  | inr p ↦ rw p (kept-IsMap now items (insert j (reread i) acc) (insert-IsMap j (reread i) acc u))
]
