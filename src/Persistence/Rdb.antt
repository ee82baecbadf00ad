-- ===== src/Persistence/Rdb.antt =====
-- The binary snapshots of internal/persistence/rdb.go. A file is the list of its bytes; what the
-- file system refuses is not modelled. `time.Now()` is one time for each call of `Save` and `Load`.
pub mod Reading
pub mod Shards
pub mod RoundTrip
use pendem.Base.{
  ℕ, zero, suc, ◌+◌, ◌/◌, ◌^◌, Bool, true, false, ◌&&◌, Option, none, some, List, [], ◌∷◌, ◌++◌,
  Bytes, Map, codes, equal, length, take, drop, ltb, get_elem?, set as set_elem, if◌then◌else◌,
  insert, ◌==◌,
}
use pendem.Base.Int.{ℤ, pos, negsuc, ltb_ℤ}
use pendem.Base.Words.{le_bytes, of_le, int64_bits, bits_int64}
use pendem.Engine.Item.{Item, item_ttl}
use pendem.Engine.Shard
use pendem.Engine.Shard.{Shard}
use pendem.Engine.Cache.{Cache, shard_at}

abbrev pub rdb_magic : Bytes
rdb_magic = codes "PENDEM"

abbrev pub rdb_version : ℕ
rdb_version = 1

-- `int64(ttl.Seconds())`, with 0 for a negative time.
saved_ttl : ℤ → ℤ
saved_ttl (pos ns) = pos (ns / 10 ^ 9)
saved_ttl (negsuc n) = pos 0

-- The lengths are cut to 16 and 32 bits.
unfoldable pub save_item : ℕ → Bytes × Item → Bytes
unfolding saved_ttl
save_item now (key, item) =
    le_bytes 2 (length key)
    ++ (key
        ++ (le_bytes 4 (length item.value)
            ++ (item.value
                ++ (le_bytes 8 (int64_bits (saved_ttl (item_ttl now item)))
                    ++ le_bytes 8 (int64_bits item.expiration)))))

unfoldable pub save_items : ℕ → Map Item → Bytes
save_items now [] = []
save_items now (entry ∷ items) = save_item now entry ++ save_items now items

-- A shard without items is left out.
unfoldable pub save_shard : ℕ → ℕ → Map Item → Bytes
save_shard now id [] = []
save_shard now id (entry ∷ items) =
    le_bytes 2 id ++ (le_bytes 4 (length (entry ∷ items)) ++ save_items now (entry ∷ items))

unfoldable pub save_shards : {F : Type 0} → ℕ → ℕ → List (Shard F) → Bytes
save_shards now id [] = []
save_shards now id (s ∷ ss) =
    save_shard now id (Shard.get_items now s) ++ save_shards now (suc id) ss

-- What `Save` writes.
unfoldable pub save : {F : Type 0} → ℕ → Cache F → Bytes
save now c = rdb_magic ++ (rdb_version ∷ (le_bytes 2 c.num_shards ++ save_shards now 0 c.shards))

-- The errors of `Load`, by what could not be read.
pub data LoadError : Type 0 where
  short_magic invalid_magic short_version unsupported_version short_shard_count short_shard_id :
      LoadError
  short_item_count short_key_length short_key short_value_length short_value short_ttl : LoadError
  short_expiration : LoadError

-- How `Load` ends; a panic is of the runtime.
pub data LoadEnd : Type 0 where
  done panicked : LoadEnd
  failed : LoadError → LoadEnd

pub data Parsed {ℓ} (A : Type ℓ) : Type ℓ where
  got : A → Bytes → Parsed A
  stop : LoadError → Parsed A

infixl 5 ◌>>=◌
abbrev pub ◌>>=◌ {ℓ κ} : {A : Type ℓ} {B : Type κ} → Parsed A → (A → Bytes → Parsed B) → Parsed B
got a rest >>= f = f a rest
stop e >>= f = stop e

-- `io.ReadFull`
unfoldable pub read_full : ℕ → LoadError → Bytes → Parsed Bytes
read_full n e input = if ltb (length input) n then stop e else got (take n input) (drop n input)

-- `binary.Read` of a word of `w` bytes.
unfoldable pub read_word : ℕ → LoadError → Bytes → Parsed ℕ
unfolding read_full
read_word w e input = read_full w e input >>= λ bs rest. got (of_le bs) rest

-- The time to live is read and not used; the time of creation is lost.
unfoldable pub read_item : Bytes → Parsed (Bytes × Item)
read_item input = read_word 2 short_key_length input >>= λ key_len input.
    read_full key_len short_key input >>= λ key input.
    read_word 4 short_value_length input >>= λ val_len input.
    read_full val_len short_value input >>= λ value input.
    read_word 8 short_ttl input >>= λ ttl input. read_word 8 short_expiration input >>= λ exp input.
    got (key, record { value = value; expiration = bits_int64 exp; created_at = pos 0 }) input

-- `exp > 0 && time.Now().UnixNano() > exp`
abbrev pub is_past : ℕ → Item → Bool
is_past now item = ltb_ℤ (pos 0) item.expiration && ltb_ℤ item.expiration (pos now)

unfoldable pub keep_item : ℕ → Bytes × Item → Map Item → Map Item
keep_item now (key, item) items = if is_past now item then items else insert key item items

unfoldable pub read_items : ℕ → ℕ → Map Item → Bytes → Parsed (Map Item)
unfolding keep_item
read_items now zero items input = got items input
read_items now (suc n) items input =
    read_item input >>= λ entry input. read_items now n (keep_item now entry items) input

-- The number of a shard and of its items.
unfoldable pub read_heading : Bytes → Parsed (ℕ × ℕ)
read_heading input = read_word 2 short_shard_id input >>= λ id input.
    read_word 4 short_item_count input >>= λ count input. got (id, count) input

-- The magic, the version and the number of shards, which is not used.
unfoldable pub read_header : Bytes → Parsed ℕ
read_header input = read_full (length rdb_magic) short_magic input >>= λ magic input.
    if equal magic rdb_magic
    then (read_full 1 short_version input >>= λ version input.
        if equal version (rdb_version ∷ [])
        then read_word 2 short_shard_count input
        else stop unsupported_version)
    else stop invalid_magic

module _ {F : Type 0} where
  -- The loop over the shards of the file, up to its end. `GetShard` panics on a number out of
  -- range, so that the code behind its test for nil is never run. Each shard takes a byte at least,
  -- so that the length of the input is enough fuel.
  unfoldable pub load_shards : ℕ → ℕ → Bytes → Cache F → Cache F × LoadEnd
  load_shards zero now input c = (c, done)
  load_shards (suc fuel) now [] c = (c, done)
  load_shards (suc fuel) now (b ∷ input) c = elim (read_heading (b ∷ input)) [
    | stop e ↦ (c, failed e)
    | got (id, count) rest ↦ elim (shard_at id c) [
      | none ↦ (c, panicked)
      | some s ↦ elim (read_items now count [] rest) [
        | stop e ↦ (c, failed e)
        | got items rest' ↦
            load_shards fuel now rest'
              (record c { shards = set_elem c.shards id (Shard.restore items s) })
      ]
    ]
  ]

  unfoldable pub load_bytes : ℕ → Bytes → Cache F → Cache F × LoadEnd
  load_bytes now input c = elim (read_header input) [
    | stop e ↦ (c, failed e)
    | got n rest ↦ load_shards (length rest) now rest c
  ]

  -- With no file the cache stays as it is, and that is no error.
  unfoldable pub load : ℕ → Option Bytes → Cache F → Cache F × LoadEnd
  unfolding load_bytes
  load now none c = (c, done)
  load now (some input) c = load_bytes now input c
