-- ===== src/Engine/Shard/Race.antt =====
-- The reads of a shard: what `Get` returns, and what may happen between its two lock sections.
use pendem.Base.{
  ℕ, true, Bool-cases, Option, none, some, inl, inr, Bytes, if◌then◌else◌, ◌≡◌, refl, equal_refl,
}
use pendem.Base.Int.{ℤ}
use pendem.Engine.Item.{Item, new_item, is_expired}
use pendem.Engine.Lru
use pendem.Engine.Lru.Invariant.{IsValid}
use pendem.Engine.Lru.Operations.{add-IsValid, get-IsValid, remove-IsValid}
use pendem.Engine.Lru.Lookups.{find, get-find, remove-find, find-add_self}
use pendem.Engine.Shard.{Shard, set, get, delete, fetch, finish_get}

-- What a reader should see of an entry: its value, unless its time has passed.
abbrev pub visible : ℕ → Option Item → Option Bytes
visible now none = none
visible now (some item) = if is_expired now item then none else some item.value

module _ {F : Type 0} where
  finish_get-visible :
      (now : ℕ) (key : Bytes) (item : Option Item) (s : Shard F)
      → (finish_get now key item s).1 ≡ visible now item
  unfolding finish_get
  finish_get-visible now key none s = refl
  finish_get-visible now key (some item) s = elim (Bool-cases (is_expired now item)) [
    | inl e ↦ rw (e) refl
    | inr e ↦ rw (e) refl
  ]

  pub get-visible :
      (now : ℕ) (key : Bytes) (s : Shard F)
      → IsValid s.evictor
      → (get now key s).1 ≡ visible now (find key s.evictor)
  unfolding get fetch
  get-visible now key s v =
      rw (← (get-find key s.evictor v).0) (finish_get-visible now key (Lru.get key s.evictor).1 _)

  pub set-IsValid :
      (now : ℕ) (key value : Bytes) (ttl : ℤ) (s : Shard F)
      → IsValid s.evictor
      → IsValid (set now key value ttl s).evictor
  unfolding set
  set-IsValid now key value ttl s v = add-IsValid key (new_item now value ttl) s.evictor v

  pub delete-IsValid :
      (key : Bytes) (s : Shard F) → IsValid s.evictor → IsValid (delete key s).0.evictor
  unfolding delete
  delete-IsValid key s v = remove-IsValid key s.evictor v

  finish_get-IsValid :
      (now : ℕ) (key : Bytes) (item : Option Item) (s : Shard F)
      → IsValid s.evictor
      → IsValid (finish_get now key item s).0.evictor
  unfolding finish_get
  finish_get-IsValid now key none s v = v
  finish_get-IsValid now key (some item) s v = elim (Bool-cases (is_expired now item)) [
    | inl e ↦ rw (e) (delete-IsValid key s v)
    | inr e ↦ rw (e) v
  ]

  pub get-IsValid_shard :
      (now : ℕ) (key : Bytes) (s : Shard F) → IsValid s.evictor → IsValid (get now key s).0.evictor
  unfolding get fetch
  get-IsValid_shard now key s v =
      finish_get-IsValid now key (Lru.get key s.evictor).1 _ (get-IsValid key s.evictor v)

  -- On a valid shard, `Get` reads an expired entry, gives up the lock and takes it again to remove
  -- the key. A `Set` of the key that comes in between is lost: the key holds its value before the
  -- second section and holds nothing after it, however long the new value was to live.
  pub finish_get-loses_set :
      (now later : ℕ) (key value : Bytes) (ttl : ℤ) (old : Item) (s : Shard F)
      → IsValid s.evictor
      → (fetch key s).1 ≡ some old
      → is_expired later old ≡ true
      → let s' = set now key value ttl (fetch key s).0 in
        (find key s'.evictor ≡ some (new_item now value ttl))
        × (find key (finish_get later key (fetch key s).1 s').0.evictor ≡ none)
  unfolding fetch set finish_get delete
  finish_get-loses_set now later key value ttl old s v f x =
      let l = (Lru.get key s.evictor).0 in
      let l' = Lru.add key (new_item now value ttl) l in
      let v' = get-IsValid key s.evictor v in
      (
        find-add_self key (new_item now value ttl) l v',
        rw (f, finish_get, x)
            ((rw (equal_refl key) at ((remove-find key l' (add-IsValid key _ l v')).1 key))),
      )
