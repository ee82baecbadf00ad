-- ===== src/Engine/Cache/Routing.antt =====
-- The cache as one map: no key is routed out of range, and `Get`, `Set` and `Delete` do to the
-- entries what they would do to a map.
use pendem.Base.{
  true, sym, ℕ, zero, suc, ◌-◌, ◌<◌, Option, none, some, List, [], ◌∷◌, Bytes, if◌then◌else◌, ◌≡◌,
  ◌≢◌, refl, ap, ◌∙◌, length, All, get_elem?, set as set_elem, replicate, get_elem?-some,
  get_elem?-set_self, get_elem?-set_ne, length-set, arith,
}
use mathlib.Core.Option.{some-injective}
use pendem.Base.Int.{ℤ, pos, negsuc}
use pendem.Base.Bits.{bit_and-le}
use pendem.Engine.Item.{Item, new_item, is_expired}
use pendem.Engine.Lru.Invariant.{IsValid, new_lru-IsValid}
use pendem.Engine.Lru.Lookups.{find, has-find, is_some, find-add_self}
use pendem.Engine.Shard
use pendem.Engine.Shard.{Shard, EngineConfig, new_shard}
use pendem.Engine.Shard.Race.{visible, get-visible, set-IsValid, delete-IsValid, get-IsValid_shard}
use pendem.Engine.Cache.{
  Cache, has_key, new_cache, fnv32a, shard_index, get_shard, on_shard, set, get, delete,
  shard_count_of,
}

-- A positive number of shards takes every key.
pub shard_index-lt : (n : ℕ) (key : Bytes) → 0 < n → shard_index n key < n
unfolding shard_index
shard_index-lt n key h = omega (arith, bit_and-le (fnv32a key) (n - 1))

All-get {ℓ κ} :
    {A : Type ℓ} (P : A → Type κ) (xs : List A) (i : ℕ) {x : A}
    → All P xs
    → get_elem? xs i ≡ some x
    → P x
All-get P [] i h e = ground arith
All-get P (y ∷ ys) zero h e = rw (some-injective y _ e) at h.0
All-get P (y ∷ ys) (suc i) h e = All-get P ys i h.1 e

All-set {ℓ κ} :
    {A : Type ℓ} (P : A → Type κ) (xs : List A) (i : ℕ) (v : A)
    → All P xs
    → P v
    → All P (set_elem xs i v)
All-set P [] i v h p = h
All-set P (x ∷ xs) zero v h p = (p, h.1)
All-set P (x ∷ xs) (suc i) v h p = (h.0, All-set P xs i v h.1 p)

All-replicate {ℓ κ} : {A : Type ℓ} (P : A → Type κ) (n : ℕ) (v : A) → P v → All P (replicate n v)
All-replicate P zero v p = tt
All-replicate P (suc n) v p = (p, All-replicate P n v p)

length-replicate {ℓ} : {A : Type ℓ} (n : ℕ) (v : A) → length (replicate n v) ≡ n
length-replicate zero v = refl
length-replicate (suc n) v = ap suc (length-replicate n v)

shard_count_of-pos : (n : ℤ) → 0 < shard_count_of n
shard_count_of-pos (pos n) = ground arith
shard_count_of-pos (negsuc n) = omega arith

module _ {F : Type 0} where
  pub record IsWhole (c : Cache F) : Type 0 where
    pub count : length c.shards ≡ c.num_shards
    pub some_shard : 0 < c.num_shards
    pub valid : All (λ s. IsValid s.evictor) c.shards

  -- The entry that the cache holds under a key.
  unfoldable pub view : Bytes → Cache F → Option Item
  view key c = elim (get_shard key c) [ none ↦ none | some s ↦ find key s.evictor ]

  pub new_cache-IsWhole : (cfg : EngineConfig) → IsWhole (new_cache cfg)
  unfolding new_cache new_shard
  new_cache-IsWhole cfg = record {
    count = length-replicate (shard_count_of cfg.shard_count) (new_shard cfg);
    some_shard = shard_count_of-pos cfg.shard_count;
    valid =
        All-replicate (λ s. IsValid s.evictor) (shard_count_of cfg.shard_count) (new_shard cfg)
          (new_lru-IsValid cfg.evictor_capacity cfg.max_memory);
  }

  pub get_shard-some :
      (key : Bytes) (c : Cache F) → IsWhole c → (s : Shard F) × (get_shard key c ≡ some s)
  unfolding get_shard
  get_shard-some key c w =
      get_elem?-some c.shards (shard_index c.num_shards key)
        (rw (w.count) (shard_index-lt c.num_shards key w.some_shard))

  pub shard-IsValid :
      (key : Bytes) (c : Cache F) {s : Shard F}
      → IsWhole c
      → get_shard key c ≡ some s
      → IsValid s.evictor
  unfolding get_shard
  shard-IsValid key c w e = All-get (λ s. IsValid s.evictor) c.shards _ w.valid e

  on_shard-some :
      {R : Type 0} (key : Bytes) (method : Shard F → Shard F × R) (missing : R) (c : Cache F)
      {s : Shard F}
      → get_shard key c ≡ some s
      → on_shard key method missing c ≡ (
        record c { shards = set_elem c.shards (shard_index c.num_shards key) (method s).0 },
        (method s).1,
      )
  unfolding on_shard
  on_shard-some key method missing c e = rw (on_shard, e) refl

  -- A method that keeps its shard valid keeps the cache whole.
  on_shard-IsWhole :
      {R : Type 0} (key : Bytes) (method : Shard F → Shard F × R) (missing : R) (c : Cache F)
      → ((s : Shard F) → IsValid s.evictor → IsValid (method s).0.evictor)
      → IsWhole c
      → IsWhole (on_shard key method missing c).0
  on_shard-IsWhole key method missing c keeps w =
      let (s, e) = get_shard-some key c w in
      rw (on_shard-some key method missing c e) (record {
        count = length-set c.shards _ _ ∙ w.count;
        some_shard = w.some_shard;
        valid =
            All-set (λ s'. IsValid s'.evictor) c.shards _ _ w.valid
              (keeps s (shard-IsValid key c w e));
      })

  -- The shard of the key is the one that the method leaves.
  get_shard-on_shard :
      {R : Type 0} (key : Bytes) (method : Shard F → Shard F × R) (missing : R) (c : Cache F)
      {s : Shard F}
      → IsWhole c
      → get_shard key c ≡ some s
      → get_shard key (on_shard key method missing c).0 ≡ some (method s).0
  unfolding get_shard
  get_shard-on_shard key method missing c w e = rw (on_shard-some key method missing c e) (
      get_elem?-set_self c.shards (shard_index c.num_shards key) _
        (rw (w.count) (shard_index-lt c.num_shards key w.some_shard)))

  -- Shards of other numbers stay.
  get_shard-on_other :
      {R : Type 0} (key other : Bytes) (method : Shard F → Shard F × R) (missing : R) (c : Cache F)
      → IsWhole c
      → shard_index c.num_shards key ≢ shard_index c.num_shards other
      → get_shard other (on_shard key method missing c).0 ≡ get_shard other c
  unfolding get_shard
  get_shard-on_other key other method missing c w ne =
      let (s, e) = get_shard-some key c w in
      rw (on_shard-some key method missing c e) (get_elem?-set_ne c.shards _ _ _ ne)

  pub view-some :
      (key : Bytes) (c : Cache F) {s : Shard F}
      → get_shard key c ≡ some s
      → view key c ≡ find key s.evictor
  unfolding view
  view-some key c e = rw (view, e) refl

  -- On a cache that is whole, `Get` returns the value that the cache holds under the key, and
  -- nothing where there is none or it is expired.
  pub get-view :
      (now : ℕ) (key : Bytes) (c : Cache F)
      → IsWhole c
      → (get now key c).1 ≡ visible now (view key c)
  unfolding get
  get-view now key c w =
      let (s, e) = get_shard-some key c w in
      rw (on_shard-some key (Shard.get now key) none c e, view-some key c e)
        (get-visible now key s (shard-IsValid key c w e))

  -- `Set`, `Get` and `Delete` keep the cache whole.
  pub set-IsWhole :
      (now : ℕ) (key value : Bytes) (ttl : ℤ) (c : Cache F)
      → IsWhole c
      → IsWhole (set now key value ttl c)
  unfolding set
  set-IsWhole now key value ttl c w =
      on_shard-IsWhole key _ _ c (λ s. set-IsValid now key value ttl s) w

  pub get-IsWhole : (now : ℕ) (key : Bytes) (c : Cache F) → IsWhole c → IsWhole (get now key c).0
  unfolding get
  get-IsWhole now key c w = on_shard-IsWhole key _ _ c (λ s. get-IsValid_shard now key s) w

  pub delete-IsWhole : (key : Bytes) (c : Cache F) → IsWhole c → IsWhole (delete key c).0
  unfolding delete
  delete-IsWhole key c w = on_shard-IsWhole key _ _ c (λ s. delete-IsValid key s) w

  pub view-set :
      (now : ℕ) (key value : Bytes) (ttl : ℤ) (c : Cache F)
      → IsWhole c
      → view key (set now key value ttl c) ≡ some (new_item now value ttl)
  unfolding set Shard.set
  view-set now key value ttl c w =
      let (s, e) = get_shard-some key c w in
      view-some key (set now key value ttl c) (get_shard-on_shard key _ _ c w e)
      ∙ find-add_self key (new_item now value ttl) s.evictor (shard-IsValid key c w e)

  -- `Set` does not touch the shards of other numbers.
  pub get_shard-set :
      (now : ℕ) (key other value : Bytes) (ttl : ℤ) (c : Cache F)
      → IsWhole c
      → shard_index c.num_shards key ≢ shard_index c.num_shards other
      → get_shard other (set now key value ttl c) ≡ get_shard other c
  unfolding set
  get_shard-set now key other value ttl c w ne = get_shard-on_other key other _ tt c w ne

  -- On a cache that is whole, `Get` after `Set` returns the value that was set, until the item that
  -- `Set` makes is expired; then it returns nothing.
  pub get-set :
      (now later : ℕ) (key value : Bytes) (ttl : ℤ) (c : Cache F)
      → IsWhole c
      → (get later key (set now key value ttl c)).1
        ≡ (if is_expired later (new_item now value ttl) then none else some value)
  unfolding set new_item
  get-set now later key value ttl c w =
      get-view later key (set now key value ttl c) (set-IsWhole now key value ttl c w)
      ∙ ap (visible later) (view-set now key value ttl c w)

  -- On a cache that is whole, `HasKey` finds a key whose entry is expired, and `Get` at that time
  -- does not.
  pub has_key-stale :
      (now : ℕ) (key : Bytes) (c : Cache F) (item : Item)
      → IsWhole c
      → view key c ≡ some item
      → is_expired now item ≡ true
      → (has_key key c ≡ true) × ((get now key c).1 ≡ none)
  unfolding has_key Shard.has_key
  has_key-stale now key c item w held x =
      let (s, e) = get_shard-some key c w in
      let found = sym (view-some key c e) ∙ held in
      (
        rw (has_key, e) (has-find key s.evictor (shard-IsValid key c w e) ∙ ap is_some found),
        get-view now key c w ∙ rw (held, x) refl,
      )
