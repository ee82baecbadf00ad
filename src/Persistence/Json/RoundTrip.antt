-- ===== src/Persistence/Json/RoundTrip.antt =====
-- The data of a snapshot, collected and restored.
use pendem.Base.{
  ap₂, set as set_elem, ℕ, suc, ◌≡◌, refl, sym, ap, ◌∙◌, some, List, [], ◌∷◌, ◌++◌, append_assoc,
  Bytes, Map, equal, length, length-append, All, IsMap, arith,
}
use pendem.Base.Int.{pos}
use pendem.Engine.Item.{Item}
use pendem.Engine.Shard
use pendem.Engine.Shard.{Shard}
use pendem.Engine.Shard.Fill.{first_found}
use pendem.Engine.Shard.Live.{live, lookup-get_items, get_items-IsMap}
use pendem.Engine.Lru.Invariant.{IsValid}
use pendem.Engine.Cache.{Cache, shard_at}
use pendem.Engine.Cache.Routing.{IsWhole, view, view-some, get_shard-some, shard-IsValid}
use pendem.Persistence.Refill.{
  set_elem-middle, get_elem?-middle, refill_all, HasRoomForAll, view-refill_all,
}
use pendem.Persistence.Json.{
  JsonShard, restore_into, collect_shards, collect_data, restore_shards, restore_data, restored,
}

module _ {F : Type 0} where
  shard_at-middle :
      (id : ℕ) (pre : List (Shard F)) (t : Shard F) (ts : List (Shard F)) (c : Cache F)
      → c.shards ≡ pre ++ t ∷ ts
      → length pre ≡ id
      → shard_at id c ≡ some t
  unfolding shard_at
  shard_at-middle id pre t ts c e p = rw (e, ← p) (get_elem?-middle pre t ts)

  restore_into-middle :
      (id : ℕ) (items : Map Item) (pre : List (Shard F)) (t : Shard F) (ts : List (Shard F))
      (c : Cache F)
      → c.shards ≡ pre ++ t ∷ ts
      → length pre ≡ id
      → restore_into (pos id) items c
        ≡ some (record c { shards = pre ++ Shard.restore items t ∷ ts })
  unfolding restore_into
  restore_into-middle id items pre t ts c e p =
      let found : shard_at id c ≡ some t = shard_at-middle id pre t ts c e p in
      rw (restore_into, found)
        (ap (λ shards. some (record c { shards = shards }))
          (ap₂ (λ xs n. set_elem xs n (Shard.restore items t)) e (sym p)
            ∙ set_elem-middle pre t (Shard.restore items t) ts))

  restore_shards-next :
      (id : ℕ) (items : Map Item) (rest : List JsonShard) (c c' : Cache F)
      → restore_into (pos id) items c ≡ some c'
      → restore_shards (record { id = pos id; items = items } ∷ rest) c ≡ restore_shards rest c'
  unfolding restore_shards
  restore_shards-next id items rest c c' e = rw (restore_shards, e) refl

  restore_shards-collect_shards :
      (now id : ℕ) (pre ss ts : List (Shard F)) (c : Cache F)
      → c.shards ≡ pre ++ ts
      → length pre ≡ id
      → length ss ≡ length ts
      → restore_shards (collect_shards now id ss) c
        ≡ (record c { shards = pre ++ refill_all (Shard.get_items now) ss ts }, restored)
  unfolding restore_shards collect_shards refill_all shard_at
  restore_shards-collect_shards now id pre [] ts c e p n =
      ap (λ shards. (record c { shards = shards }, restored)) e
  restore_shards-collect_shards now id pre (s ∷ ss) [] c e p n = absurd (omega (arith, n))
  restore_shards-collect_shards now id pre (s ∷ ss) (t ∷ ts) c e p n =
      let items = Shard.get_items now s in
      let u = Shard.restore items t in
      let c' = record c { shards = pre ++ u ∷ ts } in
      restore_shards-next id items (collect_shards now (suc id) ss) c c'
        (restore_into-middle id items pre t ts c e p)
      ∙ restore_shards-collect_shards now (suc id) (pre ++ u ∷ []) ss ts c'
          (sym (append_assoc pre (u ∷ []) ts)) (omega (arith, p, length-append pre (u ∷ [])))
          (omega (arith, n))
      ∙ ap (λ shards. (record c { shards = shards }, restored))
          (append_assoc pre (u ∷ []) (refill_all (Shard.get_items now) ss ts))

  each_get_items-IsMap :
      (now : ℕ) (ss : List (Shard F))
      → All (λ u. IsValid u.evictor) ss
      → All (λ u. IsMap (Shard.get_items now u)) ss
  unfolding Shard.get_items
  each_get_items-IsMap now [] h = tt
  each_get_items-IsMap now (s ∷ ss) h =
      (get_items-IsMap now s.evictor h.0, each_get_items-IsMap now ss h.1)

  restore_data-collected :
      (now : ℕ) (c d : Cache F)
      → IsWhole c
      → IsWhole d
      → c.num_shards ≡ d.num_shards
      → restore_data (collect_data now c) d
        ≡ (record d { shards = refill_all (Shard.get_items now) c.shards d.shards }, restored)
  unfolding restore_data collect_data equal
  restore_data-collected now c d w w' same =
      restore_shards-collect_shards now 0 [] c.shards d.shards d refl refl
        (w.count ∙ (same ∙ sym w'.count))

  -- A snapshot that is collected and restored into a cache of as many shards, with room for its
  -- entries: `restoreData` ends without an error, and each key holds what it held when it was
  -- collected, unless that was expired then; a key of which the snapshot holds nothing keeps what it
  -- held.
  pub restore_data-collect_data :
      (now : ℕ) (key : Bytes) (c d : Cache F)
      → IsWhole c
      → IsWhole d
      → c.num_shards ≡ d.num_shards
      → HasRoomForAll (Shard.get_items now) c.shards d.shards
      → let ended = restore_data (collect_data now c) d in
        (ended.1 ≡ restored) × (view key ended.0 ≡ first_found (live now (view key c)) (view key d))
  unfolding Shard.get_items
  restore_data-collect_data now key c d w w' same room =
      let (s, e) = get_shard-some key c w in
      let ended = restore_data-collected now c d w w' same in
      (
        ap (λ r. r.1) ended,
        ap (λ r. view key r.0) ended
            ∙ view-refill_all (Shard.get_items now) key c d s w' same
                (each_get_items-IsMap now c.shards w.valid) room e
            ∙ (rw (lookup-get_items now s.evictor key (shard-IsValid key c w e), view-some key c e)
                refl),
      )
