-- ===== src/Persistence/Rdb/Shards.antt =====
-- The shards of a snapshot, as `Load` reads what `Save` writes.
use pendem.Base.{
  ℕ, zero, suc, ◌+◌, ◌-◌, ◌^◌, ◌≤◌, ◌<◌, ◌≡◌, refl, sym, ap, ◌∙◌, some, List, [], ◌∷◌, ◌++◌,
  append_assoc, Bytes, Map, equal, length, length-append, set as set_elem, All, arith, List-cases,
  inl, inr,
}
use pendem.Base.Words.{le_bytes, length-le_bytes}
use pendem.Engine.Item.{Item}
use pendem.Engine.Shard
use pendem.Engine.Shard.{Shard, restore_loop}
use pendem.Engine.Cache.{Cache, shard_at}
use pendem.Persistence.Refill.{set_elem-middle, get_elem?-middle, refill_all}
use pendem.Persistence.Rdb.{
  save_shard, save_shards, save_items, got, stop, read_header, read_heading, read_items,
  load_shards, done, rdb_magic, rdb_version, read_full, read_word, short_magic, short_version,
  short_shard_count, short_shard_id, short_item_count,
}
use pendem.Persistence.Rdb.Reading.{
  IsStorable, read_word-le_bytes, read_full-append, read_items-save_items, kept,
}

pub read_header-save :
    (n : ℕ) (rest : Bytes)
    → n < 2 ^ 16
    → read_header (rdb_magic ++ (rdb_version ∷ (le_bytes 2 n ++ rest))) ≡ got n rest
unfolding read_header equal
read_header-save n rest h =
    rw
      (
        read_header,
        read_full-append 6 short_magic rdb_magic (rdb_version ∷ (le_bytes 2 n ++ rest)) refl,
        read_full-append 1 short_version (rdb_version ∷ []) (le_bytes 2 n ++ rest) refl,
      )
      (read_word-le_bytes 2 n short_shard_count rest h)

read_heading-save :
    (id n : ℕ) (rest : Bytes)
    → id < 2 ^ 16
    → n < 2 ^ 32
    → read_heading (le_bytes 2 id ++ (le_bytes 4 n ++ rest)) ≡ got (id, n) rest
unfolding read_heading
read_heading-save id n rest h h' =
    rw
      (
        read_word-le_bytes 2 id short_shard_id (le_bytes 4 n ++ rest) h,
        read_word-le_bytes 4 n short_item_count rest h',
      )
      refl

read_heading-nil : read_heading [] ≡ stop short_shard_id
unfolding read_heading read_word read_full
read_heading-nil = refl

save_shard-nil : (now id : ℕ) → save_shard now id [] ≡ []
unfolding save_shard
save_shard-nil now id = refl

save_shard_some :
    (now id : ℕ) (entry : Bytes × Item) (items : Map Item)
    → 0 < length (save_shard now id (entry ∷ items))
unfolding save_shard
save_shard_some now id entry items = omega (
  arith,
  length-append (le_bytes 2 id)
      (le_bytes 4 (length (entry ∷ items)) ++ save_items now (entry ∷ items)),
  length-le_bytes 2 id,
)

module _ {F : Type 0} where
  load_shards-next :
      (fuel now id n : ℕ) (input rest rest' : Bytes) (items : Map Item) (s : Shard F) (c : Cache F)
      → read_heading input ≡ got (id, n) rest
      → shard_at id c ≡ some s
      → read_items now n [] rest ≡ got items rest'
      → load_shards (suc fuel) now input c
        ≡ load_shards fuel now rest'
            (record c { shards = set_elem c.shards id (Shard.restore items s) })
  unfolding load_shards
  load_shards-next fuel now id n [] rest rest' items s c h found read = cc read_heading-nil
  load_shards-next fuel now id n (b ∷ input) rest rest' items s c h found read =
      rw (load_shards, h, found, read) refl

  -- What is read back of the items of a shard.
  abbrev pub read_back : ℕ → ℕ → Shard F → Map Item
  read_back now later s = kept later (Shard.get_items now s) []

  -- A shard whose items the format has room for.
  abbrev pub IsStorableShard : ℕ → Shard F → Type 0
  IsStorableShard now s =
      (length (Shard.get_items now s) < 2 ^ 32) × All IsStorable (Shard.get_items now s)

  load_shards-nil : (fuel now : ℕ) (c : Cache F) → load_shards fuel now [] c ≡ (c, done)
  unfolding load_shards
  load_shards-nil zero now c = refl
  load_shards-nil (suc fuel) now c = refl

  -- One shard, by the items that `Save` took out of it.
  load_shards-save_shard :
      (fuel now later id : ℕ) (entry : Bytes × Item) (items : Map Item) (rest : Bytes)
      (pre ts : List (Shard F)) (t : Shard F) (c : Cache F)
      → c.shards ≡ pre ++ t ∷ ts
      → length pre ≡ id
      → id < 2 ^ 16
      → length (entry ∷ items) < 2 ^ 32
      → All IsStorable (entry ∷ items)
      → load_shards (suc fuel) later (save_shard now id (entry ∷ items) ++ rest) c
        ≡ load_shards fuel later rest
            (record c { shards = pre ++ Shard.restore (kept later (entry ∷ items) []) t ∷ ts })
  unfolding save_shard shard_at
  load_shards-save_shard fuel now later id entry items rest pre ts t c e p lim many st =
      load_shards-next fuel later id (length (entry ∷ items)) _
        (save_items now (entry ∷ items) ++ rest) rest (kept later (entry ∷ items) []) t c
        (simp append_assoc (
          read_heading-save id (length (entry ∷ items)) (save_items now (entry ∷ items) ++ rest) lim
            many))
        (rw (e, ← p) (get_elem?-middle pre t ts))
        (read_items-save_items now later (entry ∷ items) [] rest st)
      ∙ ap (λ shards. load_shards fuel later rest (record c { shards = shards }))
          (rw (e, ← p) (set_elem-middle pre t (Shard.restore (kept later (entry ∷ items) []) t) ts))

  restore-nil : (later : ℕ) (t : Shard F) → Shard.restore (kept later [] []) t ≡ t
  unfolding kept Shard.restore restore_loop
  restore-nil later t = refl

  -- The loop of `Load` on the shards that `Save` wrote from number `length pre` on.
  pub load_shards-save_shards :
      (fuel now later id : ℕ) (pre ss ts : List (Shard F)) (c : Cache F)
      → c.shards ≡ pre ++ ts
      → length pre ≡ id
      → length ss ≡ length ts
      → id + length ss < 2 ^ 16
      → All (IsStorableShard now) ss
      → length (save_shards now id ss) ≤ fuel
      → load_shards fuel later (save_shards now id ss) c
        ≡ (record c { shards = pre ++ refill_all (read_back now later) ss ts }, done)
  unfolding save_shards refill_all
  load_shards-save_shards fuel now later id pre [] ts c e p n lim st f =
      load_shards-nil fuel later c ∙ ap (λ ss. (record c { shards = ss }, done)) e
  load_shards-save_shards fuel now later id pre (s ∷ ss) [] c e p n lim st f =
      absurd (omega (arith, n))
  load_shards-save_shards fuel now later id pre (s ∷ ss) (t ∷ ts) c e p n lim st f =
      let next =
        λ (u : Shard F) (fuel' : ℕ) (c' : Cache F) (e' : c'.shards ≡ pre ++ u ∷ ts)
            (f' : length (save_shards now (suc id) ss) ≤ fuel').
          load_shards-save_shards fuel' now later (suc id) (pre ++ u ∷ []) ss ts c'
            (e' ∙ sym (append_assoc pre (u ∷ []) ts)) (omega (arith, p, length-append pre (u ∷ [])))
            (omega (arith, n)) (omega arith) st.1 f'
          ∙ ap (λ shards. (record c' { shards = shards }, done))
              (append_assoc pre (u ∷ []) (refill_all (read_back now later) ss ts)) in
      elim (List-cases (Shard.get_items now s)) [
        | inl none_there ↦
            rw (none_there, save_shard-nil now id)
              (next t fuel c e (rw (none_there, save_shard-nil now id) at f)
                ∙ ap
                    (λ u. (
                      record c { shards = pre ++ u ∷ refill_all (read_back now later) ss ts },
                      done,
                    ))
                    (sym (restore-nil later t)))
        | inr (entry, items, there) ↦
            let f' = rw there at f in
            let some_fuel : fuel ≡ suc (fuel - 1) = omega (
              arith,
              save_shard_some now id entry items,
              length-append (save_shard now id (entry ∷ items)) (save_shards now (suc id) ss),
            ) in
            let many = rw there at st.0.0 in
            let storable = rw there at st.0.1 in
            let u = Shard.restore (read_back now later s) t in
            rw (there, some_fuel)
              (load_shards-save_shard (fuel - 1) now later id entry items
                  (save_shards now (suc id) ss) pre ts t c e p (omega arith) many storable
                ∙ (rw (← there) (
                    next u (fuel - 1) (record c { shards = pre ++ u ∷ ts }) refl
                      (omega (
                        arith,
                        save_shard_some now id entry items,
                        length-append (save_shard now id (entry ∷ items))
                            (save_shards now (suc id) ss),
                      )))))
      ]
