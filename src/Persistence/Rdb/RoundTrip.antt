-- ===== src/Persistence/Rdb/RoundTrip.antt =====
-- A snapshot that is saved and loaded.
use pendem.Base.{All-each, ℕ, ◌^◌, ◌<◌, ◌≡◌, refl, sym, ◌∙◌, some, [], Bytes, length, All, arith}
use pendem.Engine.Lru
use pendem.Engine.Shard
use pendem.Engine.Shard.{Shard, restore_loop}
use pendem.Engine.Shard.Fill.{first_found}
use pendem.Engine.Shard.Live.{live, lookup-get_items, get_items-IsMap}
use pendem.Engine.Cache.{Cache}
use pendem.Engine.Cache.Routing.{IsWhole, view, view-some, get_shard-some, shard-IsValid}
use pendem.Persistence.Rdb.{save, save_shards, load_bytes, load, done}
use pendem.Persistence.Rdb.Reading.{survives, lookup-kept, kept-IsMap}
use pendem.Persistence.Refill.{refill_all, HasRoomForAll, view-refill_all}
use pendem.Persistence.Rdb.Shards.{
  read_header-save, read_back, IsStorableShard, load_shards-save_shards,
}

module _ {F : Type 0} where
  loaded : ℕ → ℕ → Cache F → Cache F → Cache F
  loaded now later c d = record d { shards = refill_all (read_back now later) c.shards d.shards }

  load-loaded :
      (now later : ℕ) (c d : Cache F)
      → IsWhole c
      → IsWhole d
      → c.num_shards ≡ d.num_shards
      → c.num_shards < 2 ^ 16
      → All (IsStorableShard now) c.shards
      → load later (some (save now c)) d ≡ (loaded now later c d, done)
  unfolding load load_bytes save loaded
  load-loaded now later c d w w' same lim st =
      rw (load_bytes, read_header-save c.num_shards (save_shards now 0 c.shards) lim)
        (load_shards-save_shards (length (save_shards now 0 c.shards)) now later 0 [] c.shards
          d.shards d refl refl (w.count ∙ (same ∙ sym w'.count)) (rw (w.count) (omega arith)) st
          (omega arith))

  view-loaded :
      (now later : ℕ) (key : Bytes) (c d : Cache F)
      → IsWhole c
      → IsWhole d
      → c.num_shards ≡ d.num_shards
      → HasRoomForAll (read_back now later) c.shards d.shards
      → view key (loaded now later c d)
        ≡ first_found (survives later (live now (view key c))) (view key d)
  unfolding loaded Shard.get_items
  view-loaded now later key c d w w' same room =
      let (s, e) = get_shard-some key c w in
      let items = Lru.get_items now s.evictor in
      let valid = shard-IsValid key c w e in
      view-refill_all (read_back now later) key c d s w' same
        (All-each (λ u. kept-IsMap later (Shard.get_items now u) [] tt) c.shards) room e
      ∙ (rw
          (
            lookup-kept later items key (get_items-IsMap now s.evictor valid),
            lookup-get_items now s.evictor key valid,
            view-some key c e,
          )
          refl)

  -- A snapshot that is saved and loaded into a cache of as many shards, with room for its entries:
  -- `Load` ends without an error, and each key holds what it held when it was saved, unless that
  -- was expired then or is now, with its expiration; a key of which the snapshot holds nothing
  -- keeps what it held. Keys shorter than 65536 bytes, values and shards below 2 ^ 32, and fewer
  -- than 65536 shards are asked for.
  pub load-save :
      (now later : ℕ) (key : Bytes) (c d : Cache F)
      → IsWhole c
      → IsWhole d
      → c.num_shards ≡ d.num_shards
      → c.num_shards < 2 ^ 16
      → All (IsStorableShard now) c.shards
      → HasRoomForAll (read_back now later) c.shards d.shards
      → let ended = load later (some (save now c)) d in
        (ended.1 ≡ done)
        × (view key ended.0 ≡ first_found (survives later (live now (view key c))) (view key d))
  load-save now later key c d w w' same lim st room =
      rw (load-loaded now later c d w w' same lim st)
        (refl, view-loaded now later key c d w w' same room)
