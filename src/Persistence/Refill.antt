-- ===== src/Persistence/Refill.antt =====
-- Shards into which the items of other shards are restored, one by one: what both formats of the
-- snapshots come to. What is taken out of a shard is a parameter.
use mathlib.Core.Option.{some-injective}
use pendem.Base.{
  ℕ, zero, suc, ◌≡◌, refl, sym, ap, ◌∙◌, Option, none, some, List, [], ◌∷◌, ◌++◌, Bytes, Map, IsMap,
  lookup, length, get_elem?, set as set_elem, All, Option-cases, inl, inr,
}
use pendem.Engine.Item.{Item}
use pendem.Engine.Lru.Invariant.{IsValid}
use pendem.Engine.Lru.Lookups.{find}
use pendem.Engine.Shard
use pendem.Engine.Shard.{Shard}
use pendem.Engine.Shard.Fill.{HasRoomFor, first_found, find-restore_loop}
use pendem.Engine.Cache.{Cache, get_shard, shard_index}
use pendem.Engine.Cache.Routing.{IsWhole, view, view-some, get_shard-some}

pub set_elem-middle {ℓ} :
    {A : Type ℓ} (pre : List A) (x y : A) (post : List A)
    → set_elem (pre ++ x ∷ post) (length pre) y ≡ pre ++ y ∷ post
set_elem-middle [] x y post = refl
set_elem-middle (a ∷ pre) x y post = ap (◌∷◌ a) (set_elem-middle pre x y post)

pub get_elem?-middle {ℓ} :
    {A : Type ℓ} (pre : List A) (x : A) (post : List A)
    → get_elem? (pre ++ x ∷ post) (length pre) ≡ some x
get_elem?-middle [] x post = refl
get_elem?-middle (a ∷ pre) x post = get_elem?-middle pre x post

module _ {F : Type 0} where
  unfoldable held : Bytes → Option (Shard F) → Option Item
  held key none = none
  held key (some s) = find key s.evictor

  view-held : (key : Bytes) (c : Cache F) → view key c ≡ held key (get_shard key c)
  unfolding view held
  view-held key c = elim (Option-cases (get_shard key c)) [
    | inl e ↦ rw (view, e) refl
    | inr (s, e) ↦ rw (view, e) refl
  ]

module _ {F : Type 0} (items_of : Shard F → Map Item) where
  unfoldable pub refill_all : List (Shard F) → List (Shard F) → List (Shard F)
  refill_all [] ts = ts
  refill_all (s ∷ ss) [] = []
  refill_all (s ∷ ss) (t ∷ ts) = Shard.restore (items_of s) t ∷ refill_all ss ts

  -- Every shard has room for what is restored into it.
  abbrev pub HasRoomForAll : List (Shard F) → List (Shard F) → Type 0
  HasRoomForAll [] ts = Unit {0}
  HasRoomForAll (s ∷ ss) [] = Unit {0}
  HasRoomForAll (s ∷ ss) (t ∷ ts) = HasRoomFor (items_of s) t.evictor × HasRoomForAll ss ts

  find-refill_all :
      (key : Bytes) (i : ℕ) (ss ts : List (Shard F)) {s t : Shard F}
      → All (λ u. IsMap (items_of u)) ss
      → All (λ u. IsValid u.evictor) ts
      → HasRoomForAll ss ts
      → get_elem? ss i ≡ some s
      → get_elem? ts i ≡ some t
      → held key (get_elem? (refill_all ss ts) i)
        ≡ first_found (lookup key (items_of s)) (find key t.evictor)
  unfolding refill_all held Shard.restore
  find-refill_all key i [] ts us ws room e e' = cc
  find-refill_all key i (s ∷ ss) [] us ws room e e' = cc
  find-refill_all key zero (s ∷ ss) (t ∷ ts) us ws room e e' =
      rw (← some-injective s _ e, ← some-injective t _ e')
        (find-restore_loop (items_of s) t.evictor key us.0 ws.0 room.0)
  find-refill_all key (suc i) (s ∷ ss) (t ∷ ts) us ws room e e' =
      find-refill_all key i ss ts us.1 ws.1 room.1 e e'

  -- A cache into whose shards those of another of the same number were restored.
  pub view-refill_all :
      (key : Bytes) (c d : Cache F) (s : Shard F)
      → IsWhole d
      → c.num_shards ≡ d.num_shards
      → All (λ u. IsMap (items_of u)) c.shards
      → HasRoomForAll c.shards d.shards
      → get_shard key c ≡ some s
      → view key (record d { shards = refill_all c.shards d.shards })
        ≡ first_found (lookup key (items_of s)) (view key d)
  unfolding get_shard
  view-refill_all key c d s w same us room at_c =
      let (t, e') = get_shard-some key d w in
      view-held key (record d { shards = refill_all c.shards d.shards })
      ∙ find-refill_all key (shard_index d.num_shards key) c.shards d.shards us w.valid room
          (rw same at at_c) e'
      ∙ ap (first_found (lookup key (items_of s))) (sym (view-some key d e'))
