-- ===== src/Persistence/Replay/Scores.antt =====
-- ZADD against its replay, where every score is a float.
use pendem.Base.{
  ℕ, ◌+◌, Bool, true, false, Option, none, some, List, [], ◌∷◌, Bytes, codes, equal, Option-cases,
  if◌then◌else◌, ◌≡◌, inl, inr, refl, arith,
}
use pendem.Engine.SortedSet
use pendem.Engine.SortedSet.{SortedSet, Floats}
use pendem.Engine.Cache
use pendem.Engine.Cache.{Cache}
use pendem.Resp.{RespValue}
use pendem.Handler.{Handler, pairs_of}
use pendem.Handler.SortedSets.{add_scores, zadd_cache, zadd_reply, zadd}
use pendem.Persistence.Replay.{added, replay_zadd, replay_named}
use pendem.Persistence.Replay.Handlers.{ReplaysTo, Replays}

module _ {F : Type 0} (fl : Floats F) where
  unfoldable pub scores_read : List (Bytes × Bytes) → Bool
  scores_read [] = true
  scores_read ((s, member) ∷ ps) =
      let rest = scores_read ps in elim (fl.parse_float s) [ none ↦ false | some score ↦ rest ]

  abbrev pairs_read : Option (List (Bytes × Bytes)) → Bool
  pairs_read none = true
  pairs_read (some ps) = scores_read ps

  -- The scores of ZADD are floats, where there is a member for each.
  unfoldable pub is_scored : List Bytes → Bool
  is_scored (key ∷ score ∷ member ∷ rest) = pairs_read (pairs_of (score ∷ member ∷ rest))
  is_scored _ = true

  add_scores-some :
      (ps : List (Bytes × Bytes)) (ss : SortedSet F) (n : ℕ)
      → scores_read ps ≡ true
      → (k : ℕ) × ((add_scores fl ps ss n).1 ≡ some k)
  unfolding add_scores scores_read
  add_scores-some [] ss n h = (n, refl)
  add_scores-some ((s, member) ∷ ps) ss n h = elim (Option-cases (fl.parse_float s)) [
    | inl e ↦ absurd (ground (arith, h, e))
    | inr (score, e) ↦
        let (ss', fresh) = SortedSet.add ss score member in
        let (k, found) =
          add_scores-some ps ss' (if fresh then n + 1 else n) (ground (arith, h, e)) in
        (k, rw (add_scores, e) found)
  ]

  zadd_reply-ReplaysTo :
      (args : List Bytes) (h : Handler F) (c : Cache F) (o : Option ℕ) (k : ℕ)
      → o ≡ some k
      → ReplaysTo fl (codes "ZADD") args (added fl (c, o)) h (zadd_reply fl args h (c, o)).0
  unfolding added zadd_reply
  zadd_reply-ReplaysTo args h c none k e = cc
  zadd_reply-ReplaysTo args h c (some n) k e = inr (c, refl, refl)

  zadd_pairs-ReplaysTo :
      (o : Option (List (Bytes × Bytes))) (key : Bytes) (args : List Bytes) (h : Handler F)
      (refused : RespValue)
      → pairs_read o ≡ true
      → ReplaysTo fl
          (codes "ZADD")
          args
          (elim o [ none ↦ (h.cache, false) | some ps ↦ added fl (zadd_cache fl key ps h.cache) ])
          h
          (elim o as (λ _. Handler F × RespValue) [
            | none ↦ (h, refused)
            | some ps ↦ zadd_reply fl args h (zadd_cache fl key ps h.cache)
          ]).0
  unfolding zadd_cache
  zadd_pairs-ReplaysTo none key args h refused e = inl refl
  zadd_pairs-ReplaysTo (some ps) key args h refused e =
      let (c, ss) = Cache.get_or_create_sorted_set key h.cache in
      let (k, found) = add_scores-some ps ss 0 e in
      zadd_reply-ReplaysTo args h (Cache.store_sorted_set key (add_scores fl ps ss 0).0 c)
        (add_scores fl ps ss 0).1 k found

  pub zadd-Replays :
      (now : ℕ) (args : List Bytes) (h : Handler F)
      → is_scored args ≡ true
      → Replays fl now (codes "ZADD") args h (zadd fl now args h).0
  unfolding zadd replay_named replay_zadd equal is_scored
  zadd-Replays now [] h e = inl refl
  zadd-Replays now (a ∷ []) h e = inl refl
  zadd-Replays now (a ∷ b ∷ []) h e = inl refl
  zadd-Replays now (key ∷ score ∷ member ∷ rest) h e =
      zadd_pairs-ReplaysTo (pairs_of (score ∷ member ∷ rest)) key (key ∷ score ∷ member ∷ rest) h _
        e
