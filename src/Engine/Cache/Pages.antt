-- ===== src/Engine/Cache/Pages.antt =====
-- One page of `Scan` of internal/engine/cache.go, for the pattern `*`.
use pendem.Base.{
  ℕ, zero, suc, ◌+◌, ◌-◌, ◌*◌, ◌/◌, ◌%◌, some, ◌≤◌, ◌<◌, ◌≡◌, refl, sym, ap, ◌∙◌, true, false, inl,
  inr, Bool-cases, List, [], ◌∷◌, ◌++◌, ◌⊎◌, leb, Bytes, All, length, take, drop, ltb, append_assoc,
  append-nil, length-append, take-append, drop-append, take-append_past, drop-append_past,
  drop-drop, length-drop, length-take, arith,
}
use pendem.Base.Int.{ℤ, pos, sub_ℕ}
use pendem.Engine.Lru
use pendem.Engine.Pattern.{star, match-star}
use pendem.Engine.ListValue.Ranges.{take_all}
use pendem.Engine.Shard
use pendem.Engine.Shard.{Shard, scan_loop}
use pendem.Engine.Cache
use pendem.Engine.Cache.{Cache, scan_shards, widen}

within : (m n : ℕ) → (m ≤ n) ⊎ (n < m)
within m n = elim (Bool-cases (leb m n)) [
  | inl h ↦ inl (ground (arith, h))
  | inr h ↦ inr (ground (arith, h))
]

scan_loop-star : (limit : ℕ) (keys : List Bytes) → scan_loop star limit keys ≡ take limit keys
unfolding scan_loop
scan_loop-star zero [] = refl
scan_loop-star zero (key ∷ keys) = refl
scan_loop-star (suc limit) [] = refl
scan_loop-star (suc limit) (key ∷ keys) =
    rw (scan_loop, match-star key) (ap (λ t. key ∷ t) (scan_loop-star limit keys))

All-drop : {A : Type 0} (P : A → Type 0) (n : ℕ) (xs : List A) → All P xs → All P (drop n xs)
All-drop P zero xs h = h
All-drop P (suc n) [] h = h
All-drop P (suc n) (x ∷ xs) h = All-drop P n xs h.1

scan_shards_end :
    (F : Type 0) (now i offset : ℕ) (count : ℤ) (acc : List Bytes)
    → scan_shards {F = F} now star count i offset acc [] ≡ (acc, 0)
unfolding scan_shards
scan_shards_end F now i offset count acc = refl

module _ {F : Type 0} (now : ℕ) where
  abbrev pub keys_of : Shard F → List Bytes
  keys_of s = Lru.get_keys now s.evictor

  abbrev pub all_keys : List (Shard F) → List Bytes
  all_keys [] = []
  all_keys (s ∷ ss) = keys_of s ++ all_keys ss

  -- The keys that are left from an offset in the first shard on.
  abbrev pub remaining : ℕ → List (Shard F) → List Bytes
  remaining offset [] = []
  remaining offset (s ∷ ss) = drop offset (keys_of s) ++ all_keys ss

  remaining_start : (ss : List (Shard F)) → remaining 0 ss ≡ all_keys ss
  remaining_start [] = refl
  remaining_start (s ∷ ss) = refl

  -- A cursor has four digits for the offset.
  abbrev pub IsSmall : Shard F → Type 0
  IsSmall s = length (keys_of s) < 10000

  -- What a scan from shard `i` gives, for `n` keys of which it has `acc`: all that is left, or the
  -- next keys with a cursor to those behind them.
  data Page (n : ℕ) (acc : List Bytes) (i : ℕ) (ss : List (Shard F)) (left : List Bytes)
      (result : List Bytes × ℕ) : Type 0 where
    last : length left < n → result ≡ (acc ++ left, 0) → Page n acc i ss left result
    more :
        (d o : ℕ)
        → n ≤ length left
        → o < 10000
        → 0 < o
        → result ≡ (acc ++ take n left, (i + d) * 10000 + o)
        → remaining o (drop d ss) ≡ drop n left
        → Page n acc i ss left result

  found_here :
      (offset n : ℕ) (s : Shard F)
      → Shard.scan now offset star (pos n) s
        ≡ (take n (drop offset (keys_of s)), offset + length (take n (drop offset (keys_of s))))
  unfolding Shard.scan
  found_here offset n s = rw (scan_loop-star n (drop offset (keys_of s))) refl

  -- The step of the loop at one shard: it ends the page, or goes on with all of the shard's keys.
  scan_shards_stop :
      (n k i offset : ℕ) (acc : List Bytes) (s : Shard F) (ss : List (Shard F))
      → length acc + n ≡ k
      → n ≤ length (drop offset (keys_of s))
      → scan_shards now star (pos k) i offset acc (s ∷ ss)
        ≡ (acc ++ take n (drop offset (keys_of s)), i * 10000 + (offset + n))
  unfolding scan_shards
  scan_shards_stop n k i offset acc s ss e h =
      let left : sub_ℕ k (0 + length acc) ≡ pos n = ground arith in
      let size = length-take n (drop offset (keys_of s)) h in
      let full : length (acc ++ take n (drop offset (keys_of s))) ≡ k =
        omega (arith, length-append acc (take n (drop offset (keys_of s))), size) in
      let stop : ltb (k + 0) (k + 0) ≡ false = ground arith in
      rw (left, found_here offset n s, full, size, stop) refl

  scan_shards_next :
      (n k i offset : ℕ) (acc : List Bytes) (s : Shard F) (ss : List (Shard F))
      → length acc + n ≡ k
      → length (drop offset (keys_of s)) < n
      → scan_shards now star (pos k) i offset acc (s ∷ ss)
        ≡ scan_shards now star (pos k) (i + 1) 0 (acc ++ drop offset (keys_of s)) ss
  unfolding scan_shards
  scan_shards_next n k i offset acc s ss e h =
      let left : sub_ℕ k (0 + length acc) ≡ pos n = ground arith in
      let d = drop offset (keys_of s) in
      let size = length-append acc d in
      let go : ltb (length (acc ++ d) + 0) (k + 0) ≡ true = ground (arith, size) in
      rw (left, found_here offset n s, take_all n (drop offset (keys_of s)) (omega arith), go) refl

  -- A page of the shards behind the first is one of all of them.
  Page-next :
      (n i offset : ℕ) (acc : List Bytes) (s : Shard F) (ss : List (Shard F))
      (result : List Bytes × ℕ)
      → length (drop offset (keys_of s)) < n
      → Page
          (n - length (drop offset (keys_of s)))
          (acc ++ drop offset (keys_of s))
          (i + 1)
          ss
          (remaining 0 ss)
          result
      → Page n acc i (s ∷ ss) (remaining offset (s ∷ ss)) result
  Page-next n i offset acc s ss result h (last short e) =
      let here = drop offset (keys_of s) in
      let start = remaining_start ss in
      let short' : length (all_keys ss) < n - length here = rw (sym start) short in
      last (omega (arith, length-append here (all_keys ss), short'))
        (e ∙ rw (start, append_assoc acc here (all_keys ss)) refl)
  Page-next n i offset acc s ss result h (more d o long small positive e behind) =
      let here = drop offset (keys_of s) in
      let start = remaining_start ss in
      let long' : n - length here ≤ length (all_keys ss) = rw (sym start) long in
      let shift : i + 1 + d ≡ i + suc d = omega arith in
      more (suc d) o (omega (arith, length-append here (all_keys ss), long')) small positive
        (e
          ∙ rw
              (
                start,
                shift,
                take-append_past n here (all_keys ss) (omega arith),
                append_assoc acc here (take (n - length here) (all_keys ss)),
              )
              refl)
        (behind ∙ rw (start, drop-append_past n here (all_keys ss) (omega arith)) refl)

  scan_shards-Page :
      (n k : ℕ) (i offset : ℕ) (acc : List Bytes) (ss : List (Shard F))
      → All IsSmall ss
      → 0 < n
      → length acc + n ≡ k
      → Page n acc i ss (remaining offset ss) (scan_shards now star (pos k) i offset acc ss)
  scan_shards-Page n k i offset acc [] small positive e =
      last (omega arith) (scan_shards_end F now i offset (pos k) acc ∙ rw (append-nil acc) refl)
  scan_shards-Page n k i offset acc (s ∷ ss) small positive e =
      let here = drop offset (keys_of s) in
      let zero_shift : i + 0 ≡ i = omega arith in
      elim (within n (length here)) [
        | inl h ↦
            more 0 (offset + n) (omega (arith, length-append here (all_keys ss), h))
              (omega (arith, length-drop offset (keys_of s), small.0, h)) (omega arith)
              (scan_shards_stop n k i offset acc s ss e h
                ∙ rw (take-append n here (all_keys ss) h, zero_shift) refl)
              (rw (drop-append n here (all_keys ss) h, drop-drop n offset (keys_of s)) refl)
        | inr h ↦
            Page-next n i offset acc s ss (scan_shards now star (pos k) i offset acc (s ∷ ss)) h (
              rw (scan_shards_next n k i offset acc s ss e h) (
                scan_shards-Page (n - length here) k (i + 1) 0 (acc ++ here) ss small.1
                  (omega arith) (omega (arith, length-append acc here, e, h))))
      ]

scan_at :
    {F : Type 0} (now i o n : ℕ) (c : Cache F)
    → o < 10000
    → Cache.scan now (pos (i * 10000 + o)) star (pos n) c
      ≡ some (widen (scan_shards now star (pos n) i o [] (drop i c.shards)))
unfolding Cache.scan
scan_at now i o n c h =
    let shard : (i * 10000 + o) / 10000 ≡ i = omega arith in
    let offset : (i * 10000 + o) % 10000 ≡ o = omega arith in rw (shard, offset) refl

-- One reply of the scan of all keys, from the offset `o` of shard `i` on, where no shard has 10000
-- keys: with fewer than `n` keys left it has them all and the cursor 0, otherwise it has the next
-- `n` and a cursor other than 0, at which the keys behind them are left. The keys stand in the order
-- in which this call iterates the maps.
pub scan-remaining :
    {F : Type 0} (now i o n : ℕ) (c : Cache F)
    → All (IsSmall now) c.shards
    → o < 10000
    → 0 < n
    → let left = remaining now o (drop i c.shards) in
      let reply = Cache.scan now (pos (i * 10000 + o)) star (pos n) c in
      ((length left < n) × (reply ≡ some (left, pos 0)))
      ⊎ ((n ≤ length left)
          × ((j : ℕ) × (p : ℕ) × (reply ≡ some (take n left, pos (j * 10000 + p)))
              × (0 < p)
              × (p < 10000)
              × (remaining now p (drop j c.shards) ≡ drop n left)))
scan-remaining now i o n c small h positive =
    elim (scan_shards-Page now n n i o [] (drop i c.shards)
      (All-drop (IsSmall now) i c.shards small) positive (omega arith)) [
        | last short e ↦ inl (short, scan_at now i o n c h ∙ ap (λ r. some (widen r)) e)
        | more d p long below above e behind ↦ inr (
          long,
          (
            i + d,
            p,
            scan_at now i o n c h ∙ ap (λ r. some (widen r)) e,
            above,
            below,
            rw (sym (drop-drop d i c.shards)) behind,
          ),
        )
      ]
