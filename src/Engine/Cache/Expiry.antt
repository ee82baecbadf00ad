-- ===== src/Engine/Cache/Expiry.antt =====
-- How long `Get` of internal/engine/cache.go finds what `Set` stored.
use pendem.Base.{
  ℕ, zero, suc, ◌+◌, ◌^◌, ◌%◌, ltb, ◌<◌, Bool, true, false, not, leb, none, some, Bytes,
  if◌then◌else◌, ◌≡◌, refl, ◌∙◌, arith,
}
use pendem.Base.Int.{ℤ, pos, negsuc, pos_part, sub_ℕ, wrap64, ◌+ℤ◌}
use pendem.Engine.Item.{new_item, is_expired}
use pendem.Engine.Cache.{Cache, set, get}
use pendem.Engine.Cache.Routing.{IsWhole, get-set}

-- Whether what was set at `now` is still there at `later`.
abbrev pub lives : ℕ → ℤ → ℕ → Bool
lives now (pos zero) later = true
lives now (pos (suc n)) later = leb later (now + suc n)
lives now (negsuc n) later = true

wrap64_small : (n : ℕ) → n < 2 ^ 63 → wrap64 (pos n) ≡ pos n
unfolding wrap64
wrap64_small n h =
    let same : (n + 2 ^ 64) % 2 ^ 64 ≡ n = omega arith in
    let small : ltb n (2 ^ 63) ≡ true = ground arith in rw (same, small) refl

-- The expiration of a new item.
expiration-new_item :
    (now n : ℕ) (value : Bytes)
    → now + suc n < 2 ^ 63
    → (new_item now value (pos (suc n))).expiration ≡ pos (now + suc n)
unfolding new_item ◌+ℤ◌
expiration-new_item now n value h =
    let test : ltb (0 + 0) (suc n + 0) ≡ true = ground arith in
    let sum : sub_ℕ (now + suc n) (0 + 0) ≡ pos (now + suc n) = ground arith in
    rw (test, sum) (wrap64_small (now + suc n) h)

no_expiration : (now n : ℕ) (value : Bytes) → (new_item now value (negsuc n)).expiration ≡ pos 0
unfolding new_item
no_expiration now n value =
    let test : ltb (0 + suc n) (0 + 0) ≡ false = ground arith in rw test refl

is_expired-lives :
    (now later : ℕ) (value : Bytes) (ttl : ℤ)
    → now + pos_part ttl < 2 ^ 63
    → is_expired later (new_item now value ttl) ≡ not (lives now ttl later)
unfolding is_expired
is_expired-lives now later value (pos zero) h = unfold new_item in refl
is_expired-lives now later value (pos (suc n)) h =
    rw (is_expired, expiration-new_item now n value h) (ground arith)
is_expired-lives now later value (negsuc n) h =
    rw (is_expired, no_expiration now n value) (ground arith)

swap :
    (b : Bool) (value : Bytes)
    → (if not b then none else some value) ≡ (if b then some value else none)
swap true value = refl
swap false value = refl

module _ {F : Type 0} where
  -- On a cache that is whole, `Get` after `Set`, with an expiry that is no later than an int64 can
  -- say, returns the value that was set: for ever where the time to live is 0 or negative, and
  -- otherwise up to the time of `Set` and the time to live together; after that it returns nothing.
  pub get-set_until :
      (now later : ℕ) (key value : Bytes) (ttl : ℤ) (c : Cache F)
      → IsWhole c
      → now + pos_part ttl < 2 ^ 63
      → (get later key (set now key value ttl c)).1
        ≡ (if lives now ttl later then some value else none)
  get-set_until now later key value ttl c w fits =
      get-set now later key value ttl c w
      ∙ rw (is_expired-lives now later value ttl fits) (swap (lives now ttl later) value)
