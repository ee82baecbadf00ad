-- ===== src/Engine/Item.antt =====
-- internal/engine/item.go, at V = string: the only instance that the program builds. Times are
-- nanoseconds since 1970, and `now` is what `time.Now()` returns in the call.
use pendem.Base.{ℕ, Bool, false, Bytes, if◌then◌else◌, ◌==◌}
use pendem.Base.Int.{ℤ, pos, negsuc, ◌+ℤ◌, ltb_ℤ, wrap64, sub_ℕ, pos_part, neg_part}
use pendem.Base.{◌+◌}

pub record Item : Type 0 where
  pub value : Bytes
  pub expiration : ℤ
  pub created_at : ℤ

-- `e == 0`
abbrev pub is_zero : ℤ → Bool
is_zero (pos n) = n == 0
is_zero (negsuc n) = false

unfoldable pub new_item : ℕ → Bytes → ℤ → Item
unfolding wrap64 ◌+ℤ◌
new_item now value ttl = record {
  value = value;
  expiration = if ltb_ℤ (pos 0) ttl then wrap64 (pos now +ℤ ttl) else pos 0;
  created_at = pos now;
}

unfoldable pub is_expired : ℕ → Item → Bool
is_expired now i = if is_zero i.expiration then false else ltb_ℤ i.expiration (pos now)

-- The time left: -1 with no expiration, and 0 once it has passed.
unfoldable pub item_ttl : ℕ → Item → ℤ
item_ttl now i =
    if is_zero i.expiration
    then negsuc 0
    else let remaining = sub_ℕ (pos_part i.expiration) (now + neg_part i.expiration) in
      if ltb_ℤ remaining (pos 0) then pos 0 else remaining
