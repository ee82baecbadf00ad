-- ===== src/Engine/Pattern.antt =====
-- internal/engine/pattern.go, with what it uses of `strings`.
pub mod Globs
use pendem.Base.{
  ◌≡◌, refl, ◌-◌, Bool, true, false, ◌&&◌, ◌||◌, [], ◌∷◌, Bytes, codes, equal, length, take, drop,
  ltb, if◌then◌else◌, ◌==◌,
}

-- strings.HasPrefix(s, p)
unfoldable pub has_prefix : Bytes → Bytes → Bool
has_prefix s [] = true
has_prefix [] (p ∷ ps) = false
has_prefix (c ∷ s) (p ∷ ps) = c == p && has_prefix s ps

-- strings.HasSuffix(s, p)
unfoldable pub has_suffix : Bytes → Bytes → Bool
has_suffix s p = if ltb (length s) (length p) then false else equal (drop (length s - length p) s) p

-- strings.Contains(s, p)
unfoldable pub contains : Bytes → Bytes → Bool
unfolding has_prefix
contains [] p = has_prefix [] p
contains (c ∷ s) p = has_prefix (c ∷ s) p || contains s p

unfoldable pub match_pattern : Bytes → Bytes → Bool
unfolding has_prefix has_suffix contains
match_pattern key pattern =
    if equal pattern (codes "*")
    then true
    else if has_prefix pattern (codes "*") && has_suffix pattern (codes "*")
    then contains key (take (length pattern - 2) (drop 1 pattern))
    else if has_prefix pattern (codes "*")
    then has_suffix key (drop 1 pattern)
    else if has_suffix pattern (codes "*")
    then has_prefix key (take (length pattern - 1) pattern)
    else equal key pattern

abbrev pub star : Bytes
star = codes "*"

pub match-star : (key : Bytes) → match_pattern key star ≡ true
unfolding match_pattern equal
match-star key = refl
