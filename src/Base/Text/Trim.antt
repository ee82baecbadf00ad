-- ===== src/Base/Text/Trim.antt =====
-- What TrimSpace and Trim do with the words of a text.
use mathlib.Core.List.{reverse_aux, reverse-reverse, reverse-append}
use pendem.Base.{
  ℕ, zero, suc, Bool, true, false, not, ◌&&◌, ◌||◌, none, List, [], ◌∷◌, ◌++◌, map, reverse, Bytes,
  ◌==◌, leb, length, ◌≡◌, refl, ap, ap₂, length-append, ◌∙◌, arith,
}
use pendem.Base.Text.{
  cut_prefix, cut_any, trim_left, trim_space, spaces, drop_brackets, trim_brackets,
}

-- A visible character of ASCII.
unfoldable pub is_visible : ℕ → Bool
is_visible c = leb 33 c && leb c 126

-- One that is no bracket, `=` or `#`.
unfoldable pub is_plain : ℕ → Bool
unfolding is_visible
is_plain c = is_visible c && not ((c == 91) || ((c == 93) || ((c == 61) || (c == 35))))

pub reverse_aux-append :
    (s t acc : Bytes) → reverse_aux (s ++ t) acc ≡ reverse_aux t (reverse_aux s acc)
reverse_aux-append [] t acc = refl
reverse_aux-append (c ∷ s) t acc = reverse_aux-append s t (c ∷ acc)

module _ (test : ℕ → Bool) where
  unfoldable pub all_of : Bytes → Bool
  all_of [] = true
  all_of (c ∷ s) = test c && all_of s

  unfoldable pub starts : Bytes → Bool
  starts [] = false
  starts (c ∷ s) = test c

  -- A word of characters that pass the test.
  unfoldable pub is_word : Bytes → Bool
  unfolding all_of starts
  is_word s = starts s && all_of s

  starts-reverse_aux :
      (c : ℕ) (s acc : Bytes)
      → test c ≡ true
      → all_of s ≡ true
      → starts (reverse_aux (c ∷ s) acc) ≡ true
  unfolding starts all_of
  starts-reverse_aux c [] acc first rest = first
  starts-reverse_aux c (d ∷ s) acc first rest =
      starts-reverse_aux d s (c ∷ acc) (ground arith) (ground arith)

pub starts-append :
    (test : ℕ → Bool) (s t : Bytes) → starts test s ≡ true → starts test (s ++ t) ≡ true
unfolding starts
starts-append test [] t h = absurd (ground arith)
starts-append test (c ∷ s) t h = h

hidden_start : Bytes → Bool
hidden_start [] = false
hidden_start (c ∷ s) = not (is_visible c)

all_hidden : List Bytes → Bool
all_hidden [] = true
all_hidden (p ∷ ps) = hidden_start p && all_hidden ps

cut_prefix-visible :
    (p s : Bytes) → hidden_start p ≡ true → starts is_visible s ≡ true → cut_prefix p s ≡ none
unfolding hidden_start starts cut_prefix
cut_prefix-visible [] s hidden visible = absurd (ground arith)
cut_prefix-visible (p ∷ ps) [] hidden visible = refl
cut_prefix-visible (p ∷ ps) (c ∷ s) hidden visible = ground arith

cut_any-visible :
    (ps : List Bytes) (s : Bytes)
    → all_hidden ps ≡ true
    → starts is_visible s ≡ true
    → cut_any ps s ≡ none
unfolding cut_any all_hidden
cut_any-visible [] s hidden visible = refl
cut_any-visible (p ∷ ps) s hidden visible =
    rw (cut_any, cut_prefix-visible p s (ground arith) visible)
      (cut_any-visible ps s (ground arith) visible)

trim_left-visible :
    (ps : List Bytes) (fuel : ℕ) (s : Bytes)
    → all_hidden ps ≡ true
    → starts is_visible s ≡ true
    → trim_left ps fuel s ≡ s
unfolding trim_left
trim_left-visible ps zero s hidden visible = refl
trim_left-visible ps (suc fuel) s hidden visible =
    rw (trim_left, cut_any-visible ps s hidden visible) refl

unfoldable pub ends_no_line : ℕ → Bool
ends_no_line c = not ((c == 10) || (c == 13))

abbrev ends : List Bytes
ends = map (λ p. reverse p) spaces

hidden_spaces : all_hidden spaces ≡ true
unfolding all_hidden hidden_start is_visible
hidden_spaces = refl

hidden_ends : all_hidden ends ≡ true
unfolding all_hidden hidden_start is_visible
hidden_ends = refl

-- A text between visible characters stays as it is.
pub trim_space-visible :
    (s : Bytes)
    → starts is_visible s ≡ true
    → starts is_visible (reverse s) ≡ true
    → trim_space s ≡ s
unfolding trim_space
trim_space-visible s first last =
    let front = trim_left-visible spaces (length s) s hidden_spaces first in
    ap (λ t. reverse (trim_left ends (length t) (reverse t))) front
    ∙ ap (λ t. reverse t) (trim_left-visible ends (length s) (reverse s) hidden_ends last)
    ∙ reverse-reverse s

-- A space behind a text is taken off.
pub trim_space-behind :
    (s : Bytes)
    → starts is_visible s ≡ true
    → starts is_visible (reverse s) ≡ true
    → trim_space (s ++ 32 ∷ []) ≡ s
unfolding trim_space trim_left cut_any cut_prefix starts
trim_space-behind s first last =
    let front =
      trim_left-visible spaces (length (s ++ 32 ∷ [])) (s ++ 32 ∷ []) hidden_spaces
        (starts-append is_visible s (32 ∷ []) first) in
    ap (λ t. reverse (trim_left ends (length t) (reverse t))) front
    ∙ ap₂ (λ n t. reverse (trim_left ends n t)) {y = suc (length s)}
        (length-append s (32 ∷ []) ∙ (omega arith)) (reverse-append s (32 ∷ []))
    ∙ ap (λ t. reverse t) (trim_left-visible ends (length s) (reverse s) hidden_ends last)
    ∙ reverse-reverse s

-- A space before a text is taken off.
pub trim_space-before :
    (s : Bytes)
    → starts is_visible s ≡ true
    → starts is_visible (reverse s) ≡ true
    → trim_space (32 ∷ s) ≡ s
unfolding trim_space trim_left cut_any cut_prefix
trim_space-before s first last = trim_space-visible s first last

module _ (test : ℕ → Bool) where
  -- A word begins and ends with one of its characters, whatever is before and behind it.
  pub word-starts : (s : Bytes) → is_word test s ≡ true → starts test s ≡ true
  unfolding is_word
  word-starts s h = ground arith

  pub word-all_of : (s : Bytes) → is_word test s ≡ true → all_of test s ≡ true
  unfolding is_word
  word-all_of s h = ground arith

  pub all_of-append :
      (s t : Bytes) → all_of test s ≡ true → all_of test t ≡ true → all_of test (s ++ t) ≡ true
  unfolding all_of
  all_of-append [] t hs ht = ht
  all_of-append (c ∷ s) t hs ht = ground (arith, all_of-append s t)

  pub word-ends : (s acc : Bytes) → is_word test s ≡ true → starts test (reverse_aux s acc) ≡ true
  unfolding is_word starts all_of
  word-ends [] acc h = absurd (ground arith)
  word-ends (c ∷ s) acc h = starts-reverse_aux test c s acc (ground arith) (ground arith)

drop_brackets-plain : (s : Bytes) → starts is_plain s ≡ true → drop_brackets s ≡ s
unfolding drop_brackets starts is_plain
drop_brackets-plain [] h = refl
drop_brackets-plain (c ∷ s) h = ground arith

-- The name of a section between its brackets.
pub trim_brackets-word :
    (name : Bytes)
    → is_word is_plain name ≡ true
    → trim_brackets (b'[' ∷ (name ++ b']' ∷ [])) ≡ name
unfolding trim_brackets drop_brackets
trim_brackets-word name h =
    ap (λ t. reverse (drop_brackets (reverse t)))
      (drop_brackets-plain (name ++ b']' ∷ [])
        (starts-append is_plain name (b']' ∷ []) (word-starts is_plain name h)))
    ∙ ap (λ t. reverse (drop_brackets t)) (reverse-append name (b']' ∷ []))
    ∙ ap (λ t. reverse t) (drop_brackets-plain (reverse name) (word-ends is_plain name [] h))
    ∙ reverse-reverse name

module _ (test other : ℕ → Bool) (implies : (c : ℕ) → test c ≡ true → other c ≡ true) where
  pub all_of-implies : (s : Bytes) → all_of test s ≡ true → all_of other s ≡ true
  unfolding all_of
  all_of-implies [] h = refl
  all_of-implies (c ∷ s) h = ground (arith, implies c, all_of-implies s)

  pub starts-implies : (s : Bytes) → starts test s ≡ true → starts other s ≡ true
  unfolding starts
  starts-implies [] h = absurd (ground arith)
  starts-implies (c ∷ s) h = implies c h

plain_implies-visible : (c : ℕ) → is_plain c ≡ true → is_visible c ≡ true
unfolding is_plain
plain_implies-visible c h = ground arith

pub visible_implies-ends_no_line : (c : ℕ) → is_visible c ≡ true → ends_no_line c ≡ true
unfolding is_visible ends_no_line
visible_implies-ends_no_line c h = ground arith

-- Plain characters are visible.
pub plain-visible : (s : Bytes) → is_word is_plain s ≡ true → is_word is_visible s ≡ true
unfolding is_word
plain-visible s h = ground (
  arith,
  starts-implies is_plain is_visible plain_implies-visible s,
  all_of-implies is_plain is_visible plain_implies-visible s,
)
