-- ===== src/Config/Lines.antt =====
-- A file of settings as `parser.go` reads it, line by line.
use mathlib.Core.List.{reverse_aux, reverse-append}
use pendem.Base.{
  ◌<◌, true, false, none, List, [], ◌∷◌, ◌++◌, reverse, Bytes, All, codes, equal, length, lookup,
  ◌≡◌, refl, ap, ◌∙◌, arith,
}
use pendem.Base.Text.{
  has_prefix, has_suffix, cut_prefix, trim_space, scan_lines, scan_lines_loop, max_token_size,
}
use pendem.Base.Text.Lines.{split_at-plain, scan_lines_loop-line}
use pendem.Base.Text.Trim.{
  reverse_aux-append, all_of-append, all_of-implies, starts-implies, word-all_of,
  visible_implies-ends_no_line, is_visible, is_plain, all_of, starts, is_word, ends_no_line,
  trim_space-visible, trim_space-behind, trim_space-before, starts-append, word-starts, word-ends,
  trim_brackets-word, plain-visible,
}
use pendem.Config.Parser.{
  ConfigParser, new_config_parser, open_section, assign, parse_line, parse_lines, parse, get_string,
}
use pendem.Config.Settings.{Settings, setting, assign_all, enter, get_string-enter}

unfoldable pub section_line : Bytes → Bytes
section_line name = b'[' ∷ (name ++ b']' ∷ [])

unfoldable pub setting_line : Bytes → Bytes → Bytes
setting_line key value = key ++ 32 ∷ b'=' ∷ 32 ∷ value

unfoldable pub setting_lines : List (Bytes × Bytes) → List Bytes → List Bytes
setting_lines [] lines = lines
setting_lines ((k, v) ∷ kvs) lines = setting_line k v ∷ setting_lines kvs lines

-- The lines of a file with some settings.
unfoldable pub file_lines : Settings → List Bytes
unfolding setting_lines
file_lines [] = []
file_lines ((name, kvs) ∷ ss) = section_line name ∷ setting_lines kvs (file_lines ss)

unfoldable pub unlines : List Bytes → Bytes
unlines [] = []
unlines (line ∷ lines) = line ++ 10 ∷ unlines lines

-- A key is a word without brackets, `=` and `#`; a value is a word; the line is not too long.
abbrev IsSetting : Bytes × Bytes → Type 0
IsSetting kv =
    (is_word is_plain kv.0 ≡ true)
    × (is_word is_visible kv.1 ≡ true)
    × (length (setting_line kv.0 kv.1) < max_token_size)

-- So is the name of a section.
abbrev pub IsSection : Bytes × List (Bytes × Bytes) → Type 0
IsSection s =
    (is_word is_plain s.0 ≡ true) × (length (section_line s.0) < max_token_size) × All IsSetting s.1

parse_line-section :
    (name section : Bytes) (p : ConfigParser)
    → is_word is_plain name ≡ true
    → parse_line (section_line name) (p, section) ≡ (open_section name p, name)
unfolding parse_line section_line equal starts is_visible has_prefix has_suffix cut_prefix
parse_line-section name section p h =
    let line = b'[' ∷ (name ++ b']' ∷ []) in
    let last : reverse line ≡ b']' ∷ reverse (b'[' ∷ name) =
      reverse-append (b'[' ∷ name) (b']' ∷ []) in
    let trimmed : trim_space line ≡ line = trim_space-visible line refl (rw last refl) in
    let closed : has_suffix (codes "]") line ≡ true = rw (has_suffix, last) refl in
    rw (trimmed, closed, trim_brackets-word name h) refl

plain_start :
    (s : Bytes)
    → starts is_plain s ≡ true
    → (equal s [] ≡ false) × (has_prefix (codes "#") s ≡ false) × (has_prefix (codes "[") s ≡ false)
unfolding starts is_plain equal has_prefix cut_prefix
plain_start [] h = absurd (ground arith)
plain_start (c ∷ s) h = (refl, ground arith, ground arith)

setting_line-ends :
    (key value : Bytes)
    → is_word is_visible value ≡ true
    → starts is_visible (reverse (setting_line key value)) ≡ true
unfolding setting_line
setting_line-ends key value h =
    ap (starts is_visible) (reverse_aux-append key (32 ∷ b'=' ∷ 32 ∷ value) [])
    ∙ word-ends is_visible value (32 ∷ b'=' ∷ 32 ∷ reverse_aux key []) h

parse_line-setting :
    (key value section : Bytes) (p : ConfigParser)
    → is_word is_plain key ≡ true
    → is_word is_visible value ≡ true
    → equal section [] ≡ false
    → parse_line (setting_line key value) (p, section) ≡ (assign section key value p, section)
unfolding parse_line setting_line
parse_line-setting key value section p hk hv hs =
    let line = key ++ 32 ∷ b'=' ∷ 32 ∷ value in
    let vk = plain-visible key hk in
    let start = starts-append is_plain key (32 ∷ b'=' ∷ 32 ∷ value) (word-starts is_plain key hk) in
    let (filled, setting, bare) = plain_start line start in
    let visible =
      starts-append is_visible key (32 ∷ b'=' ∷ 32 ∷ value) (word-starts is_visible key vk) in
    let trimmed : trim_space line ≡ line =
      trim_space-visible line visible (setting_line-ends key value hv) in
    let split = split_at-plain key (32 ∷ value) (word-all_of is_plain key hk) in
    let left =
      trim_space-behind key (word-starts is_visible key vk) (word-ends is_visible key [] vk) in
    let right =
      trim_space-before value (word-starts is_visible value hv)
        (word-ends is_visible value [] hv) in
    rw (trimmed, filled, setting, bare, hs, split, left, right) refl

parse_lines-setting_lines :
    (name : Bytes) (kvs : List (Bytes × Bytes)) (lines : List Bytes) (p : ConfigParser)
    → equal name [] ≡ false
    → All IsSetting kvs
    → parse_lines (setting_lines kvs lines) (p, name)
      ≡ parse_lines lines (assign_all name kvs p, name)
unfolding parse_lines setting_lines assign_all
parse_lines-setting_lines name [] lines p named all = refl
parse_lines-setting_lines name ((k, v) ∷ kvs) lines p named all =
    ap (parse_lines (setting_lines kvs lines)) (parse_line-setting k v name p all.0.0 all.0.1 named)
    ∙ parse_lines-setting_lines name kvs lines (assign name k v p) named all.1

parse_lines-file_lines :
    (ss : Settings) (section : Bytes) (p : ConfigParser)
    → All IsSection ss
    → (parse_lines (file_lines ss) (p, section)).0 ≡ enter ss p
unfolding parse_lines file_lines enter
parse_lines-file_lines [] section p all = refl
parse_lines-file_lines ((name, kvs) ∷ ss) section p all =
    ap (λ r. (parse_lines (setting_lines kvs (file_lines ss)) r).0)
      (parse_line-section name section p all.0.0)
    ∙ ap (λ r. r.0)
        (parse_lines-setting_lines name kvs (file_lines ss) (open_section name p)
          (plain_start name (word-starts is_plain name all.0.0)).0 all.0.2)
    ∙ parse_lines-file_lines ss name (assign_all name kvs (open_section name p)) all.1

abbrev IsLine : Bytes → Type 0
IsLine line =
    (all_of ends_no_line line ≡ true)
    × (starts ends_no_line (reverse line) ≡ true)
    × (length line < max_token_size)

scan_lines-unlines :
    (lines : List Bytes) → All IsLine lines → scan_lines (unlines lines) ≡ (lines, true)
unfolding scan_lines unlines scan_lines_loop
scan_lines-unlines [] all = refl
scan_lines-unlines (line ∷ lines) all =
    scan_lines_loop-line line (unlines lines) all.0.0 all.0.1 all.0.2
    ∙ ap (λ r. (line ∷ r.0, r.1)) (scan_lines-unlines lines all.1)

visible-all_of : (s : Bytes) → is_word is_visible s ≡ true → all_of ends_no_line s ≡ true
visible-all_of s h =
    all_of-implies is_visible ends_no_line visible_implies-ends_no_line s
      (word-all_of is_visible s h)

section_line-IsLine :
    (name : Bytes)
    → is_word is_plain name ≡ true
    → length (section_line name) < max_token_size
    → IsLine (section_line name)
unfolding section_line ends_no_line all_of starts
section_line-IsLine name h short = (
  all_of-append ends_no_line (b'[' ∷ name) (b']' ∷ []) (visible-all_of name (plain-visible name h))
      refl,
  ap (starts ends_no_line) (reverse-append (b'[' ∷ name) (b']' ∷ [])),
  short,
)

setting_line-IsLine : (kv : Bytes × Bytes) → IsSetting kv → IsLine (setting_line kv.0 kv.1)
unfolding setting_line ends_no_line all_of
setting_line-IsLine (k, v) h = (
  all_of-append ends_no_line k (32 ∷ b'=' ∷ 32 ∷ v) (visible-all_of k (plain-visible k h.0))
      (visible-all_of v h.1),
  starts-implies is_visible ends_no_line visible_implies-ends_no_line (reverse (setting_line k v))
      (setting_line-ends k v h.1),
  h.2,
)

setting_lines-IsLine :
    (kvs : List (Bytes × Bytes)) (lines : List Bytes)
    → All IsSetting kvs
    → All IsLine lines
    → All IsLine (setting_lines kvs lines)
unfolding setting_lines
setting_lines-IsLine [] lines h rest = rest
setting_lines-IsLine (kv ∷ kvs) lines h rest =
    (setting_line-IsLine kv h.0, setting_lines-IsLine kvs lines h.1 rest)

file_lines-IsLine : (ss : Settings) → All IsSection ss → All IsLine (file_lines ss)
unfolding file_lines
file_lines-IsLine [] all = tt
file_lines-IsLine ((name, kvs) ∷ ss) all = (
  section_line-IsLine name all.0.0 all.0.1,
  setting_lines-IsLine kvs (file_lines ss) all.0.2 (file_lines-IsLine ss all.1),
)

-- A file of sections and settings, a line for each, in which names and keys are words without
-- brackets, `=` and `#`, values are words, and no line is too long, is parsed without an error, and
-- `GetString` then finds the last setting of its key in its section, and nothing else.
pub get_string-parse :
    (ss : Settings) (section key : Bytes)
    → All IsSection ss
    → ((parse (unlines (file_lines ss)) new_config_parser).1 ≡ true)
      × (get_string section key (parse (unlines (file_lines ss)) new_config_parser).0
          ≡ setting section key ss none)
unfolding parse get_string lookup
get_string-parse ss section key all =
    let scanned = scan_lines-unlines (file_lines ss) (file_lines-IsLine ss all) in
    (
      ap (λ r. r.1) scanned,
      ap (λ r. get_string section key (parse_lines r.0 (new_config_parser, [])).0) scanned
          ∙ ap (get_string section key) (parse_lines-file_lines ss [] new_config_parser all)
          ∙ get_string-enter section key ss new_config_parser
          ∙ refl,
    )
