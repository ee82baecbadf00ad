-- ===== src/Config/Settings.antt =====
-- What a file with settings sets, and what the parser has of a setting.
use pendem.Base.{
  Option, none, some, List, [], ◌∷◌, Bytes, Map, equal, equal_iff, lookup, insert, lookup-insert,
  Bool-cases, inl, inr, if◌then◌else◌, ◌≡◌, refl, ap, ◌∙◌, arith,
}
use pendem.Config.Parser.{ConfigParser, section_of, open_section, assign, get_string}

-- Sections with their settings, in the order of the file.
abbrev pub Settings : Type 0
Settings = List (Bytes × List (Bytes × Bytes))

-- The last setting of a key wins.
unfoldable pub latest : Bytes → List (Bytes × Bytes) → Option Bytes → Option Bytes
latest key [] old = old
latest key ((k, v) ∷ kvs) old = latest key kvs (if equal k key then some v else old)

unfoldable pub setting : Bytes → Bytes → Settings → Option Bytes → Option Bytes
unfolding latest
setting section key [] old = old
setting section key ((name, kvs) ∷ ss) old =
    setting section key ss (if equal name section then latest key kvs old else old)

-- The settings, entered one by one.
unfoldable pub assign_all : Bytes → List (Bytes × Bytes) → ConfigParser → ConfigParser
assign_all name [] p = p
assign_all name ((k, v) ∷ kvs) p = assign_all name kvs (assign name k v p)

unfoldable pub enter : Settings → ConfigParser → ConfigParser
unfolding assign_all
enter [] p = p
enter ((name, kvs) ∷ ss) p = enter ss (assign_all name kvs (open_section name p))

get_string-section_of :
    (section key : Bytes) (p : ConfigParser)
    → get_string section key p ≡ lookup key (section_of (lookup section p.sections))
unfolding get_string lookup
get_string-section_of section key p =
    elim (lookup section p.sections)
      as (λ found.
        (elim found as (λ _. Option Bytes) [ none ↦ none | some values ↦ lookup key values ])
        ≡ lookup key (section_of found)) [ none ↦ refl | some values ↦ refl ]

get_string-insert :
    (section key name : Bytes) (values : Map Bytes) (p : ConfigParser)
    → get_string section key (record p { sections = insert name values p.sections })
      ≡ (if equal name section then lookup key values else get_string section key p)
unfolding get_string
get_string-insert section key name values p = elim (Bool-cases (equal name section)) [
  | inl here ↦ rw (get_string, lookup-insert name section values p.sections, here) refl
  | inr other ↦ rw (get_string, lookup-insert name section values p.sections, other) refl
]

get_string-open_section :
    (section key name : Bytes) (p : ConfigParser)
    → get_string section key (open_section name p) ≡ get_string section key p
unfolding open_section
get_string-open_section section key name p = elim (Bool-cases (equal name section)) [
  | inl here ↦
      let same = (equal_iff name section).0 here in
      get_string-insert section key name (section_of (lookup name p.sections)) p
      ∙ (rw (here, get_string-section_of section key p)
          (ap (λ n. lookup key (section_of (lookup n p.sections))) same))
  | inr other ↦
      get_string-insert section key name (section_of (lookup name p.sections)) p ∙ (rw other refl)
]

get_string-assign :
    (section key name k v : Bytes) (p : ConfigParser)
    → get_string section key (assign name k v p) ≡ (
        if equal name section
        then (if equal k key then some v else get_string section key p)
        else get_string section key p)
unfolding assign
get_string-assign section key name k v p = elim (Bool-cases (equal name section)) [
  | inl here ↦
      let values = section_of (lookup name p.sections) in
      let same = (equal_iff name section).0 here in
      get_string-insert section key name (insert k v values) p
      ∙ (rw (here, lookup-insert k key v values, get_string-section_of section key p)
          (ap (λ n. if equal k key then some v else lookup key (section_of (lookup n p.sections)))
            same))
  | inr other ↦
      get_string-insert section key name (insert k v (section_of (lookup name p.sections))) p
      ∙ (rw other refl)
]

get_string-assign_all :
    (section key name : Bytes) (kvs : List (Bytes × Bytes)) (p : ConfigParser)
    → get_string section key (assign_all name kvs p) ≡ (
        if equal name section
        then latest key kvs (get_string section key p)
        else get_string section key p)
unfolding assign_all latest
get_string-assign_all section key name [] p = ground arith
get_string-assign_all section key name ((k, v) ∷ kvs) p =
    get_string-assign_all section key name kvs (assign name k v p)
    ∙ (rw (get_string-assign section key name k v p) (ground arith))

pub get_string-enter :
    (section key : Bytes) (ss : Settings) (p : ConfigParser)
    → get_string section key (enter ss p) ≡ setting section key ss (get_string section key p)
unfolding enter setting
get_string-enter section key [] p = refl
get_string-enter section key ((name, kvs) ∷ ss) p =
    get_string-enter section key ss (assign_all name kvs (open_section name p))
    ∙ ap (setting section key ss) (
        get_string-assign_all section key name kvs (open_section name p)
        ∙ (rw (get_string-open_section section key name p) refl))
