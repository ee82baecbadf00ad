-- ===== src/Config/Search.antt =====
-- Where the configuration is looked for: `DefaultConfigPaths` of internal/config/loader.go, and the
-- priorities of cmd/main.go.
use pendem.Base.{
  ◌≡◌, refl, ap, Bool, true, false, not, ◌&&◌, Option, none, some, List, [], ◌∷◌, ◌++◌, Bytes,
  codes, append_assoc, equal, Bool-cases, inl, inr, if◌then◌else◌, arith,
}
use pendem.Config.{find_config_file, first_file}

-- os.Getenv, runtime.GOOS and filepath.Join.
pub record Platform : Type 0 where
  pub getenv : Bytes → Bytes
  pub goos : Bytes
  pub join : List Bytes → Bytes

-- The paths below a directory of the environment, where it names one.
unfoldable below : Platform → Bytes → List (List Bytes) → List Bytes
below p root [] = []
below p root (rest ∷ more) = p.join (root ∷ rest) ∷ below p root more

unfoldable below_env : Platform → Bytes → List (List Bytes) → List Bytes
unfolding below
below_env p name rests =
    let root = p.getenv name in if equal root [] then [] else below p root rests

abbrev file_name : Bytes
file_name = codes "pendem.conf"

unfoldable system_paths : Platform → List Bytes
unfolding below_env
system_paths p =
    if equal p.goos (codes "windows")
    then below_env p (codes "ProgramData") ((codes "Pendem" ∷ file_name ∷ []) ∷ [])
      ++ below_env p (codes "APPDATA") ((codes "Pendem" ∷ file_name ∷ []) ∷ [])
    else if equal p.goos (codes "darwin")
    then codes "/usr/local/etc/pendem/pendem.conf" ∷ codes "/etc/pendem/pendem.conf" ∷ []
    else codes "/etc/pendem/pendem.conf"
      ∷ codes "/usr/local/etc/pendem/pendem.conf"
      ∷ codes "/opt/pendem/etc/pendem.conf"
      ∷ []

-- DefaultConfigPaths
unfoldable pub default_config_paths : Platform → List Bytes
unfolding system_paths below_env
default_config_paths p =
    file_name
    ∷ codes "config/pendem.conf"
    ∷ (below_env p (codes "HOME") (
          (codes ".pendem" ∷ file_name ∷ [])
          ∷ (codes ".config" ∷ codes "pendem" ∷ file_name ∷ [])
          ∷ [])
        ++ system_paths p)

-- `if found, err := config.FindConfigFile(path); err == nil { path = found }`
abbrev pub found_or_empty : Option Bytes → Bytes
found_or_empty none = []
found_or_empty (some p) = p

-- One priority of `main`: it is tried where there is no path yet.
unfoldable try_path : (Bytes → Bool) → List Bytes → Bytes → Bytes → Bytes
try_path exists defaults given path =
    if equal path [] && not (equal given [])
    then found_or_empty (find_config_file exists defaults given)
    else path

-- The path that `main` loads, for the flag and the environment variable; empty if there is none.
unfoldable pub config_path : (Bytes → Bool) → Platform → Bytes → Bytes
unfolding try_path
config_path exists p flag =
    let defaults = default_config_paths p in
    let path =
      try_path exists defaults (p.getenv (codes "PENDEM_CONFIG"))
        (try_path exists defaults flag []) in
    if equal path [] then found_or_empty (find_config_file exists defaults []) else path

-- The files that `main` looks for, in its order.
unfoldable given_paths : List Bytes → Bytes → List Bytes
given_paths defaults given = if equal given [] then [] else given ∷ defaults

unfoldable pub candidates : Platform → Bytes → List Bytes
unfolding given_paths
candidates p flag =
    let defaults = default_config_paths p in
    given_paths defaults flag
    ++ (given_paths defaults (p.getenv (codes "PENDEM_CONFIG")) ++ defaults)

first_file-append :
    (exists : Bytes → Bool) (ps qs : List Bytes)
    → first_file exists (ps ++ qs)
      ≡ elim (first_file exists ps) [ none ↦ first_file exists qs | some p ↦ some p ]
unfolding first_file
first_file-append exists [] qs = refl
first_file-append exists (p ∷ ps) qs = ground (arith, first_file-append exists ps qs)

first_file-exists :
    (exists : Bytes → Bool) (ps : List Bytes) {p : Bytes}
    → first_file exists ps ≡ some p
    → exists p ≡ true
unfolding first_file
first_file-exists exists [] e = cc
first_file-exists exists (q ∷ qs) {p} e = ground (arith, first_file-exists exists qs {p = p})

-- A file that is there has a name.
equal-empty :
    (exists : Bytes → Bool) (p : Bytes) → exists [] ≡ false → exists p ≡ true → equal p [] ≡ false
unfolding equal
equal-empty exists [] h e = cc
equal-empty exists (c ∷ p) h e = refl

find_config_file-given :
    (exists : Bytes → Bool) (defaults : List Bytes) (given : Bytes)
    → equal given [] ≡ false
    → find_config_file exists defaults given ≡ first_file exists (given ∷ defaults)
unfolding find_config_file first_file
find_config_file-given exists defaults given h = ground arith

abbrev or_first : (Bytes → Bool) → List Bytes → Option Bytes → Option Bytes
or_first exists qs o = elim o [ none ↦ first_file exists qs | some p ↦ some p ]

module _ (exists : Bytes → Bool) (defaults : List Bytes) where
  -- A path that was found is not empty.
  abbrev IsNamed : Option Bytes → Type 0
  IsNamed none = Unit
  IsNamed (some p) = equal p [] ≡ false

  first_file-IsNamed : exists [] ≡ false → (ps : List Bytes) → IsNamed (first_file exists ps)
  first_file-IsNamed h ps = named (first_file exists ps) refl
    where
      named : (o : Option Bytes) → first_file exists ps ≡ o → IsNamed o
      named none e = tt
      named (some p) e = equal-empty exists p h (first_file-exists exists ps e)

  try_path-or_first :
      (given : Bytes) (o : Option Bytes)
      → IsNamed o
      → try_path exists defaults given (found_or_empty o)
        ≡ found_or_empty (or_first exists (given_paths defaults given) o)
  unfolding try_path given_paths equal
  try_path-or_first given none h = elim (Bool-cases (equal given [])) [
    | inl e ↦ rw (e, try_path, given_paths) (unfold first_file in refl)
    | inr e ↦
        rw (e, try_path, given_paths)
          (ap found_or_empty (find_config_file-given exists defaults given e))
  ]
  try_path-or_first given (some p) h = rw (h, try_path) refl

  defaults-or_first :
      (o : Option Bytes)
      → IsNamed o
      → (if equal (found_or_empty o) []
          then found_or_empty (find_config_file exists defaults [])
          else found_or_empty o)
        ≡ found_or_empty (or_first exists defaults o)
  unfolding find_config_file equal
  defaults-or_first none h = refl
  defaults-or_first (some p) h = rw h refl

-- `main` loads the first file that is there of those that the flag names, the default paths, the
-- environment variable and the default paths again; what is not given is left out. So behind a flag
-- the environment is looked at only where there is no file at a default path.
pub config_path-candidates :
    (exists : Bytes → Bool) (p : Platform) (flag : Bytes)
    → exists [] ≡ false
    → config_path exists p flag ≡ found_or_empty (first_file exists (candidates p flag))
unfolding config_path candidates
config_path-candidates exists p flag h =
    let defaults = default_config_paths p in
    let env = p.getenv (codes "PENDEM_CONFIG") in
    let flags = given_paths defaults flag in
    let envs = given_paths defaults env in
    rw
      (
        try_path-or_first exists defaults flag none tt,
        try_path-or_first exists defaults env (first_file exists flags)
            (first_file-IsNamed exists defaults h flags),
        ← first_file-append exists flags envs,
        defaults-or_first exists defaults (first_file exists (flags ++ envs))
            (first_file-IsNamed exists defaults h (flags ++ envs)),
        ← first_file-append exists (flags ++ envs) defaults,
        append_assoc flags envs defaults,
      )
      refl
