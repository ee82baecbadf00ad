-- ===== src/Persistence/Disk.antt =====
-- The files of `RDB.Save` (internal/persistence/rdb.go) and `JSONManager.Save` (json.go): the
-- temporary file, the rename and the rotation. A disk is a map from paths to files; a save is the
-- list of what it asks the file system for, in its order. It stops behind any of these, where one
-- fails or the program ends.
pub mod Atomic
pub mod Times
pub mod Rotation
use pendem.Base.{
  ℕ, ◌-◌, Bool, true, false, ◌&&◌, not, Option, none, some, List, [], ◌∷◌, ◌++◌, map, Bytes, Map,
  codes, ltb, length, take, ◌==◌, lookup, insert, delete, if◌then◌else◌,
}
use pendem.Base.Int.{ℤ, pos, negsuc}
use pendem.Base.Text.{cut_prefix}

pub record FileInfo : Type 0 where
  pub contents : Bytes
  pub modified : ℕ

abbrev pub Disk : Type 0
Disk = Map FileInfo

-- `os.Create`, a write to an open file, `os.Rename` and `os.Remove`.
pub data Effect : Type 0 where
  create remove : Bytes → Effect
  write : Bytes → Bytes → Effect
  rename : Bytes → Bytes → Effect

-- An effect at the time `now`.
unfoldable pub perform : ℕ → Effect → Disk → Disk
perform now (create p) d = insert p (record { contents = []; modified = now }) d
perform now (write p text) d = elim (lookup p d) [
  | none ↦ d
  | some f ↦ insert p (record { contents = f.contents ++ text; modified = now }) d
]
perform now (rename p q) d = elim (lookup p d) [ none ↦ d | some f ↦ insert q f (delete p d) ]
perform now (remove p) d = delete p d

unfoldable pub perform_all : ℕ → List Effect → Disk → Disk
perform_all now [] d = d
perform_all now (e ∷ es) d = perform_all now es (perform now e d)

-- `config.Path + ".tmp"`
unfoldable pub temp_file : Bytes → Bytes
temp_file path = path ++ codes ".tmp"

unfoldable pub write_chunks : Bytes → List Bytes → List Effect
write_chunks p = map (λ text. write p text)

-- The temporary file is written in chunks, as the bufio.Writer or the system divides them, and then
-- renamed.
unfoldable pub save_effects : Bytes → List Bytes → List Effect
unfolding temp_file write_chunks
save_effects path chunks =
    create (temp_file path)
    ∷ (write_chunks (temp_file path) chunks ++ rename (temp_file path) path ∷ [])

has_slash : Bytes → Bool
has_slash [] = false
has_slash (c ∷ s) = let rest = has_slash s in if c == b'/' then true else rest

-- `*` of filepath.Glob stands for any bytes but a slash.
unfoldable pub is_version : Bytes → Bytes → Bool
unfolding has_slash
is_version path file = elim (cut_prefix (path ++ codes ".") file) [
  | none ↦ false
  | some rest ↦ not (has_slash rest)
]

-- `filepath.Glob(config.Path + ".*")`, for a path without the signs of a pattern.
unfoldable pub versions : Bytes → Disk → List Bytes
versions path [] = []
versions path ((file, f) ∷ d) =
    let rest = versions path d in if is_version path file then file ∷ rest else rest

-- `fi.ModTime().Before(fj.ModTime())`, and false where a file is missing.
unfoldable pub is_older : Disk → Bytes → Bytes → Bool
is_older d p q = elim (lookup p d) [
  | none ↦ false
  | some f ↦ elim (lookup q d) [ none ↦ false | some g ↦ ltb f.modified g.modified ]
]

-- sort.Slice as an insertion sort, which it is up to twelve files: each file goes behind those that
-- are not younger.
unfoldable pub put_by_age : Disk → Bytes → List Bytes → List Bytes
put_by_age d p [] = p ∷ []
put_by_age d p (q ∷ qs) =
    let rest = put_by_age d p qs in if is_older d p q then p ∷ q ∷ qs else q ∷ rest

unfoldable pub sort_by_age : Disk → List Bytes → List Bytes → List Bytes
unfolding put_by_age is_older
sort_by_age d sorted [] = sorted
sort_by_age d sorted (p ∷ ps) = sort_by_age d (put_by_age d p sorted) ps

unfoldable pub remove_all : List Bytes → Disk → Disk
remove_all [] d = d
remove_all (p ∷ ps) d = remove_all ps (delete p d)

-- rotateSnapshots: the oldest files beyond `max` are removed.
unfoldable pub rotate_snapshots : Bytes → ℕ → Disk → Disk
unfolding versions sort_by_age remove_all
rotate_snapshots path max d =
    let files = sort_by_age d [] (versions path d ++ path ∷ []) in
    remove_all (take (length files - max) files) d

-- The end of `JSONManager.Save`: a rotation where `MaxSnapshots > 0`.
unfoldable pub rotate : Bytes → ℤ → Disk → Disk
unfolding rotate_snapshots
rotate path (negsuc n) d = d
rotate path (pos n) d = if ltb 0 n then rotate_snapshots path n d else d
