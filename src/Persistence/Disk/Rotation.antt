-- ===== src/Persistence/Disk/Rotation.antt =====
-- rotateSnapshots of json.go behind a save.
use pendem.Base.{
  ℕ, zero, suc, ◌-◌, ◌≤◌, ◌<◌, ◌≡◌, ◌≢◌, inl, inr, refl, ap, ◌∙◌, true, false, none, some, List, [],
  ◌∷◌, ◌++◌, Bytes, length, take, lookup, delete, All, All-append, lookup-delete, Bool-cases,
  Option-cases, equal_iff, length-append, ltb, ltb→lt, arith,
}
use pendem.Base.Int.{ℤ, pos, negsuc}
use pendem.Base.Text.{cut_prefix}
use pendem.Persistence.Disk.{
  Disk, versions, is_version, is_older, put_by_age, sort_by_age, remove_all, rotate_snapshots,
  rotate, perform_all, save_effects,
}
use pendem.Persistence.Disk.Atomic.{concat, file_of, save_effects-new}
use pendem.Persistence.Disk.Times.{IsPast, lookup-IsPast, perform_all-IsPast}

-- The file `p` is not older than any of the files.
abbrev IsYoungest : Disk → Bytes → List Bytes → Type 0
IsYoungest d p = All (λ q. is_older d p q ≡ false)

put_by_age-All :
    (P : Bytes → Type 0) (d : Disk) (p : Bytes) (qs : List Bytes)
    → P p
    → All P qs
    → All P (put_by_age d p qs)
unfolding put_by_age
put_by_age-All P d p [] h hs = (h, tt)
put_by_age-All P d p (q ∷ qs) h hs = elim (Bool-cases (is_older d p q)) [
  | inl e ↦ rw (e, put_by_age) (h, hs)
  | inr e ↦ rw (e, put_by_age) (hs.0, put_by_age-All P d p qs h hs.1)
]

sort_by_age-All :
    (P : Bytes → Type 0) (d : Disk) (sorted ps : List Bytes)
    → All P sorted
    → All P ps
    → All P (sort_by_age d sorted ps)
unfolding sort_by_age
sort_by_age-All P d sorted [] h hs = h
sort_by_age-All P d sorted (p ∷ ps) h hs =
    sort_by_age-All P d (put_by_age d p sorted) ps (put_by_age-All P d p sorted hs.0 h) hs.1

put_by_age-youngest :
    (d : Disk) (p : Bytes) (qs : List Bytes) → IsYoungest d p qs → put_by_age d p qs ≡ qs ++ p ∷ []
unfolding put_by_age
put_by_age-youngest d p [] h = refl
put_by_age-youngest d p (q ∷ qs) h =
    rw (h.0, put_by_age) (ap (λ t. q ∷ t) (put_by_age-youngest d p qs h.1))

sort_by_age-append :
    (d : Disk) (sorted ps : List Bytes) (p : Bytes)
    → sort_by_age d sorted (ps ++ p ∷ []) ≡ put_by_age d p (sort_by_age d sorted ps)
unfolding sort_by_age
sort_by_age-append d sorted [] p = refl
sort_by_age-append d sorted (q ∷ ps) p = sort_by_age-append d (put_by_age d q sorted) ps p

remove_all-other :
    (p : Bytes) (ps : List Bytes) (d : Disk)
    → All (λ q. q ≢ p) ps
    → lookup p (remove_all ps d) ≡ lookup p d
unfolding remove_all
remove_all-other p [] d h = refl
remove_all-other p (q ∷ ps) d h =
    remove_all-other p ps (delete q d) h.1 ∙ ground (arith, lookup-delete q p d, equal_iff q p, h.0)

take-All :
    (P : Bytes → Type 0) (n : ℕ) (ps qs : List Bytes)
    → n ≤ length ps
    → All P ps
    → All P (take n (ps ++ qs))
take-All P zero ps qs le h = tt
take-All P (suc n) [] qs le h = elim le [ ]
take-All P (suc n) (p ∷ ps) qs le h = (h.0, take-All P n ps qs (omega arith) h.1)

cut_prefix-longer : (p s : Bytes) (c : ℕ) → cut_prefix (p ++ c ∷ s) p ≡ none
unfolding cut_prefix
cut_prefix-longer [] s c = refl
cut_prefix-longer (b ∷ p) s c = ground (arith, cut_prefix-longer p s c)

-- No version of a file is the file itself.
versions-ne : (path : Bytes) (d : Disk) → All (λ q. q ≢ path) (versions path d)
unfolding versions is_version
versions-ne path [] = tt
versions-ne path ((file, f) ∷ d) = elim (Bool-cases (is_version path file)) [
  | inl e ↦
      rw (e, versions)
        (
          λ same. let k = rw same at e in ground (arith, cut_prefix-longer path [] b'.', k),
          versions-ne path d,
        )
  | inr e ↦ rw (e, versions) (versions-ne path d)
]

-- Every version is matched by the pattern.
versions-match : (path : Bytes) (d : Disk) → All (λ q. is_version path q ≡ true) (versions path d)
unfolding versions
versions-match path [] = tt
versions-match path ((file, f) ∷ d) = elim (Bool-cases (is_version path file)) [
  | inl e ↦ rw (e, versions) (e, versions-match path d)
  | inr e ↦ rw (e, versions) (versions-match path d)
]

map-All : (P Q : Bytes → Type 0) (qs : List Bytes) → ((q : Bytes) → P q → Q q) → All P qs → All Q qs
map-All P Q [] f h = tt
map-All P Q (q ∷ qs) f h = (f q h.0, map-All P Q qs f h.1)

take_any-All : (P : Bytes → Type 0) (n : ℕ) (qs : List Bytes) → All P qs → All P (take n qs)
take_any-All P zero qs h = tt
take_any-All P (suc n) [] h = tt
take_any-All P (suc n) (q ∷ qs) h = (h.0, take_any-All P n qs h.1)

-- A rotation leaves the files alone that the pattern does not match.
pub rotate-apart :
    (path q : Bytes) (max : ℤ) (d : Disk)
    → path ≢ q
    → is_version path q ≡ false
    → lookup q (rotate path max d) ≡ lookup q d
unfolding rotate rotate_snapshots
rotate-apart path q (negsuc n) d ne apart = refl
rotate-apart path q (pos n) d ne apart = elim (Bool-cases (ltb 0 n)) [
  | inr none_kept ↦ rw (none_kept, rotate) refl
  | inl positive ↦
      let files = sort_by_age d [] (versions path d ++ path ∷ []) in
      rw (positive, rotate)
        (remove_all-other q (take (length files - n) files) d (
          take_any-All (λ p. p ≢ q) (length files - n) files
            (sort_by_age-All (λ p. p ≢ q) d [] (versions path d ++ path ∷ []) tt
              (All-append (λ p. p ≢ q) (versions path d) (path ∷ [])
                (map-All _ _ (versions path d) (λ p match same. let m = rw same at match in cc)
                  (versions-match path d))
                (ne, tt)))))
]

rotate_snapshots-keeps :
    (path : Bytes) (max : ℕ) (d : Disk)
    → 0 < max
    → IsYoungest d path (versions path d)
    → lookup path (rotate_snapshots path max d) ≡ lookup path d
unfolding rotate_snapshots
rotate_snapshots-keeps path max d positive youngest =
    let sorted = sort_by_age d [] (versions path d) in
    let last : sort_by_age d [] (versions path d ++ path ∷ []) ≡ sorted ++ path ∷ [] =
      sort_by_age-append d [] (versions path d) path
      ∙ put_by_age-youngest d path sorted (sort_by_age-All _ d [] (versions path d) tt youngest) in
    rw last (
      remove_all-other path (take (length (sorted ++ path ∷ []) - max) (sorted ++ path ∷ [])) d (
        take-All (λ q. q ≢ path) (length (sorted ++ path ∷ []) - max) sorted (path ∷ [])
          (omega (arith, length-append sorted (path ∷ [])))
          (sort_by_age-All (λ q. q ≢ path) d [] (versions path d) tt (versions-ne path d))))

-- The file that was just written is not older than another.
new-IsYoungest :
    (now : ℕ) (path : Bytes) (text : Bytes) (d : Disk) (qs : List Bytes)
    → IsPast now d
    → lookup path d ≡ some (file_of now text)
    → IsYoungest d path qs
unfolding is_older
new-IsYoungest now path text d [] hs e = tt
new-IsYoungest now path text d (q ∷ qs) hs e = (not_older, new-IsYoungest now path text d qs hs e)
  where
    not_older : is_older d path q ≡ false
    not_older = elim (Option-cases (lookup q d)) [
      | inl gone ↦ ground arith
      | inr (g, found) ↦ ground (arith, lookup-IsPast now q d hs found)
    ]

-- `JSONManager.Save` up to its end, with the rotation, leaves the whole new snapshot at its path,
-- whatever the number of snapshots to keep, where no file is of the future.
pub rotate-save_effects :
    (now : ℕ) (path : Bytes) (max : ℤ) (chunks : List Bytes) (d : Disk)
    → IsPast now d
    → lookup path (rotate path max (perform_all now (save_effects path chunks) d))
      ≡ some (file_of now (concat chunks))
unfolding rotate
rotate-save_effects now path (negsuc n) chunks d hs = save_effects-new now path chunks d
rotate-save_effects now path (pos n) chunks d hs = elim (Bool-cases (ltb 0 n)) [
  | inl positive ↦
      let d' = perform_all now (save_effects path chunks) d in
      rw (positive, rotate)
        (rotate_snapshots-keeps path n d' (ltb→lt 0 n positive) (
            new-IsYoungest now path (concat chunks) d' (versions path d')
              (perform_all-IsPast now (save_effects path chunks) d hs)
              (save_effects-new now path chunks d))
          ∙ save_effects-new now path chunks d)
  | inr none_kept ↦ rw (none_kept, rotate) (save_effects-new now path chunks d)
]
