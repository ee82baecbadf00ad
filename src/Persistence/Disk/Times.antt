-- ===== src/Persistence/Disk/Times.antt =====
-- The times of the files of a disk.
use pendem.Base.{
  ℕ, ◌≤◌, ◌≡◌, inl, inr, some, List, [], ◌∷◌, ◌++◌, Bytes, lookup, insert, delete, All, Bool-cases,
  Option-cases, equal, arith,
}
use pendem.Persistence.Disk.{
  FileInfo, Disk, Effect, create, write, rename, remove, perform, perform_all,
}
use pendem.Persistence.Disk.Atomic.{file_of}

-- No file was modified after `now`.
abbrev pub IsPast : ℕ → Disk → Type 0
IsPast now = All (λ e. e.1.modified ≤ now)

insert-IsPast :
    (now : ℕ) (p : Bytes) (f : FileInfo) (d : Disk)
    → f.modified ≤ now
    → IsPast now d
    → IsPast now (insert p f d)
unfolding insert
insert-IsPast now p f [] h hs = (h, tt)
insert-IsPast now p f ((q, g) ∷ d) h hs = elim (Bool-cases (equal q p)) [
  | inl e ↦ rw (e, insert) (h, hs.1)
  | inr e ↦ rw (e, insert) (hs.0, insert-IsPast now p f d h hs.1)
]

delete-IsPast : (now : ℕ) (p : Bytes) (d : Disk) → IsPast now d → IsPast now (delete p d)
unfolding delete
delete-IsPast now p [] hs = tt
delete-IsPast now p ((q, g) ∷ d) hs = elim (Bool-cases (equal q p)) [
  | inl e ↦ rw (e, delete) (delete-IsPast now p d hs.1)
  | inr e ↦ rw (e, delete) (hs.0, delete-IsPast now p d hs.1)
]

pub lookup-IsPast :
    (now : ℕ) (p : Bytes) (d : Disk) {f : FileInfo}
    → IsPast now d
    → lookup p d ≡ some f
    → f.modified ≤ now
unfolding lookup
lookup-IsPast now p [] hs e = cc
lookup-IsPast now p ((q, g) ∷ d) {f} hs e = elim (Bool-cases (equal q p)) [
  | inl here ↦ ground (arith, hs.0)
  | inr later ↦ lookup-IsPast now p d {f = f} hs.1 (ground arith)
]

perform-IsPast : (now : ℕ) (e : Effect) (d : Disk) → IsPast now d → IsPast now (perform now e d)
unfolding perform
perform-IsPast now (create p) d hs = insert-IsPast now p (file_of now []) d (omega arith) hs
perform-IsPast now (remove p) d hs = delete-IsPast now p d hs
perform-IsPast now (write p text) d hs = elim (Option-cases (lookup p d)) [
  | inl e ↦ rw (e, perform) hs
  | inr (f, e) ↦
      rw (e, perform) (insert-IsPast now p (file_of now (f.contents ++ text)) d (omega arith) hs)
]
perform-IsPast now (rename p q) d hs = elim (Option-cases (lookup p d)) [
  | inl e ↦ rw (e, perform) hs
  | inr (f, e) ↦
      rw (e, perform)
        (insert-IsPast now q f (delete p d) (lookup-IsPast now p d hs e) (delete-IsPast now p d hs))
]

pub perform_all-IsPast :
    (now : ℕ) (es : List Effect) (d : Disk) → IsPast now d → IsPast now (perform_all now es d)
unfolding perform_all
perform_all-IsPast now [] d hs = hs
perform_all-IsPast now (e ∷ es) d hs =
    perform_all-IsPast now es (perform now e d) (perform-IsPast now e d hs)
