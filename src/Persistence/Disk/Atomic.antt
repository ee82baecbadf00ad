-- ===== src/Persistence/Disk/Atomic.antt =====
-- A save of rdb.go or json.go that stops at any moment.
use pendem.Base.{
  ℕ, zero, suc, ◌≤◌, ◌<◌, ◌≡◌, ◌≢◌, ◌⊎◌, inl, inr, refl, sym, ap, ◌∙◌, some, List, [], ◌∷◌, ◌++◌,
  Bytes, length, take, lookup, delete, lookup-insert, lookup-delete, lookup-insert_self,
  Option-cases, equal_iff, codes, append_assoc, append-nil, length-append, arith,
}
use pendem.Engine.Cache.{Cache}
use pendem.Persistence.Rdb.{save}
use pendem.Persistence.Disk.{
  FileInfo, Disk, Effect, create, write, rename, perform, perform_all, temp_file, write_chunks,
  save_effects,
}

unfoldable pub concat : List Bytes → Bytes
concat [] = []
concat (t ∷ ts) = t ++ concat ts

abbrev pub file_of : ℕ → Bytes → FileInfo
file_of now text = record { contents = text; modified = now }

temp_file-ne : (path : Bytes) → temp_file path ≢ path
unfolding temp_file
temp_file-ne path e = omega (arith, ap length e, length-append path (codes ".tmp"))

-- An effect on one file leaves the others alone.
write-other :
    (now : ℕ) (tmp text q : Bytes) (d : Disk)
    → tmp ≢ q
    → lookup q (perform now (write tmp text) d) ≡ lookup q d
unfolding perform
write-other now tmp text q d ne = elim (Option-cases (lookup tmp d)) [
  | inl e ↦ rw (e, perform) refl
  | inr (f, e) ↦
      rw (e, perform)
        (ground (
          arith,
          lookup-insert tmp q (record { contents = f.contents ++ text; modified = now }) d,
          equal_iff tmp q,
        ))
]

write_self :
    (now : ℕ) (tmp text : Bytes) (d : Disk) (f : FileInfo)
    → lookup tmp d ≡ some f
    → lookup tmp (perform now (write tmp text) d) ≡ some (file_of now (f.contents ++ text))
unfolding perform
write_self now tmp text d f e =
    rw (e, perform) (lookup-insert_self tmp (file_of now (f.contents ++ text)) d)

create-other :
    (now : ℕ) (tmp q : Bytes) (d : Disk)
    → tmp ≢ q
    → lookup q (perform now (create tmp) d) ≡ lookup q d
unfolding perform
create-other now tmp q d ne =
    ground (arith, lookup-insert tmp q (file_of now []) d, equal_iff tmp q)

rename-other :
    (now : ℕ) (tmp path q : Bytes) (d : Disk)
    → tmp ≢ q
    → path ≢ q
    → lookup q (perform now (rename tmp path) d) ≡ lookup q d
unfolding perform
rename-other now tmp path q d ne ne' = elim (Option-cases (lookup tmp d)) [
  | inl e ↦ rw (e, perform) refl
  | inr (f, e) ↦
      rw (e, perform)
        (ground (
          arith,
          lookup-insert path q f (delete tmp d),
          lookup-delete tmp q d,
          equal_iff tmp q,
          equal_iff path q,
        ))
]

-- What a path holds behind some of the effects: what it held, or the new file.
module _ (now : ℕ) (path : Bytes) where
  -- Before the last effect, or behind it.
  abbrev IsOldOrNew : ℕ → List Effect → Bytes → Disk → Type 0
  IsOldOrNew n es text d =
      ((n < length es) × (lookup path (perform_all now (take n es) d) ≡ lookup path d))
      ⊎ ((length es ≤ n) × (lookup path (perform_all now (take n es) d) ≡ some (file_of now text)))

  shift :
      (n : ℕ) (e : Effect) (es : List Effect) (text : Bytes) (d : Disk)
      → lookup path (perform now e d) ≡ lookup path d
      → IsOldOrNew n es text (perform now e d)
      → IsOldOrNew (suc n) (e ∷ es) text d
  unfolding perform_all
  shift n e es text d same (inl (le, old)) = inl (omega arith, old ∙ same)
  shift n e es text d same (inr (le, new)) = inr (omega arith, new)

  rename-new :
      (tmp : Bytes) (text : Bytes) (d : Disk)
      → lookup tmp d ≡ some (file_of now text)
      → lookup path (perform now (rename tmp path) d) ≡ some (file_of now text)
  unfolding perform
  rename-new tmp text d e =
      rw (e, perform) (lookup-insert_self path (file_of now text) (delete tmp d))

  chunks-IsOldOrNew :
      (tmp : Bytes) (chunks : List Bytes) (n : ℕ) (text : Bytes) (d : Disk)
      → tmp ≢ path
      → lookup tmp d ≡ some (file_of now text)
      → IsOldOrNew n (write_chunks tmp chunks ++ rename tmp path ∷ []) (text ++ concat chunks) d
  unfolding perform_all write_chunks concat
  chunks-IsOldOrNew tmp [] zero text d ne e = inl (omega arith, refl)
  chunks-IsOldOrNew tmp [] (suc zero) text d ne e =
      inr (omega arith, rw (append-nil text) (rename-new tmp text d e))
  chunks-IsOldOrNew tmp [] (suc (suc n)) text d ne e =
      inr (omega arith, rw (append-nil text) (rename-new tmp text d e))
  chunks-IsOldOrNew tmp (t ∷ ts) zero text d ne e = inl (omega arith, refl)
  chunks-IsOldOrNew tmp (t ∷ ts) (suc n) text d ne e =
      shift n (write tmp t) (write_chunks tmp ts ++ rename tmp path ∷ []) (text ++ (t ++ concat ts))
        d (write-other now tmp t path d ne)
        (rw (← append_assoc text t (concat ts)) (
          chunks-IsOldOrNew tmp ts n (text ++ t) (perform now (write tmp t) d) ne
            (write_self now tmp t d (file_of now text) e)))

  save_effects-IsOldOrNew :
      (chunks : List Bytes) (n : ℕ) (d : Disk)
      → IsOldOrNew n (save_effects path chunks) (concat chunks) d
  unfolding perform_all save_effects
  save_effects-IsOldOrNew chunks zero d = inl (omega arith, refl)
  save_effects-IsOldOrNew chunks (suc n) d =
      let tmp = temp_file path in
      shift n (create tmp) (write_chunks tmp chunks ++ rename tmp path ∷ []) (concat chunks) d
        (create-other now tmp path d (temp_file-ne path))
        (chunks-IsOldOrNew tmp chunks n [] (perform now (create tmp) d) (temp_file-ne path)
          (unfold perform in lookup-insert_self tmp (file_of now []) d))

  module _ (q : Bytes) (not_path : path ≢ q) where
    chunks-other :
        (tmp : Bytes) (chunks : List Bytes) (n : ℕ) (d : Disk)
        → tmp ≢ q
        → lookup q (perform_all now (take n (write_chunks tmp chunks ++ rename tmp path ∷ [])) d)
          ≡ lookup q d
    unfolding perform_all write_chunks
    chunks-other tmp [] zero d ne = refl
    chunks-other tmp [] (suc zero) d ne = rename-other now tmp path q d ne not_path
    chunks-other tmp [] (suc (suc n)) d ne = rename-other now tmp path q d ne not_path
    chunks-other tmp (t ∷ ts) zero d ne = refl
    chunks-other tmp (t ∷ ts) (suc n) d ne =
        chunks-other tmp ts n (perform now (write tmp t) d) ne ∙ write-other now tmp t q d ne

    save_effects-other :
        (chunks : List Bytes) (n : ℕ) (d : Disk)
        → temp_file path ≢ q
        → lookup q (perform_all now (take n (save_effects path chunks)) d) ≡ lookup q d
    unfolding perform_all save_effects
    save_effects-other chunks zero d ne = refl
    save_effects-other chunks (suc n) d ne =
        chunks-other (temp_file path) chunks n (perform now (create (temp_file path)) d) ne
        ∙ create-other now (temp_file path) q d ne

take_all {ℓ} : {A : Type ℓ} (xs : List A) → take (length xs) xs ≡ xs
take_all [] = refl
take_all (x ∷ xs) = ap (λ t. x ∷ t) (take_all xs)

-- A save up to its end.
pub save_effects-new :
    (now : ℕ) (path : Bytes) (chunks : List Bytes) (d : Disk)
    → lookup path (perform_all now (save_effects path chunks) d)
      ≡ some (file_of now (concat chunks))
save_effects-new now path chunks d =
    let es = save_effects path chunks in
    elim (save_effects-IsOldOrNew now path chunks (length es) d) [
      | inl (lt, old) ↦ absurd (omega arith)
      | inr (le, new) ↦ ap (λ t. lookup path (perform_all now t d)) (sym (take_all es)) ∙ new
    ]

pub save_effects-apart :
    (now : ℕ) (path q : Bytes) (chunks : List Bytes) (d : Disk)
    → path ≢ q
    → temp_file path ≢ q
    → lookup q (perform_all now (save_effects path chunks) d) ≡ lookup q d
save_effects-apart now path q chunks d ne ne' =
    let es = save_effects path chunks in
    ap (λ t. lookup q (perform_all now t d)) (sym (take_all es))
    ∙ save_effects-other now path q ne chunks (length es) d ne'

-- `RDB.Save` divides its bytes into chunks in any way and stops behind any number of its effects.
-- Then the file at the path is as it was, where that is before the last of them, and holds the whole
-- new snapshot behind it; every file but that and the temporary one is as it was.
pub save-atomic :
    {F : Type 0} (now : ℕ) (path q : Bytes) (c : Cache F) (chunks : List Bytes) (n : ℕ) (d : Disk)
    → concat chunks ≡ save now c
    → path ≢ q
    → temp_file path ≢ q
    → let es = save_effects path chunks in
      let d' = perform_all now (take n es) d in
      (((n < length es) × (lookup path d' ≡ lookup path d))
        ⊎ ((length es ≤ n) × (lookup path d' ≡ some (file_of now (save now c)))))
      × (lookup q d' ≡ lookup q d)
save-atomic now path q c chunks n d whole ne ne' = (
  rw (← whole) (save_effects-IsOldOrNew now path chunks n d),
  save_effects-other now path q ne chunks n d ne',
)
