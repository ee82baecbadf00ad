-- ===== src/Server/Watch.antt =====
-- The watchers of keys: `addWatcher`, `removeWatcher`, `markWatchedKeysDirty`, `cleanupWatchers`.
use pendem.Base.{
  ℕ, Bool, none, some, List, [], ◌∷◌, ◌++◌, Bytes, Map, lookup, insert, delete, ◌==◌, if◌then◌else◌,
}
use pendem.Server.{Server, mark_dirty, with_connection}

unfoldable pub without : ℕ → List ℕ → List ℕ
without i [] = []
without i (w ∷ ws) = let rest = without i ws in if w == i then rest else w ∷ rest

-- An entry with no watcher left is deleted.
store_watchers : Bytes → List ℕ → Map (List ℕ) → Map (List ℕ)
store_watchers key [] m = delete key m
store_watchers key (w ∷ ws) m = insert key (w ∷ ws) m

unfoldable pub remove_watcher : Bytes → ℕ → Map (List ℕ) → Map (List ℕ)
unfolding without store_watchers
remove_watcher key i m = elim (lookup key m) [
  | none ↦ m
  | some ws ↦ store_watchers key (without i ws) m
]

unfoldable pub watchers_of : Bytes → Map (List ℕ) → List ℕ
watchers_of key m = elim (lookup key m) [ none ↦ [] | some ws ↦ ws ]

unfoldable pub add_watcher : Bytes → ℕ → Map (List ℕ) → Map (List ℕ)
unfolding watchers_of
add_watcher key i m =
    let m' = remove_watcher key i m in insert key (watchers_of key m' ++ i ∷ []) m'

unfoldable pub remove_watcher_by_keys : List Bytes → ℕ → Map (List ℕ) → Map (List ℕ)
remove_watcher_by_keys [] i m = m
remove_watcher_by_keys (key ∷ keys) i m = remove_watcher_by_keys keys i (remove_watcher key i m)

unfoldable pub mark_all : {C : Type 0} → List ℕ → Server C → Server C
mark_all [] s = s
mark_all (w ∷ ws) s = mark_all ws (with_connection w mark_dirty s)

-- The watchers of each key are marked and forgotten.
unfoldable pub mark_watched_keys_dirty : {C : Type 0} → List Bytes → Server C → Server C
mark_watched_keys_dirty [] s = s
mark_watched_keys_dirty (key ∷ keys) s = elim (lookup key s.watchers) [
  | none ↦ mark_watched_keys_dirty keys s
  | some ws ↦
      let s' = mark_all ws s in
      mark_watched_keys_dirty keys (record s' { watchers = delete key s'.watchers })
]

key_names : Map Bool → List Bytes
key_names [] = []
key_names ((key, w) ∷ m) = key ∷ key_names m

unfoldable pub cleanup_watchers : {C : Type 0} → ℕ → Server C → Server C
unfolding key_names
cleanup_watchers i s = record s {
  watchers = remove_watcher_by_keys (key_names (s.connections i).watched_keys) i s.watchers;
}
