-- ===== src/Persistence/Lifecycle/Saves.antt =====
-- Manager.Save of internal/persistence/manager.go: the files that it leaves.
use pendem.Base.{
  ℕ, ◌≡◌, ◌≢◌, refl, ap, ◌∙◌, false, Option, some, List, [], ◌∷◌, Bytes, lookup, append-nil,
}
use pendem.Engine.Cache.{Cache}
use pendem.Config.{PersistenceConfig, JsonConfig}
use pendem.Persistence.Aof.Writer.{LogFile, flush}
use pendem.Persistence.AutoSave.{AutoSave}
use pendem.Persistence.Rdb
use pendem.Persistence.Json.{JsonData, collect_data}
use pendem.Persistence.Disk.{Disk, temp_file, is_version, save_effects, perform_all, rotate}
use pendem.Persistence.Disk.Atomic.{concat, file_of, save_effects-new, save_effects-apart}
use pendem.Persistence.Disk.Times.{IsPast, perform_all-IsPast}
use pendem.Persistence.Disk.Rotation.{rotate-save_effects, rotate-apart}
use pendem.Persistence.Lifecycle.{opened, save, save_json}

-- A text in one chunk.
abbrev one_chunk : Bytes → List Bytes
one_chunk text = text ∷ []

concat-one_chunk : (text : Bytes) → concat (one_chunk text) ≡ text
unfolding concat
concat-one_chunk text = append-nil text

save_json-written :
    {F : Type 0} (marshal : JsonData → Option Bytes) (now : ℕ) (c : Cache F) (cfg : JsonConfig)
    (d : Disk) (text : Bytes)
    → marshal (collect_data now c) ≡ some text
    → save_json marshal now c cfg d
      ≡ rotate cfg.path cfg.max_snapshots
          (perform_all now (save_effects cfg.path (one_chunk text)) d)
unfolding save_json
save_json-written marshal now c cfg d text written = rw (written, save_json) refl

-- With everything on, the log open, paths that do not meet and no file of the future, `Save` flushes
-- the log and leaves the whole binary snapshot of the cache under its path, and the whole one in JSON
-- under the other, though the old ones are rotated away.
pub save-files :
    {F : Type 0} (marshal : JsonData → Option Bytes) (now : ℕ) (c : Cache F)
    (cfg : PersistenceConfig) (j r : AutoSave) (f : LogFile) (d : Disk) (text : Bytes)
    → marshal (collect_data now c) ≡ some text
    → IsPast now d
    → cfg.json.path ≢ cfg.rdb.path
    → temp_file cfg.json.path ≢ cfg.rdb.path
    → is_version cfg.json.path cfg.rdb.path ≡ false
    → (d' : Disk) × (save marshal now c cfg
          (record { json = some j; rdb = some r; aof = some (opened f) })
          d
        ≡ some (record { json = some j; rdb = some r; aof = some (opened (flush f)) }, d'))
      × (lookup cfg.rdb.path d' ≡ some (file_of now (Rdb.save now c)))
      × (lookup cfg.json.path d' ≡ some (file_of now text))
unfolding save
save-files marshal now c cfg j r f d text written past apart temp_apart no_version =
    let d₁ = perform_all now (save_effects cfg.rdb.path (one_chunk (Rdb.save now c))) d in
    let d₂ = perform_all now (save_effects cfg.json.path (one_chunk text)) d₁ in
    let past₁ =
      perform_all-IsPast now (save_effects cfg.rdb.path (one_chunk (Rdb.save now c))) d past in
    (
      rotate cfg.json.path cfg.json.max_snapshots d₂,
      ap (λ x. some (record { json = some j; rdb = some r; aof = some (opened (flush f)) }, x))
          (save_json-written marshal now c cfg.json d₁ text written),
      rotate-apart cfg.json.path cfg.rdb.path cfg.json.max_snapshots d₂ apart no_version
          ∙ save_effects-apart now cfg.json.path cfg.rdb.path (one_chunk text) d₁ apart temp_apart
          ∙ save_effects-new now cfg.rdb.path (one_chunk (Rdb.save now c)) d
          ∙ ap (λ t. some (file_of now t)) (concat-one_chunk (Rdb.save now c)),
      rotate-save_effects now cfg.json.path cfg.json.max_snapshots (one_chunk text) d₁ past₁
          ∙ ap (λ t. some (file_of now t)) (concat-one_chunk text),
    )
