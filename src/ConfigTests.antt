-- ===== src/ConfigTests.antt =====
-- Runs of the theorems on the configuration at concrete inputs.
use pendem.Base.{Bool, false, Bytes, ◌∷◌, ◌||◌, equal, if◌then◌else◌}
use pendem.Config.{first_file}
use pendem.Config.Search.{Platform, config_path, candidates, found_or_empty, config_path-candidates}
use pendem.Base.{◌%◌, true, none, [], ◌∷◌, All, codes, ◌≡◌, ◌↔◌, inr, refl, arith}
use pendem.Base.Int.{pos}
use pendem.Base.Text.Trim.{is_word, is_plain, is_visible, all_of, starts}
use pendem.Engine.Cache.{new_cache, shard_index, fnv32a}
use pendem.Config.{default_config, validate, is_positive}
use pendem.Config.Parser.{parse, new_config_parser, get_string}
use pendem.Config.Settings.{Settings, setting}
use pendem.Config.Lines.{
  IsSection, file_lines, unlines, section_line, setting_line, get_string-parse,
}
use pendem.Config.Validation.{IsUsable, validate-IsUsable, shard_index-validate}

validate-IsUsable_example : (validate default_config ≡ none) ↔ IsUsable default_config
validate-IsUsable_example = validate-IsUsable default_config

default-IsUsable : IsUsable default_config
default-IsUsable = (omega arith, omega arith, (4, refl), inr (omega arith), inr (omega arith))

shard_index-validate_example :
    (pos (new_cache {F = Unit {0}} default_config.engine).num_shards ≡ pos 16)
    × (shard_index (new_cache {F = Unit {0}} default_config.engine).num_shards (codes "key")
        ≡ fnv32a (codes "key") % (new_cache {F = Unit {0}} default_config.engine).num_shards)
shard_index-validate_example =
    shard_index-validate (Unit {0}) default_config (codes "key")
      ((validate-IsUsable default_config).1 default-IsUsable)

-- A section that is opened twice, and a key that is set twice.
abbrev settings : Settings
settings =
    (codes "engine", (codes "shard_count", codes "8") ∷ (codes "max_memory", codes "1GB") ∷ [])
    ∷ (codes "engine", (codes "shard_count", codes "32") ∷ [])
    ∷ []

settings-IsSection : All IsSection settings
unfolding is_word is_plain is_visible all_of starts section_line setting_line
settings-IsSection = (
  (refl, omega arith, ((refl, refl, omega arith), ((refl, refl, omega arith), tt))),
  ((refl, omega arith, ((refl, refl, omega arith), tt)), tt),
)

get_string-parse_example :
    ((parse (unlines (file_lines settings)) new_config_parser).1 ≡ true)
    × (get_string
          (codes "engine")
          (codes "shard_count")
          (parse (unlines (file_lines settings)) new_config_parser).0
        ≡ setting (codes "engine") (codes "shard_count") settings none)
get_string-parse_example =
    get_string-parse settings (codes "engine") (codes "shard_count") settings-IsSection

-- A platform with a file that the environment names, and one at a default path.
abbrev platform : Platform
platform = record {
  getenv = λ name. if equal name (codes "PENDEM_CONFIG") then codes "/env.conf" else [];
  goos = codes "linux";
  join = λ parts. [];
}

abbrev exists : Bytes → Bool
exists path = equal path (codes "/env.conf") || equal path (codes "/etc/pendem/pendem.conf")

no_nameless_file : exists [] ≡ false
unfolding equal
no_nameless_file = refl

config_path-candidates_example :
    config_path exists platform (codes "/missing.conf")
    ≡ found_or_empty (first_file exists (candidates platform (codes "/missing.conf")))
config_path-candidates_example =
    config_path-candidates exists platform (codes "/missing.conf") no_nameless_file

-- Behind a flag that names no file the default path is found, not that of the environment.
config_path_skips_env :
    config_path exists platform (codes "/missing.conf") ≡ codes "/etc/pendem/pendem.conf"
unfolding config_path equal pendem.Config.find_config_file pendem.Config.Search.default_config_paths
config_path_skips_env = refl
