-- ===== src/Config/Parser.antt =====
-- internal/config/parser.go. `time.ParseDuration` is a parameter, and a file its bytes.
use pendem.Base.{
  ◌*◌, Bool, ◌||◌, ◌&&◌, Option, none, some, List, [], ◌∷◌, Bytes, codes, equal, Map, lookup,
  insert, if◌then◌else◌,
}
use pendem.Base.Int.{ℤ, times_ℕ}
use pendem.Base.Strconv.{to_upper}
use pendem.Base.Text.{
  has_prefix, has_suffix, trim_suffix, trim_space, trim_brackets, split_at, scan_lines, scan_int,
}

pub record ConfigParser : Type 0 where
  pub sections : Map (Map Bytes)

abbrev pub new_config_parser : ConfigParser
new_config_parser = record { sections = [] }

abbrev pub section_of : Option (Map Bytes) → Map Bytes
section_of none = []
section_of (some section) = section

-- `if p.data[section] == nil { p.data[section] = make(map[string]string) }`
unfoldable pub open_section : Bytes → ConfigParser → ConfigParser
open_section section p = record p {
  sections = insert section (section_of (lookup section p.sections)) p.sections;
}

-- `p.data[section][key] = value`; the current section has its map since it was opened.
unfoldable pub assign : Bytes → Bytes → Bytes → ConfigParser → ConfigParser
assign section key value p = record p {
  sections = insert section (insert key value (section_of (lookup section p.sections))) p.sections;
}

assign_parts : Bytes → Option (Bytes × Bytes) → ConfigParser → ConfigParser
unfolding assign
assign_parts section none p = p
assign_parts section (some (key, value)) p = assign section (trim_space key) (trim_space value) p

-- A line of the file, with the current section.
unfoldable pub parse_line : Bytes → ConfigParser × Bytes → ConfigParser × Bytes
unfolding open_section assign_parts
parse_line raw (p, section) =
    let line = trim_space raw in
    if equal line [] || has_prefix (codes "#") line
    then (p, section)
    else if has_prefix (codes "[") line && has_suffix (codes "]") line
    then (open_section (trim_brackets line) p, trim_brackets line)
    else if equal section []
    then (p, section)
    else (assign_parts section (split_at b'=' line) p, section)

unfoldable pub parse_lines : List Bytes → ConfigParser × Bytes → ConfigParser × Bytes
parse_lines [] state = state
parse_lines (line ∷ lines) state = parse_lines lines (parse_line line state)

-- Parse, of a file that could be opened: the flag is false where a line is too long.
unfoldable pub parse : Bytes → ConfigParser → ConfigParser × Bool
unfolding parse_lines
parse content p = let (lines, done) = scan_lines content in ((parse_lines lines (p, [])).0, done)

-- GetString
unfoldable pub get_string : Bytes → Bytes → ConfigParser → Option Bytes
get_string section key p = elim (lookup section p.sections) [
  | none ↦ none
  | some values ↦ lookup key values
]

unfoldable pub get_int : Bytes → Bytes → ConfigParser → Option ℤ
get_int section key p = elim (get_string section key p) [
  | none ↦ none
  | some value ↦ some (scan_int value)
]

unfoldable pub get_duration : (Bytes → Option ℤ) → Bytes → Bytes → ConfigParser → Option ℤ
get_duration parse_duration section key p = elim (get_string section key p) [
  | none ↦ none
  | some value ↦ parse_duration value
]

unfoldable pub get_bool : Bytes → Bytes → ConfigParser → Option Bool
get_bool section key p = elim (get_string section key p) [
  | none ↦ none
  | some value ↦
      some (equal value (codes "true") || (equal value (codes "yes") || equal value (codes "1")))
]

-- A number with a unit, in 64 bits.
unfoldable pub read_bytes : Bytes → ℤ
read_bytes value =
    let v = to_upper value in
    if has_suffix (codes "GB") v
    then times_ℕ (scan_int (trim_space (trim_suffix (codes "GB") v))) (1024 * 1024 * 1024)
    else if has_suffix (codes "MB") v
    then times_ℕ (scan_int (trim_space (trim_suffix (codes "MB") v))) (1024 * 1024)
    else if has_suffix (codes "KB") v
    then times_ℕ (scan_int (trim_space (trim_suffix (codes "KB") v))) 1024
    else times_ℕ (scan_int (trim_space v)) 1

unfoldable pub get_bytes : Bytes → Bytes → ConfigParser → Option ℤ
unfolding read_bytes
get_bytes section key p = elim (get_string section key p) [
  | none ↦ none
  | some value ↦ some (read_bytes value)
]
