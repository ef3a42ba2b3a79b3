-- ===== src/Settings/File.antt =====
-- The functions `trim` and `load_config` (common/Config.cpp). The map of maps is a list of entries, of
-- which the first one with a section and a key counts.
use aiot_edge_gateway.Prelude.{
  ℕ, ◌+◌, ◌-◌, Bool, false, ◌&&◌, ◌||◌, Option, none, some, List, [], ◌∷◌, length, take, drop, ◌==◌,
  if◌then◌else◌,
}
use aiot_edge_gateway.Prelude.Text.{Text, is_empty, eqb, find_char}

abbrev pub is_blank : ℕ → Bool
is_blank c = (c == 32) || ((c == 9) || (c == 13))

unfoldable pub skip_blanks : Text → Text
skip_blanks [] = []
skip_blanks (c ∷ s) = let rest = skip_blanks s in if is_blank c then rest else c ∷ s

-- Without the blanks at the end.
unfoldable pub cut_blanks : Text → Text
cut_blanks [] = []
cut_blanks (c ∷ s) = let rest = cut_blanks s in if is_blank c && is_empty rest then [] else c ∷ rest

unfoldable pub trim_line : Text → Text
trim_line s = cut_blanks (skip_blanks s)

pub record Entry : Type 0 where
  pub section : Text
  pub key : Text
  pub value : Text

abbrev pub ConfigMap : Type 0
ConfigMap = List Entry

-- `config[section][key]`: what is missing reads as the empty string.
unfoldable pub lookup : Text → Text → ConfigMap → Text
lookup section key [] = []
lookup section key (e ∷ config) =
    let rest = lookup section key config in
    if eqb e.section section && eqb e.key key then e.value else rest

abbrev pub ends_with : ℕ → Text → Bool
ends_with c [] = false
ends_with c (x ∷ []) = x == c
ends_with c (x ∷ y ∷ s) = ends_with c (y ∷ s)

abbrev pub starts_with_byte : ℕ → Text → Bool
starts_with_byte c [] = false
starts_with_byte c (x ∷ s) = x == c

unfoldable pub load_pair : Text → Text × ConfigMap → Text × ConfigMap
load_pair line (section, config) = elim (find_char line b'=' 0) [
  | none ↦ (section, config)
  | some pos ↦
      let key = trim_line (take pos line) in
      let value = trim_line (drop (pos + 1) line) in
      if is_empty key || is_empty value
      then (section, config)
      else (section, record { section = section; key = key; value = value } ∷ config)
]

-- A line without the blanks around it.
unfoldable pub load_trimmed : Text → Text × ConfigMap → Text × ConfigMap
load_trimmed line (section, config) =
    if is_empty line || starts_with_byte b'#' line
    then (section, config)
    else if starts_with_byte b'[' line && ends_with b']' line
    then (trim_line (take (length line - 2) (drop 1 line)), config)
    else load_pair line (section, config)

-- `std::getline` until it fails.
unfoldable pub get_lines : Text → List Text
get_lines [] = []
get_lines (c ∷ s) =
    let rest = get_lines s in
    if c == 10 then [] ∷ rest else elim rest [ [] ↦ (c ∷ []) ∷ [] | l ∷ ls ↦ (c ∷ l) ∷ ls ]

unfoldable pub load_lines : List Text → Text × ConfigMap → Text × ConfigMap
load_lines [] state = state
load_lines (line ∷ lines) state = load_lines lines (load_trimmed (trim_line line) state)

-- No text is a file that does not open.
unfoldable pub load_config : Option Text → ConfigMap
load_config none = []
load_config (some text) = (load_lines (get_lines text) ([], [])).1
