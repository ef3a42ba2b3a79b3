-- ===== src/Settings/RoundTrip.antt =====
-- What is read back of a file that is written line by line (common/Config.cpp).
use aiot_edge_gateway.Prelude.{◌≡◌, ◌≢◌, false, List, [], ◌∷◌, ◌++◌}
use aiot_edge_gateway.Prelude.Text.{Text, codes, Lacks, is_empty}
use aiot_edge_gateway.Settings.File.{ConfigMap, trim_line, starts_with_byte}

-- What a file says, line by line.
pub data Line : Type 0 where
  section : Text → Line
  pair : Text → Text → Line
  comment : Text → Line

abbrev pub print_line : Line → Text
print_line (section name) = b'[' ∷ (name ++ codes "]")
print_line (pair key value) = key ++ (b'=' ∷ value)
print_line (comment text) = b'#' ∷ text

abbrev pub print : List Line → Text
print [] = []
print (l ∷ ls) = print_line l ++ (10 ∷ print ls)

abbrev pub IsTrimmed : Text → Type 0
IsTrimmed s = trim_line s ≡ s

-- Lines without blanks at their ends; a key has no `=` and does not begin like a section or a comment.
abbrev pub IsLine : Line → Type 0
IsLine (section name) = IsTrimmed name
IsLine (pair key value) =
    IsTrimmed key
    × IsTrimmed value
    × Lacks b'=' key
    × (value ≢ [])
    × (is_empty key ≡ false)
    × (starts_with_byte b'#' key ≡ false)
    × (starts_with_byte b'[' key ≡ false)
IsLine (comment text) = Unit

abbrev pub AreLines : List Line → Type 0
AreLines [] = Unit
AreLines (l ∷ ls) = IsTrimmed (print_line l) × Lacks 10 (print_line l) × IsLine l × AreLines ls

-- What the lines mean.
abbrev pub meaning : List Line → Text × ConfigMap → Text × ConfigMap
meaning [] state = state
meaning (section name ∷ ls) state = meaning ls (name, state.1)
meaning (pair key value ∷ ls) state =
    meaning ls (state.0, record { section = state.0; key = key; value = value } ∷ state.1)
meaning (comment text ∷ ls) state = meaning ls state
