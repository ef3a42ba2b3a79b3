-- ===== src/HotConfig/Value.antt =====
-- The value of a key in a section (gateway_core/ConfigManager.cpp, lines 70-100).
use aiot_edge_gateway.Prelude.{
  ℕ, ◌+◌, ◌-◌, ◌||◌, Option, none, some, [], ◌∷◌, ◌++◌, get_or, drop, ◌==◌, if◌then◌else◌,
}
use aiot_edge_gateway.Prelude.Text.{Text, find, find_char, substr}

abbrev pub quoted : Text → Text
quoted key = b'"' ∷ (key ++ (b'"' ∷ []))

-- `while (sub[vstart] == ' ') vstart++`, as the count of spaces.
abbrev pub count_spaces : Text → ℕ
count_spaces [] = 0
count_spaces (c ∷ cs) = let n = count_spaces cs in if c == 32 then n + 1 else 0

-- `find_first_of(",\n\r}")`
abbrev pub find_end : Text → ℕ → Option ℕ
find_end [] i = none
find_end (c ∷ cs) i =
    if c == b',' || (c == 10 || (c == 13 || c == b'}')) then some i else find_end cs (i + 1)

-- The value at `vstart`: a text in quotes, or all up to the next separator.
unfoldable pub read_value : Text → ℕ → Text
read_value sub vstart =
    if get_or sub vstart 0 == b'"'
    then elim (find_char sub b'"' (vstart + 1)) [
      | none ↦ []
      | some vend ↦ substr sub (vstart + 1) (vend - vstart - 1)
    ]
    else elim (find_end (drop vstart sub) vstart) [
      | none ↦ drop vstart sub
      | some vend ↦ substr sub vstart (vend - vstart)
    ]

unfoldable pub read_key : Text → Text → Text
read_key sub key = elim (find sub (quoted key) 0) [
  | none ↦ []
  | some kpos ↦ elim (find_char sub b':' kpos) [
    | none ↦ []
    | some vcolon ↦ read_value sub (vcolon + 1 + count_spaces (drop (vcolon + 1) sub))
  ]
]

-- The section's text, up to its first closing brace; to the end where there is none.
abbrev pub section_text : Text → ℕ → Text
section_text json obj_start = elim (find_char json b'}' obj_start) [
  | none ↦ drop obj_start json
  | some end ↦ substr json obj_start (end - obj_start)
]

unfoldable pub extract_value : Text → Text → Text → Text
extract_value json section key = elim (find json (quoted section) 0) [
  | none ↦ []
  | some sec_start ↦ elim (find_char json b':' sec_start) [
    | none ↦ []
    | some colon ↦ elim (find_char json b'{' colon) [
      | none ↦ []
      | some obj_start ↦ read_key (section_text json obj_start) key
    ]
  ]
]
