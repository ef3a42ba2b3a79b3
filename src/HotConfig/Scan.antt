-- ===== src/HotConfig/Scan.antt =====
-- What `ConfigManager` makes of a text as JSON: the check of its brackets and strings
-- (gateway_core/ConfigManager.cpp, lines 21-67) and the end of its object (lines 203-212).
use aiot_edge_gateway.Prelude.{
  ℕ, ◌+◌, ◌-◌, Bool, true, false, ◌&&◌, ◌||◌, not, Option, none, some, [], ◌∷◌, leb, ◌==◌,
  if◌then◌else◌,
}
use aiot_edge_gateway.Prelude.Text.{Text, is_empty}

-- `std::isspace`
abbrev pub is_space : ℕ → Bool
is_space c = c == 32 || (leb 9 c && leb c 13)

abbrev pub trim_front : Text → Text
trim_front [] = []
trim_front (c ∷ cs) = if is_space c then trim_front cs else c ∷ cs

abbrev pub trim_back : Text → Text
trim_back [] = []
trim_back (c ∷ cs) = let rest = trim_back cs in if is_empty rest && is_space c then [] else c ∷ rest

abbrev pub trim : Text → Text
trim s = trim_back (trim_front s)

-- The locals of the loop. `expect_key` is written and never read.
pub record Scan : Type 0 where
  pub depth : ℕ
  pub in_string : Bool
  pub escape : Bool

abbrev pub is_open : ℕ → Bool
is_open c = c == b'{' || c == b'['

abbrev pub is_close : ℕ → Bool
is_close c = c == b'}' || c == b']'

-- One round, `none` where the depth falls below zero.
unfoldable pub scan_byte : Scan → ℕ → Option Scan
scan_byte s c =
    if s.escape
    then some (record s { escape = false })
    else (if s.in_string
        then (if c == b'\\'
            then some (record s { escape = true })
            else (if c == b'"' then some (record s { in_string = false }) else some s))
        else (if c == b'"'
            then some (record s { in_string = true })
            else (if is_open c
                then some (record s { depth = s.depth + 1 })
                else (if is_close c
                    then (if s.depth == 0 then none else some (record s { depth = s.depth - 1 }))
                    else some s))))

unfoldable pub scan_all : Scan → Text → Bool
scan_all s [] = s.depth == 0 && not s.in_string
scan_all s (c ∷ cs) = elim (scan_byte s c) [ none ↦ false | some s' ↦ scan_all s' cs ]

abbrev pub starts_object : Text → Bool
starts_object [] = false
starts_object (c ∷ cs) = c == b'{'

abbrev pub ends_object : Text → Bool
ends_object [] = false
ends_object (c ∷ []) = c == b'}'
ends_object (c ∷ d ∷ cs) = ends_object (d ∷ cs)

abbrev pub outside : ℕ → Scan
outside depth = record { depth = depth; in_string = false; escape = false }

unfoldable pub validate_json : Text → Bool
validate_json json =
    let t = trim json in starts_object t && (ends_object t && scan_all (outside 0) t)

-- The depth after a byte. The first byte is a brace, so the depth is not zero where one closes.
abbrev pub brace_depth : ℕ → ℕ → ℕ
brace_depth c depth = if c == b'{' then depth + 1 else (if c == b'}' then depth - 1 else depth)

-- How many bytes there are up to the brace that closes the first one, that one included.
unfoldable pub object_length : Text → ℕ → Option ℕ
object_length [] depth = none
object_length (c ∷ cs) depth =
    let rest = object_length cs (brace_depth c depth) in
    if c == b'}' && brace_depth c depth == 0
    then some 1
    else elim rest [ none ↦ none | some n ↦ some (n + 1) ]
