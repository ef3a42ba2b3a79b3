-- ===== src/Prelude/Text.antt =====
-- `std::string` as a list of byte codes, with the searches that the sources call on it.
use Prim.Native.Nat.{ℕ, ◌+◌}
use Prim.Native.Char.{code}
use Prim.Native.String.{String}
use mathlib.Core.Path.{◌≡◌, refl}
use mathlib.Core.Logic.{◌≢◌, ◌↔◌}
use mathlib.Core.Bool.{Bool, true, false, ◌&&◌}
use mathlib.Core.List.{List, [], ◌∷◌, ◌++◌}
use mathlib.Core.Option.{Option, none, some}
use native.Mathlib.Omega.{arith}
use aiot_edge_gateway.Prelude.Lists.{length, take, drop, drop-append, All}
use aiot_edge_gateway.Prelude.Tests.{◌==◌, if◌then◌else◌}

abbrev pub Text : Type 0
Text = List ℕ

-- A literal of the source, as its codes.
abbrev pub codes : String → Text
codes String.[] = []
codes (String.◌∷◌ c s) = code c ∷ codes s

abbrev pub eqb : Text → Text → Bool
eqb [] [] = true
eqb [] (y ∷ ys) = false
eqb (x ∷ xs) [] = false
eqb (x ∷ xs) (y ∷ ys) = (x == y) && eqb xs ys

abbrev pub is_empty : Text → Bool
is_empty [] = true
is_empty (x ∷ xs) = false

abbrev pub starts_with : Text → Text → Bool
starts_with [] s = true
starts_with (p ∷ ps) [] = false
starts_with (p ∷ ps) (c ∷ cs) = (c == p) && starts_with ps cs

-- The first place in `s` where the byte `c` stands, counted from `i`.
abbrev pub find_byte : ℕ → Text → ℕ → Option ℕ
find_byte c [] i = none
find_byte c (x ∷ xs) i = if x == c then some i else find_byte c xs (i + 1)

-- The first place where the text `p` stands, which is not empty in the sources' calls.
abbrev pub find_text : Text → Text → ℕ → Option ℕ
find_text p [] i = none
find_text p (x ∷ xs) i = if starts_with p (x ∷ xs) then some i else find_text p xs (i + 1)

-- `s.find(c, pos)` and `s.find("...", pos)`: `none` is `std::string::npos`.
abbrev pub find_char : Text → ℕ → ℕ → Option ℕ
find_char s c pos = find_byte c (drop pos s) pos

abbrev pub find : Text → Text → ℕ → Option ℕ
find s p pos = find_text p (drop pos s) pos

abbrev pub substr : Text → ℕ → ℕ → Text
substr s pos n = take n (drop pos s)

-- The byte `c` does not occur.
abbrev pub Lacks : ℕ → Text → Type 0
Lacks c = All (λ x. x ≢ c)

pub eqb_refl : (s : Text) → eqb s s ≡ true
eqb_refl [] = refl
eqb_refl (x ∷ xs) = ground (arith, eqb_refl xs)

pub eqb-eq : (s t : Text) → eqb s t ≡ true → s ≡ t
eqb-eq [] [] h = refl
eqb-eq [] (y ∷ ys) h = cc
eqb-eq (x ∷ xs) [] h = cc
eqb-eq (x ∷ xs) (y ∷ ys) h = ground (arith, eqb-eq xs ys)

pub eqb_iff : (s t : Text) → (eqb s t ≡ true) ↔ (s ≡ t)
eqb_iff s t = (eqb-eq s t, λ e. rw e (eqb_refl t))

pub find_byte_lem :
    (c : ℕ) (xs ys : Text) (i : ℕ)
    → Lacks c xs
    → find_byte c (xs ++ (c ∷ ys)) i ≡ some (i + length xs)
find_byte_lem c [] ys i h = ground arith
find_byte_lem c (x ∷ xs) ys i h = ground (arith, find_byte_lem c xs ys (i + 1))

pub find_byte-none : (c : ℕ) (xs : Text) (i : ℕ) → Lacks c xs → find_byte c xs i ≡ none
find_byte-none c [] i h = refl
find_byte-none c (x ∷ xs) i h = ground (arith, find_byte-none c xs (i + 1))

-- A search from the end of a known prefix.
pub find_char_lem :
    (pre xs ys : Text) (c pos : ℕ)
    → pos ≡ length pre
    → Lacks c xs
    → find_char (pre ++ (xs ++ (c ∷ ys))) c pos ≡ some (pos + length xs)
find_char_lem pre xs ys c pos e h =
    rw (drop-append pos pre (xs ++ (c ∷ ys)) e) (find_byte_lem c xs ys pos h)

pub starts_with-append : (p s : Text) → starts_with p (p ++ s) ≡ true
starts_with-append [] s = refl
starts_with-append (x ∷ p) s = ground (arith, starts_with-append p s)

-- Where the pattern's first byte does not occur before it, it is found at its place.
pub find_text_lem :
    (c : ℕ) (p xs ys : Text) (i : ℕ)
    → Lacks c xs
    → find_text (c ∷ p) (xs ++ (c ∷ (p ++ ys))) i ≡ some (i + length xs)
find_text_lem c p [] ys i h = ground (arith, starts_with-append p ys)
find_text_lem c p (x ∷ xs) ys i h = ground (arith, find_text_lem c p xs ys (i + 1))
