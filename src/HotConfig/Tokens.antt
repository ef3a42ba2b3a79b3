-- ===== src/HotConfig/Tokens.antt =====
-- Texts of matched brackets, strings and other bytes, such as every JSON text is, and what the checks
-- of gateway_core/ConfigManager.cpp (lines 21-67 and 203-212) find in them.
use aiot_edge_gateway.Prelude.{
  ℕ, ◌+◌, ◌≡◌, ◌≢◌, refl, sym, ap, ◌∙◌, true, false, [], ◌∷◌, ◌++◌, arith, length, append_assoc,
  length-append,
}
use aiot_edge_gateway.Prelude.Text.{Text, Lacks, is_empty}
use aiot_edge_gateway.HotConfig.Scan.{
  Scan, scan_byte, scan_all, validate_json, outside, ends_object, trim_back,
}

pub data Tokens : Type 0 where
  end : Tokens
  plain : ℕ → Tokens → Tokens
  string : Text → Tokens → Tokens
  braces : Tokens → Tokens → Tokens
  brackets : Tokens → Tokens → Tokens

-- The tokens' text, in front of another.
abbrev pub print : Tokens → Text → Text
print end rest = rest
print (plain c ts) rest = c ∷ print ts rest
print (string body ts) rest = b'"' ∷ (body ++ (b'"' ∷ print ts rest))
print (braces ts us) rest = b'{' ∷ print ts (b'}' ∷ print us rest)
print (brackets ts us) rest = b'[' ∷ print ts (b']' ∷ print us rest)

abbrev pub IsPlain : ℕ → Type 0
IsPlain c = (c ≢ b'"') × (c ≢ b'{') × (c ≢ b'}') × (c ≢ b'[') × (c ≢ b']')

-- The content of a string: a quote or a backslash only behind a backslash.
pub data IsBody : Text → Type 0 where
  nil : IsBody []
  byte : {c : ℕ} {cs : Text} → c ≢ b'"' → c ≢ b'\\' → IsBody cs → IsBody (c ∷ cs)
  escaped : {c : ℕ} {cs : Text} → IsBody cs → IsBody (b'\\' ∷ c ∷ cs)

abbrev pub AreTokens : Tokens → Type 0
AreTokens end = Unit
AreTokens (plain c ts) = IsPlain c × AreTokens ts
AreTokens (string body ts) = IsBody body × AreTokens ts
AreTokens (braces ts us) = AreTokens ts × AreTokens us
AreTokens (brackets ts us) = AreTokens ts × AreTokens us

-- No string has a brace in it.
abbrev pub HaveNoBraces : Tokens → Type 0
HaveNoBraces end = Unit
HaveNoBraces (plain c ts) = HaveNoBraces ts
HaveNoBraces (string body ts) = Lacks b'{' body × Lacks b'}' body × HaveNoBraces ts
HaveNoBraces (braces ts us) = HaveNoBraces ts × HaveNoBraces us
HaveNoBraces (brackets ts us) = HaveNoBraces ts × HaveNoBraces us

abbrev inside : ℕ → Scan
inside depth = record { depth = depth; in_string = true; escape = false }

scan-body :
    (depth : ℕ) {body : Text} (rest : Text)
    → IsBody body
    → scan_all (inside depth) (body ++ (b'"' ∷ rest)) ≡ scan_all (outside depth) rest
unfolding scan_all scan_byte
scan-body depth rest nil = refl
scan-body depth rest (byte p q h) = ground (arith, scan-body depth rest h)
scan-body depth rest (escaped h) = ground (arith, scan-body depth rest h)

scan-tokens :
    (depth : ℕ) (ts : Tokens) (rest : Text)
    → AreTokens ts
    → scan_all (outside depth) (print ts rest) ≡ scan_all (outside depth) rest
unfolding scan_all scan_byte
scan-tokens depth end rest h = refl
scan-tokens depth (plain c ts) rest h = ground (arith, scan-tokens depth ts rest h.1)
scan-tokens depth (string body ts) rest h =
    scan-body depth (print ts rest) h.0 ∙ scan-tokens depth ts rest h.1
scan-tokens depth (braces ts us) rest h =
    scan-tokens (depth + 1) ts (b'}' ∷ print us rest) h.0
    ∙ ground (arith, scan-tokens depth us rest h.1)
scan-tokens depth (brackets ts us) rest h =
    scan-tokens (depth + 1) ts (b']' ∷ print us rest) h.0
    ∙ ground (arith, scan-tokens depth us rest h.1)

-- An object: tokens in braces.
abbrev pub object : Tokens → Text → Text
object ts rest = b'{' ∷ print ts (b'}' ∷ rest)

enclosed :
    (close : ℕ) (ts us : Tokens) (rest : Text)
    → ((r : Text) → print ts r ≡ print ts [] ++ r)
    → print us rest ≡ print us [] ++ rest
    → print ts (close ∷ print us rest) ≡ print ts (close ∷ print us []) ++ rest
enclosed close ts us rest inner outer =
    inner (close ∷ print us rest)
    ∙ ap (λ t. print ts [] ++ (close ∷ t)) outer
    ∙ sym (append_assoc (print ts []) (close ∷ print us []) rest)
    ∙ ap (λ t. t ++ rest) (sym (inner (close ∷ print us [])))

pub print-append : (ts : Tokens) (rest : Text) → print ts rest ≡ print ts [] ++ rest
print-append end rest = refl
print-append (plain c ts) rest = ap (λ t. c ∷ t) (print-append ts rest)
print-append (string body ts) rest =
    ap (λ t. b'"' ∷ (body ++ (b'"' ∷ t))) (print-append ts rest)
    ∙ ap (λ t. b'"' ∷ t) (sym (append_assoc body (b'"' ∷ print ts []) rest))
print-append (braces ts us) rest =
    ap (λ t. b'{' ∷ t) (enclosed b'}' ts us rest (print-append ts) (print-append us rest))
print-append (brackets ts us) rest =
    ap (λ t. b'[' ∷ t) (enclosed b']' ts us rest (print-append ts) (print-append us rest))

pub length-print :
    (ts : Tokens) (rest : Text) → length (print ts rest) ≡ length (print ts []) + length rest
length-print ts rest = ap length (print-append ts rest) ∙ length-append (print ts []) rest

ends-object : (t : Text) → ends_object (t ++ (b'}' ∷ [])) ≡ true
ends-object [] = refl
ends-object (c ∷ []) = refl
ends-object (c ∷ d ∷ t) = ends-object (d ∷ t)

is_empty-append : (t : Text) (c : ℕ) → is_empty (t ++ (c ∷ [])) ≡ false
is_empty-append [] c = refl
is_empty-append (d ∷ t) c = refl

trim_back-brace : (t : Text) → trim_back (t ++ (b'}' ∷ [])) ≡ t ++ (b'}' ∷ [])
trim_back-brace [] = refl
trim_back-brace (c ∷ t) = rw (trim_back-brace t, is_empty-append t b'}') refl

object-append : (ts : Tokens) → object ts [] ≡ (b'{' ∷ print ts []) ++ (b'}' ∷ [])
object-append ts = ap (λ t. b'{' ∷ t) (print-append ts (b'}' ∷ []))

scanned_end : scan_all (outside 0) [] ≡ true
unfolding scan_all
scanned_end = refl

-- The check accepts an object of matched brackets and whole strings, whatever they hold.
pub validate_json-object : (ts : Tokens) → AreTokens ts → validate_json (object ts []) ≡ true
unfolding validate_json
validate_json-object ts h = rw (trimmed, ends) scanned
  where
    trimmed : trim_back (object ts []) ≡ object ts []
    trimmed =
        ap trim_back (object-append ts)
        ∙ trim_back-brace (b'{' ∷ print ts [])
        ∙ sym (object-append ts)

    ends : ends_object (object ts []) ≡ true
    ends = ap ends_object (object-append ts) ∙ ends-object (b'{' ∷ print ts [])

    scanned : scan_all (outside 0) (object ts []) ≡ true
    scanned = scan-tokens 0 (braces ts end) [] (h, tt) ∙ scanned_end
