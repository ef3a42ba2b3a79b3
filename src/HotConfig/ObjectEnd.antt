-- ===== src/HotConfig/ObjectEnd.antt =====
-- The end of the object that an update's payload has (gateway_core/ConfigManager.cpp, lines 203-212).
use aiot_edge_gateway.Prelude.{
  ℕ, suc, ◌+◌, ◌≡◌, ◌≢◌, refl, sym, ap, ◌∙◌, Option, none, some, [], ◌∷◌, ◌++◌, arith, length,
  append_assoc, length-append, take-append, take,
}
use aiot_edge_gateway.Prelude.Text.{Text, Lacks}
use aiot_edge_gateway.HotConfig.Scan.{object_length}
use aiot_edge_gateway.HotConfig.Tokens.{
  Tokens, end, plain, string, braces, brackets, print, object, AreTokens, HaveNoBraces,
  print-append, length-print,
}

shift : ℕ → Option ℕ → Option ℕ
shift n none = none
shift n (some m) = some (m + n)

shift-shift : (m n k : ℕ) (o : Option ℕ) → k ≡ n + m → shift m (shift n o) ≡ shift k o
unfolding shift
shift-shift m n k none e = refl
shift-shift m n k (some i) e = ap some (omega (arith, e))

shift_zero : (o : Option ℕ) → o ≡ shift 0 o
unfolding shift
shift_zero none = refl
shift_zero (some i) = ap some (omega arith)

-- A byte that is no brace.
object_length-byte :
    (depth c : ℕ) (rest : Text)
    → c ≢ b'{'
    → c ≢ b'}'
    → object_length (c ∷ rest) depth ≡ shift 1 (object_length rest depth)
unfolding object_length shift
object_length-byte depth c rest h k = ground arith

object_length-body :
    (depth : ℕ) (body rest : Text)
    → Lacks b'{' body
    → Lacks b'}' body
    → object_length (body ++ rest) depth ≡ shift (length body) (object_length rest depth)
object_length-body depth [] rest h k = shift_zero (object_length rest depth)
object_length-body depth (c ∷ cs) rest h k =
    object_length-byte depth c (cs ++ rest) h.0 k.0
    ∙ ap (shift 1) (object_length-body depth cs rest h.1 k.1)
    ∙ shift-shift 1 (length cs) (suc (length cs)) (object_length rest depth) (omega arith)

object_length-open :
    (depth : ℕ) (rest : Text)
    → object_length (b'{' ∷ rest) depth ≡ shift 1 (object_length rest (suc depth))
unfolding object_length shift
object_length-open depth rest = ground arith

object_length-close :
    (depth : ℕ) (rest : Text)
    → object_length (b'}' ∷ rest) (suc (suc depth)) ≡ shift 1 (object_length rest (suc depth))
unfolding object_length shift
object_length-close depth rest = ground arith

object_length_end : (rest : Text) → object_length (b'}' ∷ rest) 1 ≡ some 1
unfolding object_length
object_length_end rest = ground arith

-- One stretch and then another.
both :
    {o p : Option ℕ} (q : Option ℕ) (n m k : ℕ)
    → o ≡ shift n p
    → p ≡ shift m q
    → k ≡ m + n
    → o ≡ shift k q
both q n m k e f g = e ∙ ap (shift n) f ∙ shift-shift n m k q g

object_length-tokens :
    (depth : ℕ) (ts : Tokens) (rest : Text)
    → AreTokens ts
    → HaveNoBraces ts
    → object_length (print ts rest) (suc depth)
      ≡ shift (length (print ts [])) (object_length rest (suc depth))
object_length-tokens depth end rest h k = shift_zero _
object_length-tokens depth (plain c ts) rest h k =
    both _ 1 (length (print ts [])) _ (object_length-byte (suc depth) c (print ts rest) h.0.1 h.0.2)
      (object_length-tokens depth ts rest h.1 k) (omega arith)
object_length-tokens depth (string body ts) rest h k =
    both _ 1 (length body + 1 + length (print ts [])) _
      (object_length-byte (suc depth) b'"' (body ++ (b'"' ∷ print ts rest)) (omega arith)
        (omega arith))
      (both _ (length body) (1 + length (print ts [])) _
        (object_length-body (suc depth) body (b'"' ∷ print ts rest) k.0 k.1)
        (both _ 1 (length (print ts [])) _
          (object_length-byte (suc depth) b'"' (print ts rest) (omega arith) (omega arith))
          (object_length-tokens depth ts rest h.1 k.2) (omega arith))
        (omega arith))
      (omega (arith, length-append body (b'"' ∷ print ts [])))
object_length-tokens depth (braces ts us) rest h k =
    both _ 1 (length (print ts []) + 1 + length (print us [])) _
      (object_length-open (suc depth) (print ts (b'}' ∷ print us rest)))
      (both _ (length (print ts [])) (1 + length (print us [])) _
        (object_length-tokens (suc depth) ts (b'}' ∷ print us rest) h.0 k.0)
        (both _ 1 (length (print us [])) _ (object_length-close depth (print us rest))
          (object_length-tokens depth us rest h.1 k.1) (omega arith))
        (omega arith))
      (omega (arith, length-print ts (b'}' ∷ print us [])))
object_length-tokens depth (brackets ts us) rest h k =
    both _ 1 (length (print ts []) + 1 + length (print us [])) _
      (object_length-byte (suc depth) b'[' (print ts (b']' ∷ print us rest)) (omega arith)
        (omega arith))
      (both _ (length (print ts [])) (1 + length (print us [])) _
        (object_length-tokens depth ts (b']' ∷ print us rest) h.0 k.0)
        (both _ 1 (length (print us [])) _
          (object_length-byte (suc depth) b']' (print us rest) (omega arith) (omega arith))
          (object_length-tokens depth us rest h.1 k.1) (omega arith))
        (omega arith))
      (omega (arith, length-print ts (b']' ∷ print us [])))

-- The object that the update's payload goes on with is found to its end, where no string of it has a
-- brace.
pub object_length-object :
    (ts : Tokens) (rest : Text)
    → AreTokens ts
    → HaveNoBraces ts
    → object_length (object ts rest) 0 ≡ some (length (object ts []))
unfolding shift
object_length-object ts rest h k =
    both _ 1 (length (print ts [])) _ (object_length-open 0 (print ts (b'}' ∷ rest)))
      (object_length-tokens 0 ts (b'}' ∷ rest) h k) refl
    ∙ ap (shift (length (print ts []) + 1)) (object_length_end rest)
    ∙ ap some (omega (arith, length-print ts (b'}' ∷ [])))

pub take-object :
    (ts : Tokens) (rest : Text) → take (length (object ts [])) (object ts rest) ≡ object ts []
take-object ts rest =
    ap (take (length (object ts []))) (object-rest)
    ∙ take-append (length (object ts [])) (object ts []) rest refl
  where
    object-rest : object ts rest ≡ object ts [] ++ rest
    object-rest =
        ap (λ t. b'{' ∷ t)
          (print-append ts (b'}' ∷ rest)
            ∙ sym (append_assoc (print ts []) (b'}' ∷ []) rest)
            ∙ ap (λ t. t ++ rest) (sym (print-append ts (b'}' ∷ []))))
