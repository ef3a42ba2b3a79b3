-- ===== src/Rpc/Extract.antt =====
-- What the text searches of gateway_core/RpcHandler.cpp find in a request.
use aiot_edge_gateway.Prelude.{
  ℕ, ◌+◌, ◌-◌, ◌≡◌, refl, sym, ap, ap₂, ◌∙◌, some, [], ◌∷◌, ◌++◌, arith, length, take, drop,
  append_assoc, length-append, take-append, drop-append,
}
use aiot_edge_gateway.Prelude.Text.{Text, Lacks, find, find_char, substr, find_char_lem}
use aiot_edge_gateway.Rpc.Handler.{quote, quoted, quoted_from, extract_json_str}

regroup : (pre mid ys : Text) → pre ++ (mid ++ (quote ∷ ys)) ≡ (pre ++ (mid ++ (quote ∷ []))) ++ ys
regroup pre mid ys =
    ap (λ t. pre ++ t) (sym (append_assoc mid (quote ∷ []) ys))
    ∙ sym (append_assoc pre (mid ++ (quote ∷ [])) ys)

quoted_from-found :
    (json : Text) (pos s t : ℕ)
    → find_char json quote pos ≡ some s
    → find_char json quote (s + 1) ≡ some t
    → quoted_from json pos ≡ some (substr json (s + 1) (t - (s + 1)))
unfolding quoted_from
quoted_from-found json pos s t e f = ground arith

-- Between the next quote and the one after it stands `value`.
pub quoted_from_lem :
    (pre mid value rest : Text) (pos : ℕ)
    → pos ≡ length pre
    → Lacks quote mid
    → Lacks quote value
    → quoted_from (pre ++ (mid ++ (quote ∷ (value ++ (quote ∷ rest))))) pos ≡ some value
quoted_from_lem pre mid value rest pos e hm hv =
    quoted_from-found json pos (pos + length mid) (pos + length mid + 1 + length value) first second
    ∙ ap some between
  where
    json : Text
    json = pre ++ (mid ++ (quote ∷ (value ++ (quote ∷ rest))))

    head : Text
    head = pre ++ (mid ++ (quote ∷ []))

    first : find_char json quote pos ≡ some (pos + length mid)
    first = find_char_lem pre mid (value ++ (quote ∷ rest)) quote pos e hm

    at : pos + length mid + 1 ≡ length head
    at = omega (arith, e, length-append pre (mid ++ (quote ∷ [])), length-append mid (quote ∷ []))

    split : json ≡ head ++ (value ++ (quote ∷ rest))
    split = regroup pre mid (value ++ (quote ∷ rest))

    second :
        find_char json quote (pos + length mid + 1) ≡ some (pos + length mid + 1 + length value)
    second =
        ap (λ t. find_char t quote (pos + length mid + 1)) split
        ∙ find_char_lem head value rest quote (pos + length mid + 1) at hv

    between :
        substr json
          (pos + length mid + 1)
          (pos + length mid + 1 + length value - (pos + length mid + 1))
        ≡ value
    between =
        ap₂ take (omega arith) (
          ap (drop (pos + length mid + 1)) split
          ∙ drop-append (pos + length mid + 1) head (value ++ (quote ∷ rest)) at)
        ∙ take-append (length value) value (quote ∷ rest) refl

extract_json_str-found :
    (json key value : Text) (pos : ℕ)
    → find json (quoted key) 0 ≡ some pos
    → quoted_from json (pos + length key + 2) ≡ some value
    → extract_json_str json key ≡ value
unfolding extract_json_str
extract_json_str-found json key value pos e f = ground arith

-- Where the key first stands with its quotes, the two quotes that come next delimit the result:
-- the value, if that is a string; otherwise whatever they delimit.
pub extract_json_str_lem :
    (json pre key mid value rest : Text)
    → json ≡ pre ++ (quoted key ++ (mid ++ (quote ∷ (value ++ (quote ∷ rest)))))
    → find json (quoted key) 0 ≡ some (length pre)
    → Lacks quote mid
    → Lacks quote value
    → extract_json_str json key ≡ value
extract_json_str_lem json pre key mid value rest e f hm hv =
    extract_json_str-found json key value (length pre) f found
  where
    found : quoted_from json (length pre + length key + 2) ≡ some value
    found =
        ap (λ t. quoted_from t (length pre + length key + 2))
          (e ∙ sym (append_assoc pre (quoted key) _))
        ∙ quoted_from_lem (pre ++ quoted key) mid value rest _
            (omega (arith, length-append pre (quoted key), length-append key (quote ∷ []))) hm hv
