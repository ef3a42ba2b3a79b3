-- ===== src/Rpc/NumericId.antt =====
-- What `extract_json_str` reads of an id that is a number (gateway_core/RpcHandler.cpp, lines 7-16
-- and 31): the next text in quotes, which is a key.
use aiot_edge_gateway.Prelude.{
  ◌≤◌, ◌≡◌, refl, sym, ◌∙◌, false, some, List, [], ◌∷◌, ◌++◌, arith, length,
}
use aiot_edge_gateway.Prelude.Text.{Text, codes, Lacks, find}
use aiot_edge_gateway.Rpc.Handler.{MethodHandler, dispatch, contains, quote, quoted, max_seen_ids}
use aiot_edge_gateway.Rpc.Extract.{extract_json_str_lem}
use aiot_edge_gateway.Rpc.Replay.{
  NamesMethod, request_id, with_ids, dispatch_all, dispatch-no_replay,
}

-- The member `"id"` is a number, that is a text without quotes, and the member `"method"` is next.
abbrev pub HasNumericId : Text → Type 0
HasNumericId payload =
    (pre : Text) × (number : Text) × (rest : Text) × (payload
      ≡ pre ++ (quoted (codes "id") ++ (number ++ (quote ∷ (codes "method" ++ (quote ∷ rest))))))
    × (find payload (quoted (codes "id")) 0 ≡ some (length pre))
    × Lacks quote number

numeric_id : (payload : Text) → HasNumericId payload → request_id payload ≡ codes "method"
numeric_id payload (pre, number, rest, e, f, n) =
    extract_json_str_lem payload pre (codes "id") number (codes "method") rest e f n (search arith)

module _ {ℓ} {App : Type ℓ} where
  -- Two requests that name a method and whose ids are numbers, whatever numbers, are taken for one:
  -- a handler that has seen no such request accepts the first and refuses the second as a duplicate.
  pub numeric_ids-collide :
      (hs : List (Text × MethodHandler App)) (ids : List Text) (first second : Text)
      (app app' : App)
      → length ids ≤ max_seen_ids
      → contains ids (codes "method") ≡ false
      → NamesMethod first
      → HasNumericId first
      → NamesMethod second
      → HasNumericId second
      → (let h = (dispatch_all (with_ids hs ids) (first ∷ []) app).0 in
          dispatch h second app' ≡ (codes "NACK: duplicate request id", h, app'))
  numeric_ids-collide hs ids first second app app' g c m i m' i' =
      dispatch-no_replay hs ids first second [] app app' g m (rw (numeric_id first i) refl)
        (rw (numeric_id first i) c) m' (numeric_id second i' ∙ sym (numeric_id first i))
        (omega arith)
