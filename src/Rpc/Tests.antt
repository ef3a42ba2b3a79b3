-- ===== src/Rpc/Tests.antt =====
-- Concrete requests, with ids that are strings and ids that are numbers.
use aiot_edge_gateway.Prelude.{ℕ, suc, ◌≡◌, refl, List, [], ◌∷◌, arith}
use aiot_edge_gateway.Prelude.Text.{Text, codes}
use aiot_edge_gateway.Rpc.Handler.{
  MethodHandler, dispatch, dispatch_named, call_handler, remember, evict_oldest, extract_json_str,
  quoted_from,
}
use aiot_edge_gateway.Rpc.Replay.{with_ids, dispatch_all, dispatch-no_replay}
use aiot_edge_gateway.Rpc.NumericId.{numeric_ids-collide}

abbrev reboot : Text
reboot = codes "{\"id\":\"a7\",\"method\":\"reboot\"}"

abbrev status : Text
status = codes "{\"id\":\"b1\",\"method\":\"status\"}"

abbrev first_numeric : Text
first_numeric = codes "{\"id\":1,\"method\":\"reboot\"}"

abbrev second_numeric : Text
second_numeric = codes "{\"id\":2,\"method\":\"reboot\"}"

-- The application counts the reboots.
abbrev handlers : List (Text × MethodHandler ℕ)
handlers = (codes "reboot", λ payload n. (codes "ACK", suc n)) ∷ []

dispatch-reboot :
    dispatch (with_ids handlers []) reboot 0 ≡ (codes "ACK", with_ids handlers (codes "a7" ∷ []), 1)
unfolding dispatch dispatch_named call_handler remember evict_oldest extract_json_str quoted_from
dispatch-reboot = refl

dispatch-no_replay_example :
    let h = (dispatch_all (with_ids handlers []) (reboot ∷ status ∷ []) 0).0 in
    dispatch h reboot 1 ≡ (codes "NACK: duplicate request id", h, 1)
unfolding extract_json_str quoted_from
dispatch-no_replay_example =
    dispatch-no_replay handlers [] reboot reboot (status ∷ []) 0 1 (omega arith)
      (11, codes "reboot", refl, refl) refl refl (11, codes "reboot", refl, refl) refl (omega arith)

numeric_ids-collide_example :
    let h = (dispatch_all (with_ids handlers []) (first_numeric ∷ []) 0).0 in
    dispatch h second_numeric 1 ≡ (codes "NACK: duplicate request id", h, 1)
unfolding extract_json_str quoted_from
numeric_ids-collide_example =
    numeric_ids-collide handlers [] first_numeric second_numeric 0 1 (omega arith) refl
      (8, codes "reboot", refl, refl)
      (codes "{", codes ":1,", codes ":\"reboot\"}", refl, refl, search arith)
      (8, codes "reboot", refl, refl)
      (codes "{", codes ":2,", codes ":\"reboot\"}", refl, refl, search arith)
