-- ===== src/HotConfig/Tests.antt =====
-- An update of the sampling interval, and texts at the edges of the check.
use aiot_edge_gateway.Prelude.{
  ℕ, suc, ◌≡◌, ◌≢◌, refl, true, false, none, some, List, [], ◌∷◌, arith, if◌then◌else◌,
}
use aiot_edge_gateway.Prelude.Text.{Text, codes, eqb}
use aiot_edge_gateway.HotConfig.Scan.{validate_json, scan_all, scan_byte, object_length}
use aiot_edge_gateway.HotConfig.Value.{extract_value, read_key, read_value}
use aiot_edge_gateway.HotConfig.Tokens.{
  Tokens, end, plain, string, braces, object, AreTokens, IsBody,
}
use aiot_edge_gateway.HotConfig.Manager.{
  ConfigFiles, Disk, WatchEntry, params, find_params, notify_all, handle_config_update,
}
use aiot_edge_gateway.HotConfig.Laws.{update-persists}

-- The kinds of the brackets are not compared.
validate-mixed : validate_json (codes " {[}} ") ≡ true
unfolding validate_json scan_all scan_byte
validate-mixed = refl

validate_open_string : validate_json (codes "{\"a}") ≡ false
unfolding validate_json scan_all scan_byte
validate_open_string = refl

-- A brace in a string ends the object too early.
cut-params : find_params (codes "{\"params\":{\"a\":\"x}\"}}") ≡ params (codes "{\"a\":\"x}")
unfolding find_params object_length
cut-params = refl

abbrev settings : Text
settings = codes "{\"modbus\":{\"poll\": 500,\"unit\":\"ms\"}}"

extract-poll :
    (extract_value settings (codes "modbus") (codes "poll") ≡ codes "500")
    × (extract_value settings (codes "modbus") (codes "unit") ≡ codes "ms")
unfolding extract_value read_key read_value
extract-poll = (refl, refl)

-- `{"m":{"p":5}}`
abbrev tokens : Tokens
tokens =
    string (codes "m") (plain b':' (braces (string (codes "p") (plain b':' (plain b'5' end))) end))

tokens-AreTokens : AreTokens tokens
tokens-AreTokens =
    let name = λ (c : ℕ) (p : c ≢ b'"') (q : c ≢ b'\\'). IsBody.byte p q IsBody.nil in
    (
      name b'm' (omega arith) (omega arith),
      (
        omega arith,
        ((name b'p' (omega arith) (omega arith), (omega arith, (omega arith, tt))), tt),
      ),
    )

abbrev payload : Text
payload = codes "{\"params\":{\"m\":{\"p\":5}}}"

abbrev files : ConfigFiles
files = record { current = some (codes "{}"); backup = none; temp = none }

abbrev disk : Disk
disk = record {
  current_opens = true;
  backup_written = none;
  backup_opens = true;
  temp_opens = true;
  temp_written = none;
  rename_works = true;
}

-- The application counts what its watcher is told.
abbrev watchers : List (WatchEntry ℕ)
watchers =
    record { section = codes "m"; key = codes "p"; watcher = λ value n. (codes "ACK", suc n) } ∷ []

abbrev hash : Text → Text
hash t = codes "0"

update-persists_example :
    let (told, app') = notify_all watchers (object tokens []) 0 in
    handle_config_update hash watchers disk payload files 0 ≡ (
      (if eqb told (codes "ACK") then codes "ACK: config updated, hash=0" else told),
      record {
        current = some (codes "{\"m\":{\"p\":5}}");
        backup = some (codes "{}");
        temp = none;
      },
      app',
    )
update-persists_example =
    update-persists hash watchers disk payload (codes "{\"params\":") tokens (codes "}") 1 files 0
      refl refl refl tokens-AreTokens (omega arith) (refl, refl, refl, refl, refl, refl)
