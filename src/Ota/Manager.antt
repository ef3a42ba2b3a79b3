-- ===== src/Ota/Manager.antt =====
-- The class `OtaManager` (gateway_core/OtaManager.{h,cpp}). The thread that `handle_ota_update`
-- starts is a job that is run later, in two parts: up to the pending update, and the notice to the
-- engine. What curl fetches and what the engine's queue takes are parameters.
use aiot_edge_gateway.Prelude.{
  ℕ, ◌+◌, ◌-◌, Bool, true, false, ◌||◌, ◌&&◌, Option, none, some, List, [], ◌∷◌, ◌++◌, length, ◌==◌,
  if◌then◌else◌,
}
use aiot_edge_gateway.Prelude.Text.{Text, codes, eqb, is_empty, find, find_char, substr}
use aiot_edge_gateway.Hash.Digest.{sha256_file}

-- The files by their paths.
abbrev pub Files : Type 0
Files = Text → Option (List ℕ)

abbrev pub with_file : Files → Text → Option (List ℕ) → Files
with_file files path content = λ p. if eqb p path then content else files p

pub record PendingOta : Type 0 where
  pub model_name : Text
  pub version : Text
  pub sha256 : Text
  pub dest_path : Text

-- What the other parts of the program see of the manager.
pub data Action : Type 0 where
  report : Text → Action
  send_command : Text → Action
  save_version : Text → Text → Text → Action

pub record OtaManager : Type 0 where
  pub model_dir : Text
  -- Whether the callback is set.
  pub has_reporter : Bool
  pub pending : Option PendingOta
  pub files : Files
  -- The actions, the last one first.
  pub actions : List Action

abbrev pub act : OtaManager → Action → OtaManager
act m a = record m { actions = a ∷ m.actions }

-- `if (status_reporter_) status_reporter_(status)`
abbrev pub report_status : OtaManager → Text → OtaManager
report_status m status = if m.has_reporter then act m (report status) else m

abbrev pub quote : ℕ
quote = b'"'

-- `npos + 1` is 0, so that the test of `start` never fails.
unfoldable pub extract_str : Text → ℕ → Text
extract_str payload pos =
    let start : ℕ = elim (find_char payload quote (pos + 1)) [ none ↦ 0 | some s ↦ s + 1 ] in
    elim (find_char payload quote start) [
      | none ↦ []
      | some end ↦ substr payload start (end - start)
    ]

-- What the thread captures.
pub record Job : Type 0 where
  pub url : Text
  pub expected_sha256 : Text
  pub job_name : Text
  pub job_version : Text
  pub job_path : Text

abbrev pub extract_or : Text → Text → Text → Text
extract_or payload key default = elim (find payload key 0) [
  | none ↦ default
  | some pos ↦ extract_str payload pos
]

-- The values of the four members, and the job that they make.
abbrev pub make_job : Text → Text → ℕ → ℕ → Job
make_job model_dir payload url_pos sha256_pos =
    let name = extract_or payload (codes "\"model_name\"") (codes "model.rknn") in
    record {
      url = extract_str payload url_pos;
      expected_sha256 = extract_str payload sha256_pos;
      job_name = name;
      job_version = extract_or payload (codes "\"version\"") (codes "1.0");
      job_path = model_dir ++ (codes "/" ++ name);
    }

unfoldable pub start_job : Job → Text × Option Job
start_job job =
    if is_empty job.url || is_empty job.expected_sha256
    then (codes "NACK: invalid params", none)
    else (codes "ACK: download started, will notify engine on success", some job)

unfoldable pub handle_ota_update : Text → Text → Text × Option Job
handle_ota_update model_dir payload = elim (find payload (codes "\"url\"") 0) [
  | none ↦ (codes "NACK: missing url or sha256", none)
  | some url_pos ↦ elim (find payload (codes "\"sha256\"") 0) [
    | none ↦ (codes "NACK: missing url or sha256", none)
    | some sha256_pos ↦ start_job (make_job model_dir payload url_pos sha256_pos)
  ]
]

-- What a transfer ends with: whether curl is content, the status of the answer, and the bytes that
-- were written.
pub record Transfer : Type 0 where
  pub is_ok : Bool
  pub http_code : ℕ
  pub received : List ℕ

-- `fetch url offset` is the transfer from that offset on, and `can_open` whether the file opens.
unfoldable pub download_model :
    (Text → ℕ → Transfer) → (Text → Bool) → Files → Text → Text → Bool × Files
download_model fetch can_open files url dest_path =
    let existing : List ℕ = elim (files dest_path) [ none ↦ [] | some bytes ↦ bytes ] in
    let transfer = fetch url (length existing) in
    if can_open dest_path
    then (
      transfer.is_ok && (transfer.http_code == 200 || transfer.http_code == 206),
      with_file files dest_path (some (existing ++ transfer.received)),
    )
    else (false, files)

unfoldable pub verify_sha256 : Files → Text → Text → Bool
verify_sha256 files file_path expected_hash =
    let actual_hash = sha256_file (files file_path) in
    if is_empty actual_hash then false else eqb actual_hash expected_hash

-- The thread, up to the pending update. `true`: the engine is to be notified.
unfoldable pub prepare_switch :
    (Text → ℕ → Transfer) → (Text → Bool) → OtaManager → Job → Bool × OtaManager
prepare_switch fetch can_open m job =
    let (downloaded, files) = download_model fetch can_open m.files job.url job.job_path in
    let m' = record m { files = files } in
    if downloaded
    then (if verify_sha256 files job.job_path job.expected_sha256
        then (
          true,
          record m' {
            pending = some (record {
              model_name = job.job_name;
              version = job.job_version;
              sha256 = job.expected_sha256;
              dest_path = job.job_path;
            });
          },
        )
        else (
          false,
          report_status (record m' { files = with_file files job.job_path none })
              (codes "NACK: OTA SHA256 verification failed"),
        ))
    else (false, report_status m' (codes "NACK: OTA download failed"))

-- The notice. `sender` is the callback, which says whether the engine's queue took the command;
-- `none` is a callback that is not set.
unfoldable pub notify_engine_switch : Option (Text → Bool) → OtaManager → Job → OtaManager
notify_engine_switch none m job =
    report_status (record m { pending = none }) (codes "NACK: failed to notify engine")
notify_engine_switch (some sender) m job =
    let payload = job.job_path ++ (codes "|" ++ job.expected_sha256) in
    let m' = act m (send_command payload) in
    if sender payload
    then m'
    else report_status (record m' { pending = none }) (codes "NACK: failed to notify engine")

unfoldable pub run_job :
    (Text → ℕ → Transfer) → (Text → Bool) → Option (Text → Bool) → OtaManager → Job → OtaManager
run_job fetch can_open sender m job =
    let (ready, m') = prepare_switch fetch can_open m job in
    if ready then notify_engine_switch sender m' job else m'

unfoldable pub on_model_switch_ack : OtaManager → OtaManager
on_model_switch_ack m = elim m.pending [
  | none ↦ m
  | some p ↦
      let m' = act m (save_version p.model_name p.version p.sha256) in
      record (report_status m' (codes "OTA: model updated to " ++ p.model_name)) { pending = none }
]

unfoldable pub on_model_switch_nack : OtaManager → Text → OtaManager
on_model_switch_nack m reason = elim m.pending [
  | none ↦ m
  | some p ↦
      let m' = record m { files = with_file m.files p.dest_path none } in
      record (report_status m' (codes "OTA: engine rejected model switch: " ++ reason)) {
        pending = none;
      }
]
