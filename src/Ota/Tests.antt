-- ===== src/Ota/Tests.antt =====
-- An update as the cloud sends it, and a job made by hand whose file verifies.
use aiot_edge_gateway.Prelude.{
  Bool, false, ℕ, ◌≡◌, ◌⊎◌, refl, true, false, none, some, [], ◌∷◌, arith,
}
use aiot_edge_gateway.Prelude.Text.{Text, codes}
use aiot_edge_gateway.Hash.Digest.{
  sha256_file, sha256_buffer, initial, absorb_blocks, absorb_rest, hex,
}
use aiot_edge_gateway.Hash.Compress.{
  rounds, rotr, next_word, load_words, extend_words, round_constants, sha256_transform,
}
use aiot_edge_gateway.Ota.Manager.{
  Action, OtaManager, Job, Transfer, extract_str, start_job, handle_ota_update, download_model,
  verify_sha256, prepare_switch, run_job,
}
use aiot_edge_gateway.Ota.Laws.{prepare_switch-verified, payload_of, Taken, Untaken, run_job-answer}
use aiot_edge_gateway.Ota.Extract.{handle_ota_update-never_switches}

abbrev update : Text
update = codes "{\"url\":\"http://c/m\",\"sha256\":\"ba78\"}"

-- The colons.
extract-update : (extract_str update 1 ≡ codes ":") × (extract_str update 20 ≡ codes ":")
unfolding extract_str
extract-update = (refl, refl)

abbrev manager : OtaManager
manager = record {
  model_dir = codes "models";
  has_reporter = false;
  pending = none;
  files = λ p. none;
  actions = [];
}

-- Any address answers with the same three bytes.
abbrev fetch : Text → ℕ → Transfer
fetch url offset = record { is_ok = true; http_code = 200; received = codes "abc" }

abbrev job : Job
job = record {
  url = codes "http://c/m";
  expected_sha256 = codes "ba7816bf8f01cfea414140de5dae2223b00361a396177a9cb410ff61f20015ad";
  job_name = codes "m";
  job_version = codes "2.0";
  job_path = codes "models/m";
}

abbrev colon_job : Job
colon_job = record {
  url = codes ":";
  expected_sha256 = codes ":";
  job_name = codes "model.rknn";
  job_version = codes "1.0";
  job_path = codes "models/model.rknn";
}

handle_ota_update-never_switches_example :
    let m' = run_job fetch (λ p. true) (some (λ c. true)) manager colon_job in
    (m'.pending ≡ none)
    × ((m'.actions ≡ []) ⊎ ((status : Text) × (m'.actions ≡ Action.report status ∷ [])))
unfolding handle_ota_update start_job extract_str
handle_ota_update-never_switches_example =
    handle_ota_update-never_switches fetch (λ p. true) (some (λ c. true)) manager update
      (codes "{\"url\":\"http://c/m\",") (codes ":") (codes "ba78\"}") colon_job refl refl
      (search arith) (λ e. ground arith) refl

prepare_switch-verified_example :
    let m' = (prepare_switch fetch (λ p. true) manager job).1 in
    (sha256_file (m'.files (codes "models/m")) ≡ job.expected_sha256)
    × (m'.pending
        ≡ some (record {
          model_name = codes "m";
          version = codes "2.0";
          sha256 = job.expected_sha256;
          dest_path = codes "models/m";
        }))
    × (m'.actions ≡ [])
unfolding prepare_switch download_model verify_sha256 sha256_file initial absorb_blocks absorb_rest
    hex sha256_buffer rounds rotr next_word load_words extend_words round_constants sha256_transform
prepare_switch-verified_example = prepare_switch-verified fetch (λ p. true) manager job refl

run_job-answer_example :
    let sent = run_job fetch (λ p. true) (some (λ c. true)) manager job in
    let told = Action.send_command (payload_of job) ∷ [] in
    (sha256_file (sent.files job.job_path) ≡ job.expected_sha256)
    × (((Path Bool true true) × Taken told job (codes "bad") sent)
        ⊎ ((Path Bool true false) × Untaken told (codes "bad") sent))
unfolding prepare_switch download_model verify_sha256 sha256_file initial absorb_blocks absorb_rest
    hex sha256_buffer rounds rotr next_word load_words extend_words round_constants sha256_transform
run_job-answer_example = run_job-answer fetch (λ p. true) (λ c. true) manager job (codes "bad") refl
