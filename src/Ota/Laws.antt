-- ===== src/Ota/Laws.antt =====
-- When the engine is told to switch, what is then pending, and what `extract_str` makes of that.
use aiot_edge_gateway.Prelude.{
  ℕ, ◌≡◌, ◌≢◌, ◌⊎◌, refl, sym, ap, ◌∙◌, Bool, true, false, Option, none, some, List, ◌∷◌, ◌++◌,
  length, arith, inl, inr, Bool-cases, Option-cases, subst, if◌then◌else◌,
}
use aiot_edge_gateway.Prelude.Text.{Text, codes, eqb-eq, eqb_refl}
use aiot_edge_gateway.Hash.Digest.{sha256_file, sha256_buffer, hex}
use aiot_edge_gateway.Ota.Manager.{
  Action, PendingOta, OtaManager, Job, Files, Transfer, download_model, verify_sha256,
  prepare_switch, notify_engine_switch, run_job, on_model_switch_ack, on_model_switch_nack,
  report_status,
}

length-sha256_buffer : (bytes : List ℕ) → length (sha256_buffer bytes) ≡ 64
unfolding sha256_buffer hex
length-sha256_buffer bytes = refl

-- A file verifies exactly where it can be opened and its digest is the expected one.
verify_sha256-eq :
    (files : Files) (path hash : Text)
    → verify_sha256 files path hash ≡ true
    → sha256_file (files path) ≡ hash
unfolding verify_sha256
verify_sha256-eq files path hash h = ground (arith, eqb-eq (sha256_file (files path)) hash)

-- No digest has another length than 64.
verify_sha256-fails :
    (files : Files) (path hash : Text) → length hash ≢ 64 → verify_sha256 files path hash ≡ false
unfolding verify_sha256 sha256_file
verify_sha256-fails files path hash h = elim (Option-cases (files path)) [
  | inl e ↦ rw e refl
  | inr (bytes, e) ↦ elim (Bool-cases (verify_sha256 files path hash)) [
    | inl v ↦ absurd (
        h (
          sym (ap length (verify_sha256-eq files path hash v))
          ∙ ap (λ o. length (sha256_file o)) e
          ∙ length-sha256_buffer bytes))
    | inr v ↦ v
  ]
]

refuted : (b : Bool) → b ≡ true → b ≡ false → ⊥
refuted b h h' = ground arith

-- A report goes out, or nothing where no one listens.
reports :
    (m : OtaManager) (status : Text)
    → ((report_status m status).pending ≡ m.pending)
      × (((report_status m status).actions ≡ m.actions)
          ⊎ ((s : Text) × ((report_status m status).actions ≡ Action.report s ∷ m.actions)))
reports m status = elim (Bool-cases m.has_reporter) [
  | inl e ↦ rw e (refl, inr (status, refl))
  | inr e ↦ rw e (refl, inl refl)
]

module _ (fetch : Text → ℕ → Transfer) (can_open : Text → Bool) where
  no_download :
      (m : OtaManager) (job : Job)
      → (download_model fetch can_open m.files job.url job.job_path).0 ≡ false
      → (prepare_switch fetch can_open m job).0 ≡ false
  unfolding prepare_switch
  no_download m job d = rw (prepare_switch, d) refl

  not_verified :
      (m : OtaManager) (job : Job)
      → (download_model fetch can_open m.files job.url job.job_path).0 ≡ true
      → verify_sha256
          (download_model fetch can_open m.files job.url job.job_path).1
          job.job_path
          job.expected_sha256
        ≡ false
      → (prepare_switch fetch can_open m job).0 ≡ false
  unfolding prepare_switch
  not_verified m job d v = rw (prepare_switch, d, v) refl

  -- The job of an update goes on to the engine only with a file at its path whose digest is the
  -- expected one, and what is then pending names that file and that digest.
  pub prepare_switch-verified :
      (m : OtaManager) (job : Job)
      → (prepare_switch fetch can_open m job).0 ≡ true
      → (let m' = (prepare_switch fetch can_open m job).1 in
          (sha256_file (m'.files job.job_path) ≡ job.expected_sha256)
          × (m'.pending
              ≡ some (record {
                model_name = job.job_name;
                version = job.job_version;
                sha256 = job.expected_sha256;
                dest_path = job.job_path;
              }))
          × (m'.actions ≡ m.actions))
  unfolding prepare_switch
  prepare_switch-verified m job h =
      elim (Bool-cases (download_model fetch can_open m.files job.url job.job_path).0) [
        | inl d ↦
            elim (Bool-cases (
              verify_sha256 (download_model fetch can_open m.files job.url job.job_path).1
                job.job_path job.expected_sha256)) [
                  | inl v ↦ rw (prepare_switch, d, v) (verify_sha256-eq _ _ _ v, refl, refl)
                  | inr v ↦ absurd (refuted _ h (not_verified m job d v))
                ]
        | inr d ↦ absurd (refuted _ h (no_download m job d))
      ]

  -- A job that expects a digest of another length leaves the pending update, tells the engine
  -- nothing, and reports at most a failure.
  pub run_job-refused :
      (sender : Option (Text → Bool)) (m : OtaManager) (job : Job)
      → length job.expected_sha256 ≢ 64
      → (let m' = run_job fetch can_open sender m job in
          (m'.pending ≡ m.pending)
          × ((m'.actions ≡ m.actions)
              ⊎ ((status : Text) × (m'.actions ≡ Action.report status ∷ m.actions))))
  unfolding run_job prepare_switch
  run_job-refused sender m job n =
      elim (Bool-cases (download_model fetch can_open m.files job.url job.job_path).0) [
        | inl d ↦
            rw
              (
                run_job,
                prepare_switch,
                d,
                verify_sha256-fails (download_model fetch can_open m.files job.url job.job_path).1
                    job.job_path job.expected_sha256 n,
              )
              (reports _ _)
        | inr d ↦ rw (run_job, prepare_switch, d) (reports _ _)
      ]

-- A report before the other actions, where someone listens.
abbrev pub reported : OtaManager → Text → List Action → List Action
reported m status actions = if m.has_reporter then Action.report status ∷ actions else actions

abbrev pub payload_of : Job → Text
payload_of job = job.job_path ++ (codes "|" ++ job.expected_sha256)

-- The engine's queue took the command, and the engine agrees or refuses.
abbrev pub Taken : List Action → Job → Text → OtaManager → Type 0
Taken actions job reason sent =
    let acked = on_model_switch_ack sent in
    let nacked = on_model_switch_nack sent reason in
    (acked.pending ≡ none)
    × (acked.actions
        ≡ reported sent (codes "OTA: model updated to " ++ job.job_name)
            (Action.save_version job.job_name job.job_version job.expected_sha256 ∷ actions))
    × (on_model_switch_ack acked ≡ acked)
    × (nacked.pending ≡ none)
    × (nacked.files job.job_path ≡ none)
    × (nacked.actions
        ≡ reported sent (codes "OTA: engine rejected model switch: " ++ reason) actions)

-- It did not take it.
abbrev pub Untaken : List Action → Text → OtaManager → Type 0
Untaken actions reason sent =
    (sent.pending ≡ none)
    × (sent.actions ≡ reported sent (codes "NACK: failed to notify engine") actions)
    × (on_model_switch_ack sent ≡ sent)
    × (on_model_switch_nack sent reason ≡ sent)

abbrev pending_of : Job → PendingOta
pending_of job = record {
  model_name = job.job_name;
  version = job.job_version;
  sha256 = job.expected_sha256;
  dest_path = job.job_path;
}

abbrev Answered : (Text → Bool) → List Action → Job → Text → OtaManager → Type 0
Answered sender actions job reason sent =
    ((sender (payload_of job) ≡ true) × Taken actions job reason sent)
    ⊎ ((sender (payload_of job) ≡ false) × Untaken actions reason sent)

notify-answer :
    (sender : Text → Bool) (m : OtaManager) (job : Job) (reason : Text)
    → m.pending ≡ some (pending_of job)
    → Answered sender
        (Action.send_command (payload_of job) ∷ m.actions)
        job
        reason
        (notify_engine_switch (some sender) m job)
unfolding notify_engine_switch on_model_switch_ack on_model_switch_nack
notify-answer sender m job reason e = elim (Bool-cases (sender (payload_of job))) [
  | inl t ↦ elim (Bool-cases m.has_reporter) [
    | inl r ↦ inl (
      t,
      rw (notify_engine_switch, t, e, r, eqb_refl (job.job_path))
          (refl, refl, refl, refl, refl, refl),
    )
    | inr r ↦ inl (
      t,
      rw (notify_engine_switch, t, e, r, eqb_refl (job.job_path))
          (refl, refl, refl, refl, refl, refl),
    )
  ]
  | inr t ↦ elim (Bool-cases m.has_reporter) [
    | inl r ↦ inr (t, rw (notify_engine_switch, t, r) (refl, refl, refl, refl))
    | inr r ↦ inr (t, rw (notify_engine_switch, t, r) (refl, refl, refl, refl))
  ]
]

ready-sends :
    (fetch : Text → ℕ → Transfer) (can_open : Text → Bool) (sender : Text → Bool) (m : OtaManager)
    (job : Job)
    → (prepare_switch fetch can_open m job).0 ≡ true
    → run_job fetch can_open (some sender) m job
      ≡ notify_engine_switch (some sender) (prepare_switch fetch can_open m job).1 job
unfolding run_job
ready-sends fetch can_open sender m job h = rw (run_job, h) refl

notify-files :
    (sender : Text → Bool) (m : OtaManager) (job : Job)
    → (notify_engine_switch (some sender) m job).files ≡ m.files
unfolding notify_engine_switch
notify-files sender m job = ground arith

-- From the download to the engine's answer, for a job whose file downloads and verifies, so that the
-- file at its path has its digest. When the engine's queue takes the command, which names path and
-- digest, the engine's consent saves the job's name, version and digest and ends the pending update,
-- so that another consent does nothing, and its refusal saves nothing and removes the file. When the
-- queue does not take it, nothing is pending, and neither answer does anything. Reports go out where
-- someone listens.
pub run_job-answer :
    (fetch : Text → ℕ → Transfer) (can_open : Text → Bool) (sender : Text → Bool) (m : OtaManager)
    (job : Job) (reason : Text)
    → (prepare_switch fetch can_open m job).0 ≡ true
    → (let sent = run_job fetch can_open (some sender) m job in
        let told = Action.send_command (payload_of job) ∷ m.actions in
        (sha256_file (sent.files job.job_path) ≡ job.expected_sha256)
        × (((sender (payload_of job) ≡ true) × Taken told job reason sent)
            ⊎ ((sender (payload_of job) ≡ false) × Untaken told reason sent)))
run_job-answer fetch can_open sender m job reason h =
    let (digest, pending, actions) = prepare_switch-verified fetch can_open m job h in
    let m1 = (prepare_switch fetch can_open m job).1 in
    let e = ready-sends fetch can_open sender m job h in
    (
      ap (λ r. sha256_file (r.files job.job_path)) e
          ∙ ap (λ files. sha256_file (files job.job_path)) (notify-files sender m1 job)
          ∙ digest,
      subst (Answered sender (Action.send_command (payload_of job) ∷ m.actions) job reason) (sym e)
          (subst
            (λ as1.
              Answered sender (Action.send_command (payload_of job) ∷ as1) job reason
                (notify_engine_switch (some sender) m1 job))
            actions (notify-answer sender m1 job reason pending)),
    )
