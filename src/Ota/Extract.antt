-- ===== src/Ota/Extract.antt =====
-- What `extract_str` makes of a payload (gateway_core/OtaManager.cpp, lines 116-139).
use aiot_edge_gateway.Prelude.{
  ℕ, ◌+◌, ◌-◌, ◌≡◌, ◌≢◌, ◌⊎◌, ◌||◌, refl, sym, ap, ◌∙◌, Bool, true, false, Option, none, some, [],
  ◌∷◌, ◌++◌, length, take, drop, arith, inl, inr, Bool-cases, Option-cases, append_assoc,
  length-append, take-append, drop-append,
}
use aiot_edge_gateway.Prelude.Text.{
  Text, codes, Lacks, find, find_char, find_char_lem, substr, is_empty,
}
use aiot_edge_gateway.Ota.Manager.{
  Action, OtaManager, Job, Transfer, quote, extract_str, start_job, make_job, handle_ota_update,
  run_job,
}
use aiot_edge_gateway.Ota.Laws.{run_job-refused}

extract_str-found :
    (json : Text) (pos s t : ℕ)
    → find_char json quote (pos + 1) ≡ some s
    → find_char json quote (s + 1) ≡ some t
    → extract_str json pos ≡ substr json (s + 1) (t - (s + 1))
unfolding extract_str
extract_str-found json pos s t e f = ground arith

-- From a key's first quote on: the text between its second quote and the next one.
pub extract_str_lem :
    (json pre key mid rest : Text)
    → json ≡ pre ++ (quote ∷ (key ++ (quote ∷ (mid ++ (quote ∷ rest)))))
    → Lacks quote key
    → Lacks quote mid
    → extract_str json (length pre) ≡ mid
extract_str_lem json pre key mid rest e hk hm =
    extract_str-found json (length pre) s (s + 1 + length mid) first second ∙ between
  where
    s : ℕ
    s = length pre + 1 + length key

    head : Text
    head = pre ++ (quote ∷ (key ++ (quote ∷ [])))

    at : s + 1 ≡ length head
    at =
        omega
          (arith, length-append pre (quote ∷ (key ++ (quote ∷ []))), length-append key (quote ∷ []))

    behind_quote : json ≡ (pre ++ (quote ∷ [])) ++ (key ++ (quote ∷ (mid ++ (quote ∷ rest))))
    behind_quote = e ∙ sym (append_assoc pre (quote ∷ []) _)

    split : json ≡ head ++ (mid ++ (quote ∷ rest))
    split =
        e
        ∙ ap (λ t. pre ++ (quote ∷ t)) (sym (append_assoc key (quote ∷ []) _))
        ∙ sym (append_assoc pre (quote ∷ (key ++ (quote ∷ []))) _)

    first : find_char json quote (length pre + 1) ≡ some s
    first =
        ap (λ t. find_char t quote (length pre + 1)) behind_quote
        ∙ find_char_lem (pre ++ (quote ∷ [])) key (mid ++ (quote ∷ rest)) quote (length pre + 1)
            (omega (arith, length-append pre (quote ∷ []))) hk

    second : find_char json quote (s + 1) ≡ some (s + 1 + length mid)
    second =
        ap (λ t. find_char t quote (s + 1)) split ∙ find_char_lem head mid rest quote (s + 1) at hm

    between : substr json (s + 1) (s + 1 + length mid - (s + 1)) ≡ mid
    between =
        ap (λ n. substr json (s + 1) n) (omega arith)
        ∙ ap (take (length mid)) (ap (drop (s + 1)) split ∙ drop-append (s + 1) head _ at)
        ∙ take-append (length mid) mid (quote ∷ rest) refl

none≢some : {A : Type 0} {a : A} → Option.none ≡ some a → ⊥
none≢some h = ground arith

sha256_or : Text → Option Job → Text
sha256_or default none = default
sha256_or default (some job) = job.expected_sha256

start_job-sha256 :
    (j job : Job) → (start_job j).1 ≡ some job → job.expected_sha256 ≡ j.expected_sha256
unfolding start_job sha256_or
start_job-sha256 j job h = elim (Bool-cases (is_empty j.url || is_empty j.expected_sha256)) [
  | inl e ↦ absurd (none≢some (sym (ap (λ r. r.1) (refused_params j e)) ∙ h))
  | inr e ↦
      sym (ap (sha256_or (j.expected_sha256)) h)
      ∙ ap (λ r. sha256_or (j.expected_sha256) r.1) (taken j e)
]
  where
    refused_params :
        (k : Job)
        → (is_empty k.url || is_empty k.expected_sha256) ≡ true
        → start_job k ≡ (codes "NACK: invalid params", none)
    refused_params k e = rw (start_job, e) refl

    taken :
        (k : Job)
        → (is_empty k.url || is_empty k.expected_sha256) ≡ false
        → start_job k ≡ (codes "ACK: download started, will notify engine on success", some k)
    taken k e = rw (start_job, e) refl

-- The digest that the job of an update expects.
job-sha256 :
    (model_dir payload : Text) (job : Job) (pos : ℕ)
    → (handle_ota_update model_dir payload).1 ≡ some job
    → find payload (codes "\"sha256\"") 0 ≡ some pos
    → job.expected_sha256 ≡ extract_str payload pos
unfolding handle_ota_update
job-sha256 model_dir payload job pos h f = elim (Option-cases (find payload (codes "\"url\"") 0)) [
  | inl e ↦ absurd (none≢some (sym (missing e) ∙ h))
  | inr (url_pos, e) ↦
      start_job-sha256 (make_job model_dir payload url_pos pos) job
        (sym (ap (λ r. r.1) (found url_pos e)) ∙ h)
]
  where
    missing :
        find payload (codes "\"url\"") 0 ≡ none → (handle_ota_update model_dir payload).1 ≡ none
    missing e = rw (handle_ota_update, e) refl

    found :
        (url_pos : ℕ)
        → find payload (codes "\"url\"") 0 ≡ some url_pos
        → handle_ota_update model_dir payload ≡ start_job (make_job model_dir payload url_pos pos)
    found url_pos e = rw (handle_ota_update, e, f) refl

-- An update whose payload has the member `"sha256"`, with a text `mid` of another length than 64
-- between the key and the next quote, where JSON has the colon: whatever the member's value is,
-- whatever the transfer brings and the engine would say, its job leaves the pending update, sends no
-- command, and reports at most one failure.
pub handle_ota_update-never_switches :
    (fetch : Text → ℕ → Transfer) (can_open : Text → Bool) (sender : Option (Text → Bool))
    (m : OtaManager) (payload pre mid rest : Text) (job : Job)
    → payload ≡ pre ++ (quote ∷ (codes "sha256" ++ (quote ∷ (mid ++ (quote ∷ rest)))))
    → find payload (codes "\"sha256\"") 0 ≡ some (length pre)
    → Lacks quote mid
    → length mid ≢ 64
    → (handle_ota_update m.model_dir payload).1 ≡ some job
    → (let m' = run_job fetch can_open sender m job in
        (m'.pending ≡ m.pending)
        × ((m'.actions ≡ m.actions)
            ⊎ ((status : Text) × (m'.actions ≡ Action.report status ∷ m.actions))))
handle_ota_update-never_switches fetch can_open sender m payload pre mid rest job e f hm n h =
    run_job-refused fetch can_open sender m job (λ size. n (sym (ap length expected) ∙ size))
  where
    expected : job.expected_sha256 ≡ mid
    expected =
        job-sha256 m.model_dir payload job (length pre) h f
        ∙ extract_str_lem payload pre (codes "sha256") mid rest e (search arith) hm
