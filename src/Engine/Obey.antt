-- ===== src/Engine/Obey.antt =====
-- What the core's commands make of the engine (gateway_engine/AnalysisScheduler.cpp,
-- pipeline/Pipeline.cpp).
use aiot_edge_gateway.Prelude.{
  ℕ, ◌+◌, ◌≤◌, ◌≡◌, ◌≢◌, ◌⊎◌, inl, inr, refl, sym, ap, ap₂, ◌∙◌, Bool, true, false, some, List, [],
  ◌∷◌, ◌++◌, length, take, drop, arith, append-nil, append_assoc, length-append, take_all,
  if◌then◌else◌, take-append, drop-append,
}
use aiot_edge_gateway.Prelude.Text.{Text, codes, Lacks, find_char, find_byte_lem}
use aiot_edge_gateway.Wire.Codec.{InternalMessage, encode_internal_msg, decode_internal_msg}
use aiot_edge_gateway.Wire.RoundTrip.{IsEncodable, decode-encode}
use aiot_edge_gateway.Hash.Digest.{sha256_file}
use aiot_edge_gateway.Engine.Inference.{InferenceStage, switch_model, rollback_fatal}
use aiot_edge_gateway.Engine.Loads.{IsFresh, HasModel}
use aiot_edge_gateway.Engine.Switch.{Owns, switch_model-restores, switch_model-switches}
use aiot_edge_gateway.Engine.Pipeline.{switch_pipeline_model}
use aiot_edge_gateway.Engine.Scheduler.{
  Turn, Scheduler, received, take_turn, handle_datagram, handle_command, handle_switch,
  answer_switch, switch_target, cmd_switch_model, cmd_model_ack, cmd_model_nack, buffer_size,
}

switch_target-found :
    (payload : Text) (sep : ℕ)
    → find_char payload b'|' 0 ≡ some sep
    → switch_target payload ≡ (take sep payload, drop (sep + 1) payload)
unfolding switch_target
switch_target-found payload sep h = rw (switch_target, h) refl

switch_target_lem :
    (path hash : Text)
    → Lacks b'|' path
    → switch_target (path ++ (codes "|" ++ hash)) ≡ (path, hash)
switch_target_lem path hash h =
    switch_target-found (path ++ (codes "|" ++ hash)) (length path)
      (find_byte_lem b'|' path hash 0 h ∙ ap some (omega arith))
    ∙ ap₂ (λ a b. (a, b)) (take-append (length path) path (codes "|" ++ hash) refl) drop-path
  where
    drop-path : drop (length path + 1) (path ++ (codes "|" ++ hash)) ≡ hash
    drop-path =
        ap (drop (length path + 1)) (sym (append_assoc path (codes "|") hash))
        ∙ drop-append (length path + 1) (path ++ codes "|") hash
            (sym (length-append path (codes "|")))

take-encoded :
    (msg : InternalMessage)
    → IsEncodable msg
    → length (encode_internal_msg msg) ≤ buffer_size
    → (let r = decode_internal_msg (take buffer_size (encode_internal_msg msg)) in
        (r.ok ≡ true) × (r.msg ≡ msg))
take-encoded msg v h =
    let whole = take_all buffer_size (encode_internal_msg msg) h in
    let e =
      ap decode_internal_msg (whole ∙ sym (append-nil (encode_internal_msg msg)))
      ∙ decode-encode msg [] v in
    (ap (λ r. r.ok) e, ap (λ r. r.msg) e)

abbrev pub answer : Turn → ℕ → List ℕ
answer turn tlv = encode_internal_msg (record turn.reply { tlv_type = tlv; payload = [] })

-- The engine agreed: the digest is right, and the stage holds one context, a new one, which the runtime
-- made of the bytes at the path; or it refused, and the stage is as it was, but for what the callback is
-- told where it had no model.
abbrev pub Consents :
    Turn → Scheduler → InferenceStage → Text → Text → Scheduler → InferenceStage → Type 0
Consents turn s stage path hash s' t =
    (s'.written ≡ answer turn cmd_model_ack ∷ s.written)
    × ((hash ≡ []) ⊎ (sha256_file (turn.files path) ≡ hash))
    × (t.model_path ≡ path)
    × HasModel turn.load path t
    × (t.ctx ≢ stage.ctx)
    × (t.contexts ≡ t.ctx ∷ [])

abbrev pub Refuses : Turn → Scheduler → InferenceStage → Scheduler → InferenceStage → Type 0
Refuses turn s stage s' t =
    (s'.written ≡ answer turn cmd_model_nack ∷ s.written)
    × ((t ≡ stage)
        ⊎ ((stage.ctx ≡ 0) × (t ≡ record stage { fatals = rollback_fatal ∷ stage.fatals })))

-- What comes of the core's command to switch to a path and a digest, as the update sends it: the
-- engine writes one answer. It is the consent, and then the file at the path had the digest, unless
-- none was asked for, and the engine holds one context, which is not its old one, but what the runtime
-- made of the bytes that the load found at the path, with the numbers of inputs and outputs that the
-- runtime tells; or it is the refusal, and then the stage is what it was, but for the callback where it
-- had no model.
pub take_turn-switch :
    (turn : Turn) (s : Scheduler) (stage : InferenceStage) (msg : InternalMessage)
    (path hash : Text)
    → turn.result ≡ received (encode_internal_msg msg)
    → IsEncodable msg
    → length (encode_internal_msg msg) ≤ buffer_size
    → msg.tlv_type ≡ cmd_switch_model
    → msg.payload ≡ path ++ (codes "|" ++ hash)
    → Lacks b'|' path
    → s.pipeline.inference ≡ some stage
    → Owns stage
    → IsFresh turn.load stage
    → (let s' = (take_turn turn s).1 in
        (t : InferenceStage) × (s'.pipeline.inference ≡ some t)
        × (Consents turn s stage path hash s' t ⊎ Refuses turn s stage s' t))
unfolding take_turn handle_datagram handle_command handle_switch answer_switch switch_pipeline_model
take_turn-switch turn s stage msg path hash r v n c p l e o f =
    go (switch_model turn.files turn.load path hash stage).0 refl
  where
    obeyed : handle_command turn msg s ≡ (
        let (ok, t) = switch_model turn.files turn.load path hash stage in
        record {
          pipeline = record s.pipeline { inference = some t };
          written = answer turn (if ok then cmd_model_ack else cmd_model_nack) ∷ s.written;
        })
    obeyed =
        rw (handle_command, c)
          (ap (λ q. answer_switch turn (switch_target q) s) p
            ∙ ap (λ q. answer_switch turn q s) (switch_target_lem path hash l)
            ∙ rw (answer_switch, switch_pipeline_model, e) refl)

    answered : (take_turn turn s).1 ≡ (
        let (ok, t) = switch_model turn.files turn.load path hash stage in
        record {
          pipeline = record s.pipeline { inference = some t };
          written = answer turn (if ok then cmd_model_ack else cmd_model_nack) ∷ s.written;
        })
    answered =
        let (k, m) = take-encoded msg v n in
        rw (take_turn, r, handle_datagram, k) (ap (λ q. handle_command turn q s) m ∙ obeyed)

    t : InferenceStage
    t = (switch_model turn.files turn.load path hash stage).1

    go :
        (b : Bool)
        → (switch_model turn.files turn.load path hash stage).0 ≡ b
        → (let s' = (take_turn turn s).1 in
            (t : InferenceStage) × (s'.pipeline.inference ≡ some t)
            × (Consents turn s stage path hash s' t ⊎ Refuses turn s stage s' t))
    go true h =
        let (d, m, x, new, cs, k) =
          switch_model-switches turn.files turn.load path hash stage f o h in
        rw (answered, h) (t, refl, inl (refl, d, m, x, new, cs))
    go false h =
        rw (answered, h)
          (t, refl, inr (refl, switch_model-restores turn.files turn.load path hash stage f h))
