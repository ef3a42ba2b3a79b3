-- ===== src/Core/Engine.antt =====
-- The core and the engine (gateway_core/main.cpp, lines 268-288 and 600-743, and
-- gateway_engine/AnalysisScheduler.cpp).
use aiot_edge_gateway.Prelude.{
  ℕ, ◌+◌, ◌≡◌, ◌≢◌, inl, inr, Bool-cases, if◌then◌else◌, refl, sym, ap, ◌∙◌, true, false, none,
  some, List, [], ◌∷◌, ◌++◌, length, drop, arith, take_all, ==_refl, append-nil, append_assoc,
  length-append, drop-append,
}
use aiot_edge_gateway.Prelude.Text.{
  Text, codes, Lacks, is_empty, find, find_text, find_char, find_text_lem, find_byte-none,
}
use aiot_edge_gateway.Wire.Codec.{InternalMessage, encode_internal_msg}
use aiot_edge_gateway.Rpc.Handler.{extract_json_str}
use aiot_edge_gateway.Engine.Scheduler.{start_path}
use aiot_edge_gateway.Core.Commands.{
  Effect, written, Core, Written, wrote, send_uds_cmd, send_to_engine, command, cmd_start_analysis,
  complete_path, analysis_payload, start_analysis,
}
use aiot_edge_gateway.Core.Messages.{World, remember_sender, on_engine_message, on_data}

Lacks-append : (c : ℕ) (s t : Text) → Lacks c s → Lacks c t → Lacks c (s ++ t)
Lacks-append c [] t h k = k
Lacks-append c (x ∷ s) t (n, h) k = (n, Lacks-append c s t h k)

-- Where the pattern's first byte does not occur in the camera, the text behind the key is found.
find-analysis :
    (camera model : Text)
    → Lacks b'm' camera
    → find (codes "camera=" ++ (camera ++ (codes " model=" ++ model))) (codes "model=") 0
      ≡ some (8 + length camera)
find-analysis camera model l =
    ap (λ t. find_text (codes "model=") t 7)
      (sym (append_assoc camera (codes " ") (codes "model=" ++ model)))
    ∙ find_text_lem b'm' (codes "odel=") (camera ++ codes " ") model 7
        (Lacks-append b'm' camera (codes " ") l (search arith))
    ∙ ap some (omega (arith, length-append camera (codes " ")))

drop-analysis :
    (camera model : Text)
    → drop (8 + length camera + 6) (codes "camera=" ++ (camera ++ (codes " model=" ++ model)))
      ≡ model
drop-analysis camera model =
    ap (drop (8 + length camera + 6)) (
      sym (
        append_assoc (codes "camera=") (camera ++ codes " model=") model
        ∙ ap (λ t. codes "camera=" ++ t) (append_assoc camera (codes " model=") model)))
    ∙ drop-append (8 + length camera + 6) (codes "camera=" ++ (camera ++ codes " model=")) model
        (omega (arith, length-append camera (codes " model=")))

start_path-found :
    (payload model : Text) (pos : ℕ)
    → find payload (codes "model=") 0 ≡ some pos
    → drop (pos + 6) payload ≡ model
    → find_char model b' ' 0 ≡ none
    → start_path payload ≡ model
unfolding start_path
start_path-found payload model pos f d n = rw (start_path, f, ap (λ t. find_char t b' ' 0) d ∙ n) d

both :
    (camera model : Text)
    → camera ≢ []
    → model ≢ []
    → analysis_payload camera model ≡ codes "camera=" ++ (camera ++ (codes " model=" ++ model))
unfolding analysis_payload
both [] model nc nm = absurd (nc refl)
both (x ∷ camera) [] nc nm = absurd (nm refl)
both (x ∷ camera) (y ∷ model) nc nm =
    ap (λ t. codes "camera=" ++ (x ∷ t))
      (append_assoc camera (codes " ") (codes "model=" ++ (y ∷ model)))

-- The engine finds, in the core's command for a camera and a model, the path of that model, where no
-- `m` is in the camera's name and no space in the path.
pub start_path-analysis_payload :
    (camera model : Text)
    → camera ≢ []
    → model ≢ []
    → Lacks b'm' camera
    → Lacks b' ' model
    → start_path (analysis_payload camera model) ≡ model
start_path-analysis_payload camera model nc nm l l' =
    ap start_path (both camera model nc nm)
    ∙ start_path-found _ model (8 + length camera) (find-analysis camera model l)
        (drop-analysis camera model) (find_byte-none b' ' model 0 l')

-- The whole command is written.
sent :
    (write : ℕ → List ℕ → Written) (fd : ℕ) (p : Text)
    → ((bytes : List ℕ) → write fd bytes ≡ wrote (length bytes))
    → send_uds_cmd write (some fd) 0 cmd_start_analysis p
      ≡ (true, some fd, written fd (encode_internal_msg (command 0 cmd_start_analysis p)) ∷ [])
unfolding send_uds_cmd
sent write fd p ok =
    let bytes = encode_internal_msg (command 0 cmd_start_analysis p) in
    rw (send_uds_cmd, ok bytes, ==_refl (length bytes), take_all (length bytes) bytes (omega arith))
      refl

resent :
    (w : World) (fd : ℕ) (msg : InternalMessage) (c : Core)
    → c.engine_cmd_fd ≡ none
    → is_empty c.last_analysis_payload ≡ false
    → msg.source_type ≡ 3
    → ((bytes : List ℕ) → w.write fd bytes ≡ wrote (length bytes))
    → remember_sender w fd msg c ≡ record c {
      engine_cmd_fd = some fd;
      effects =
          c.effects
          ++ (written fd
                (encode_internal_msg (command 0 cmd_start_analysis c.last_analysis_payload))
              ∷ []);
    }
unfolding remember_sender send_to_engine
resent w fd msg c e n s ok =
    rw (remember_sender, s, e, n, send_to_engine, sent w.write fd c.last_analysis_payload ok) refl

not_resent :
    (w : World) (fd : ℕ) (msg : InternalMessage) (c : Core)
    → c.engine_cmd_fd ≡ none
    → is_empty c.last_analysis_payload ≡ true
    → msg.source_type ≡ 3
    → remember_sender w fd msg c ≡ record c { engine_cmd_fd = some fd }
unfolding remember_sender
not_resent w fd msg c e n s = rw (remember_sender, s, e, n) refl

-- What is sent to the next engine that reports.
abbrev pub resend : ℕ → Text → List Effect
resend fd p =
    if is_empty p
    then []
    else written fd (encode_internal_msg (command 0 cmd_start_analysis p)) ∷ []

reported :
    (w : World) (fd : ℕ) (msg : InternalMessage) (c : Core)
    → c.engine_cmd_fd ≡ none
    → msg.source_type ≡ 3
    → ((bytes : List ℕ) → w.write fd bytes ≡ wrote (length bytes))
    → remember_sender w fd msg c ≡ record c {
      engine_cmd_fd = some fd;
      effects = c.effects ++ resend fd c.last_analysis_payload;
    }
reported w fd msg c e s ok = elim (Bool-cases (is_empty c.last_analysis_payload)) [
  | inl h ↦
      not_resent w fd msg c e h s
      ∙ rw h (
          ap (λ es. record c { engine_cmd_fd = some fd; effects = es })
            (sym (append-nil c.effects)))
  | inr h ↦ resent w fd msg c e h s ok ∙ rw h refl
]

refused :
    (write : ℕ → List ℕ → Written) (payload : Text) (c : Core)
    → c.engine_cmd_fd ≡ none
    → (let p =
          analysis_payload
            (extract_json_str payload (codes "camera"))
            (complete_path (extract_json_str payload (codes "model"))) in
        start_analysis write payload c ≡ (
          codes "NACK: engine not connected, will retry on reconnect",
          record c { engine_cmd_fd = none; last_analysis_payload = p; effects = c.effects ++ [] },
        ))
unfolding start_analysis send_to_engine send_uds_cmd
refused write payload c e = rw (start_analysis, send_to_engine, e) refl

engine_data :
    (w : World) (fd : ℕ) (msg : InternalMessage) (c : Core)
    → msg.source_type ≡ 3
    → msg.tlv_type ≢ 32
    → msg.tlv_type ≢ 34
    → on_data w fd msg c ≡ on_engine_message w msg (remember_sender w fd msg c)
unfolding on_data
engine_data w fd msg c s n n' = ground arith

-- When no engine is connected, the command to start an analysis is refused. Where the write to it
-- works, the next engine that reports, with a message that is not one of the monitors', gets before its
-- message is handled exactly this command, unless the command is empty: one that names neither a camera
-- nor a model is not sent again.
pub start_analysis-resent :
    (w : World) (payload : Text) (c : Core) (fd : ℕ) (msg : InternalMessage)
    → c.engine_cmd_fd ≡ none
    → msg.source_type ≡ 3
    → msg.tlv_type ≢ 32
    → msg.tlv_type ≢ 34
    → ((bytes : List ℕ) → w.write fd bytes ≡ wrote (length bytes))
    → (let p =
          analysis_payload
            (extract_json_str payload (codes "camera"))
            (complete_path (extract_json_str payload (codes "model"))) in
        let (answer, c') = start_analysis w.write payload c in
        (answer ≡ codes "NACK: engine not connected, will retry on reconnect")
        × (on_data w fd msg c'
            ≡ on_engine_message w msg (record c {
              engine_cmd_fd = some fd;
              last_analysis_payload = p;
              effects = c.effects ++ resend fd p;
            })))
start_analysis-resent w payload c fd msg e s n n' ok =
    let r = refused w.write payload c e in
    (
      ap (λ r. r.0) r,
      ap (λ r. on_data w fd msg r.1) r
          ∙ engine_data w fd msg _ s n n'
          ∙ ap (on_engine_message w msg)
              (reported w fd msg _ refl s ok ∙ ap (λ es. with_start es) (append-nil c.effects)),
    )
  where
    p : Text
    p =
        analysis_payload (extract_json_str payload (codes "camera"))
          (complete_path (extract_json_str payload (codes "model")))

    with_start : List Effect → Core
    with_start es = record c {
      engine_cmd_fd = some fd;
      last_analysis_payload = p;
      effects = es ++ resend fd p;
    }
