-- ===== src/Core/Tests.antt =====
-- An analysis asked for before the engine is there, and an engine's answer.
use aiot_edge_gateway.Prelude.{ℕ, ◌≡◌, false, refl, true, none, some, [], ◌++◌, arith, length}
use aiot_edge_gateway.Prelude.Text.{Text, codes}
use aiot_edge_gateway.Wire.Codec.{InternalMessage}
use aiot_edge_gateway.Rpc.Handler.{extract_json_str, quoted_from}
use aiot_edge_gateway.Ota.Manager.{OtaManager, PendingOta, on_model_switch_ack}
use aiot_edge_gateway.Engine.Scheduler.{Turn, interrupted, Scheduler, start_path}
use aiot_edge_gateway.Core.Commands.{
  Core, wrote, complete_path, analysis_payload, start_analysis, send_to_engine, send_uds_cmd,
}
use aiot_edge_gateway.Core.Messages.{World, on_engine_message, on_data, remember_sender}
use aiot_edge_gateway.Core.Engine.{start_path-analysis_payload, start_analysis-resent, resend}
use aiot_edge_gateway.Engine.Pipeline.{off}

abbrev pending : PendingOta
pending = record {
  model_name = codes "m.rknn";
  version = codes "2";
  sha256 = codes "00";
  dest_path = codes "models/m.rknn";
}

abbrev ota : OtaManager
ota = record {
  model_dir = codes "models";
  has_reporter = true;
  pending = some pending;
  files = λ path. none;
  actions = [];
}

abbrev core : Core
core = record {
  engine_cmd_fd = none;
  access_cmd_fd = some 6;
  last_analysis_payload = [];
  rule_periodic_counter = 0;
  ota = ota;
  effects = [];
}

abbrev world : World
world = record {
  write = λ fd bytes. wrote (length bytes);
  mqtt_connected = true;
  to_string = λ n. [];
}

abbrev ack : ℕ → InternalMessage
ack source_type = record { source_type = source_type; node_id = 0; tlv_type = 19; payload = [] }

abbrev turn : Turn
turn = record {
  result = interrupted;
  files = λ path. none;
  load = record {
    opened = λ path. none;
    reads = [];
    new_ctx = λ bytes. none;
    io_answer = none;
    input_answer = λ i. none;
    output_answer = λ i. none;
  };
  reply = record { source_type = 0; node_id = 0; tlv_type = 0; payload = [] };
}

abbrev engine : Scheduler
engine = record {
  pipeline = record {
    cfg_model_path = [];
    has_fatal_cb = false;
    model_path = [];
    pool = 0;
    queue_1 = [];
    queue_2 = [];
    queue_3 = [];
    running = false;
    inference = none;
    thread = off;
    frame_count = 0;
    current_fps = 0;
    latency_samples = [];
  };
  written = [];
}

abbrev params : Text
params = codes "{\"camera\":\"zone_A\",\"model\":\"v8.rknn\"}"

abbrev asked : Text
asked = codes "camera=zone_A model=models/v8.rknn"

asked-computed :
    analysis_payload
      (extract_json_str params (codes "camera"))
      (complete_path (extract_json_str params (codes "model")))
    ≡ asked
unfolding analysis_payload extract_json_str quoted_from complete_path
asked-computed = refl

start_path-analysis_payload_example :
    start_path (analysis_payload (codes "zone_A") (codes "models/v8.rknn")) ≡ codes "models/v8.rknn"
start_path-analysis_payload_example =
    start_path-analysis_payload (codes "zone_A") (codes "models/v8.rknn") (λ h. ground arith)
      (λ h. ground arith) (search arith) (search arith)

start_analysis-resent_example :
    (let p =
        analysis_payload
          (extract_json_str params (codes "camera"))
          (complete_path (extract_json_str params (codes "model"))) in
      let (answer, c') = start_analysis world.write params core in
      (answer ≡ codes "NACK: engine not connected, will retry on reconnect")
      × (on_data world 9 (ack 3) c'
          ≡ on_engine_message world (ack 3) (record core {
            engine_cmd_fd = some 9;
            last_analysis_payload = p;
            effects = core.effects ++ resend 9 p;
          })))
start_analysis-resent_example =
    start_analysis-resent world params core 9 (ack 3) refl refl (ground arith) (ground arith)
      (λ bytes. refl)

-- A command without a camera and a model is lost.
lost :
    (let (answer, c') = start_analysis world.write (codes "{}") core in
      (on_data world 9 (ack 3) c').effects)
    ≡ []
unfolding start_analysis send_to_engine send_uds_cmd analysis_payload extract_json_str quoted_from
    complete_path on_data remember_sender on_engine_message on_model_switch_ack
lost = refl
