-- ===== src/Core/Answer.antt =====
-- What the core makes of an engine's answer to a switch of its model (gateway_engine/
-- AnalysisScheduler.cpp, lines 76-84, and gateway_core/main.cpp, lines 601-743).
use aiot_edge_gateway.Prelude.{Bool, [], if◌then◌else◌}
use aiot_edge_gateway.Prelude.Text.{Text}
use aiot_edge_gateway.Wire.Codec.{InternalMessage}
use aiot_edge_gateway.Ota.Manager.{OtaManager, on_model_switch_ack, on_model_switch_nack}
use aiot_edge_gateway.Engine.Scheduler.{Scheduler, cmd_model_ack, cmd_model_nack}
use aiot_edge_gateway.Core.Commands.{Core}

-- The message that answers a switch.
abbrev pub answer_of : InternalMessage → Bool → InternalMessage
answer_of reply ok = record reply {
  tlv_type = if ok then cmd_model_ack else cmd_model_nack;
  payload = [];
}

-- The update's manager after the engine's consent or refusal.
abbrev pub settled : Bool → OtaManager → OtaManager
settled ok m = if ok then on_model_switch_ack m else on_model_switch_nack m []
