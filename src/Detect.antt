-- ===== src/Detect.antt =====
-- The boxes that the engine makes of a model's outputs
-- (gateway_engine/pipeline/stages/PostprocessStage.cpp).
pub mod Boxes
pub mod Decode
pub mod Suppress
pub mod Tests
