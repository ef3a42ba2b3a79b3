-- ===== src/Engine.antt =====
-- gateway_engine: the stage that runs the model (pipeline/stages/InferenceStage.cpp), the pipeline
-- around it (pipeline/Pipeline.cpp), and the thread that obeys the core (AnalysisScheduler.cpp).
pub mod Inference
pub mod Loads
pub mod Switch
pub mod Turn
pub mod Pipeline
pub mod Scheduler
pub mod Obey
pub mod Contexts
pub mod Tidy
pub mod Tests
