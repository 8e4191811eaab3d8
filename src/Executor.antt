-- ===== src/Executor.antt =====
-- src/coinjoin_pipeline/execution/stage_executor.py: the execution of a stage graph with a bounded
-- number of running stages.
pub mod Analysis
pub mod Progress
pub mod Termination
pub mod Samples
