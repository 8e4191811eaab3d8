-- ===== src/Stages.antt =====
-- src/coinjoin_pipeline/execution/stages.py: the stage graph of one run, and the plans that build
-- it. The definitions are in the children `Defs`, `Graph` and `Plans`, the proofs in the others.
pub mod Defs
pub mod Graph
pub mod Plans
pub mod Order
pub mod Stable
pub mod Dependents
pub mod Configs
pub mod PlanLaws
pub mod Samples
