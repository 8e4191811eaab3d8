-- ===== src/OptionRules.antt =====
-- option_rules.py: the rules that a configuration keeps across its fields.
mod Tasks
mod Config
pub mod Names
mod Index
mod General
mod BlockSci
mod Sources
mod Storage
mod Rules
mod Accepted
mod Groups
mod IndexLaws
mod SourceLaws
mod Submission
mod PlanLaws
mod NameLaws
mod Samples
