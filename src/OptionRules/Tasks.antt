-- ===== src/OptionRules/Tasks.antt =====
-- Equality of the BlockSci tasks and workflows, which the rules compare.
use coinjoin_pipeline.Base.{
  ℕ, ◌≡◌, ◌↔◌, Bool, true, arith, nat_beq, string_equality, nat_equality, list_eq, Equality,
}
use coinjoin_pipeline.Stages.Plans.{BlockSciWorkflow, BlockSciTask}

abbrev task_index : BlockSciTask → ℕ
task_index BlockSciTask.detect = 0
task_index BlockSciTask.parse = 1
task_index BlockSciTask.update = 2
task_index BlockSciTask.script = 3
task_index BlockSciTask.notebook = 4
task_index BlockSciTask.external = 5
task_index BlockSciTask.backup = 6

abbrev workflow_index : BlockSciWorkflow → ℕ
workflow_index BlockSciWorkflow.combined = 0
workflow_index BlockSciWorkflow.reusable = 1
workflow_index BlockSciWorkflow.cached = 2

abbrev task_beq : BlockSciTask → BlockSciTask → Bool
task_beq a b = nat_beq (task_index a) (task_index b)

abbrev workflow_beq : BlockSciWorkflow → BlockSciWorkflow → Bool
workflow_beq a b = nat_beq (workflow_index a) (workflow_index b)

pub task_beq_iff : (a b : BlockSciTask) → (task_beq a b ≡ true) ↔ (a ≡ b)
task_beq_iff a b = ground arith

pub workflow_beq_iff : (a b : BlockSciWorkflow) → (workflow_beq a b ≡ true) ↔ (a ≡ b)
workflow_beq_iff a b = ground arith

instance abbrev pub task_eq : Equality BlockSciTask
task_eq = record { equals = task_beq; equals_iff = task_beq_iff }

instance abbrev pub workflow_eq : Equality BlockSciWorkflow
workflow_eq = record { equals = workflow_beq; equals_iff = workflow_beq_iff }
