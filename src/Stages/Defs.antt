-- ===== src/Stages/Defs.antt =====
-- stages.py: `StageKind`, `StagePlan` and their equality, which `list.remove` uses.
use coinjoin_pipeline.Base.{
  ℕ, ◌≡◌, ◌↔◌, String, Bool, true, ◌&&◌, List, arith, nat_beq, ◌==◌, string_equality, Equality,
  list_eq, list_beq, list_beq_iff,
}

pub data StageKind : Type 0 where
  emulation baseline mappings blocksci_parse blocksci_update blocksci_work report : StageKind

pub data RunnerName : Type 0 where
  local kubernetes pbs : RunnerName

-- A frozen dataclass: two plans are equal when their fields are.
pub record StagePlan : Type 0 where
  pub name : String
  pub kind : StageKind
  pub runner : RunnerName
  pub dependencies : List String

abbrev kind_index : StageKind → ℕ
kind_index StageKind.emulation = 0
kind_index StageKind.baseline = 1
kind_index StageKind.mappings = 2
kind_index StageKind.blocksci_parse = 3
kind_index StageKind.blocksci_update = 4
kind_index StageKind.blocksci_work = 5
kind_index StageKind.report = 6

abbrev runner_index : RunnerName → ℕ
runner_index RunnerName.local = 0
runner_index RunnerName.kubernetes = 1
runner_index RunnerName.pbs = 2

abbrev pub kind_beq : StageKind → StageKind → Bool
kind_beq a b = nat_beq (kind_index a) (kind_index b)

abbrev pub runner_beq : RunnerName → RunnerName → Bool
runner_beq a b = nat_beq (runner_index a) (runner_index b)

pub kind_beq_iff : (a b : StageKind) → (kind_beq a b ≡ true) ↔ (a ≡ b)
kind_beq_iff a b = ground arith

pub runner_beq_iff : (a b : RunnerName) → (runner_beq a b ≡ true) ↔ (a ≡ b)
runner_beq_iff a b = ground arith

unfoldable pub plan_beq : StagePlan → StagePlan → Bool
unfolding list_beq
plan_beq s t =
    s.name == t.name
    && kind_beq s.kind t.kind
    && runner_beq s.runner t.runner
    && s.dependencies == t.dependencies

pub plan_beq_iff : (s t : StagePlan) → (plan_beq s t ≡ true) ↔ (s ≡ t)
unfolding plan_beq
plan_beq_iff s t = ground (
  arith,
  string_equality.equals_iff s.name t.name,
  kind_beq_iff s.kind t.kind,
  runner_beq_iff s.runner t.runner,
  list_beq_iff s.dependencies t.dependencies,
)

instance abbrev pub plan_eq : Equality StagePlan
plan_eq = record { equals = plan_beq; equals_iff = plan_beq_iff }
