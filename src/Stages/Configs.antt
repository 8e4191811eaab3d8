-- ===== src/Stages/Configs.antt =====
-- The finitely many configurations of a full-run plan, and checking a property of all of them.
use coinjoin_pipeline.Base.{◌≡◌, Bool, true, false, ◌&&◌, List, arith}
use coinjoin_pipeline.Stages.Defs.{StagePlan}
use coinjoin_pipeline.Stages.Plans.{BlockSciWorkflow, BlockSciTask, s3_full_run_plan}

-- The keyword arguments of `s3_full_run_plan`.
pub record PlanConfig : Type 0 where
  pub mappings_pbs : Bool
  pub workflow : BlockSciWorkflow
  pub analysis_pbs : Bool
  pub blocksci_pbs : Bool
  pub task : BlockSciTask
  pub unified_report : Bool

unfoldable pub plan_of : PlanConfig → List StagePlan
unfolding s3_full_run_plan
plan_of c =
    s3_full_run_plan c.mappings_pbs c.workflow c.analysis_pbs c.blocksci_pbs c.task c.unified_report

all_bools : (Bool → Bool) → Bool
all_bools p = p true && p false

all_bools_sound : (p : Bool → Bool) → all_bools p ≡ true → (b : Bool) → p b ≡ true
unfolding all_bools
all_bools_sound p h true = ground arith
all_bools_sound p h _ = ground arith

all_workflows : (BlockSciWorkflow → Bool) → Bool
all_workflows p =
    p BlockSciWorkflow.combined && p BlockSciWorkflow.reusable && p BlockSciWorkflow.cached

all_workflows_sound :
    (p : BlockSciWorkflow → Bool) → all_workflows p ≡ true → (w : BlockSciWorkflow) → p w ≡ true
unfolding all_workflows
all_workflows_sound p h BlockSciWorkflow.combined = ground arith
all_workflows_sound p h _ = ground arith

all_tasks : (BlockSciTask → Bool) → Bool
all_tasks p =
    p BlockSciTask.detect
    && p BlockSciTask.parse
    && p BlockSciTask.update
    && p BlockSciTask.script
    && p BlockSciTask.notebook
    && p BlockSciTask.external
    && p BlockSciTask.backup

all_tasks_sound : (p : BlockSciTask → Bool) → all_tasks p ≡ true → (t : BlockSciTask) → p t ≡ true
unfolding all_tasks
all_tasks_sound p h BlockSciTask.detect = ground arith
all_tasks_sound p h _ = ground arith

-- The arguments in the order in which they are enumerated.
abbrev config : Bool → BlockSciWorkflow → Bool → Bool → BlockSciTask → Bool → PlanConfig
config m w a b t u = record {
  mappings_pbs = m;
  workflow = w;
  analysis_pbs = a;
  blocksci_pbs = b;
  task = t;
  unified_report = u;
}

module _ (p : PlanConfig → Bool) where
  all_reports : Bool → BlockSciWorkflow → Bool → Bool → BlockSciTask → Bool
  all_reports m w a b t = all_bools (λ u. p (config m w a b t u))

  all_works : Bool → BlockSciWorkflow → Bool → Bool → Bool
  all_works m w a b = all_tasks (all_reports m w a b)

  all_analyzers : Bool → BlockSciWorkflow → Bool
  all_analyzers m w = all_bools (λ a. all_bools (all_works m w a))

  unfoldable pub all_configs : Bool
  unfolding all_bools all_workflows all_tasks all_reports all_works all_analyzers
  all_configs = all_bools (λ m. all_workflows (all_analyzers m))

  pub all_configs_sound : all_configs ≡ true → (c : PlanConfig) → p c ≡ true
  unfolding all_configs
  all_configs_sound h c =
      let m = c.mappings_pbs in
      let w = c.workflow in
      let h₁ : all_analyzers m w ≡ true =
        all_workflows_sound (all_analyzers m)
          (all_bools_sound (λ x. all_workflows (all_analyzers x)) h m) w in
      let h₂ : all_bools (all_works m w c.analysis_pbs) ≡ true =
        all_bools_sound (λ x. all_bools (all_works m w x)) h₁ c.analysis_pbs in
      let h₃ : all_reports m w c.analysis_pbs c.blocksci_pbs c.task ≡ true =
        all_tasks_sound (all_reports m w c.analysis_pbs c.blocksci_pbs)
          (all_bools_sound (all_works m w c.analysis_pbs) h₂ c.blocksci_pbs) c.task in
      all_bools_sound (λ u. p (config m w c.analysis_pbs c.blocksci_pbs c.task u)) h₃
        c.unified_report
