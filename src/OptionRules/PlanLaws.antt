-- ===== src/OptionRules/PlanLaws.antt =====
-- The stages of an accepted configuration: what its task asks for, in an order that runs.
use coinjoin_pipeline.Base.{
  ◌≡◌, ◌≢◌, refl, ◌⊎◌, inl, inr, String, Bool, true, false, List, [], ◌∷◌, arith, if◌then◌else◌,
  ◌==◌, string_equality, not, ◌&&◌, ◌||◌, contains,
}
use coinjoin_pipeline.OptionRules.Config.{PipelineConfiguration}
use coinjoin_pipeline.OptionRules.General.{requested}
use coinjoin_pipeline.OptionRules.Groups.{IsClean, cross_option_errors-empty}
use coinjoin_pipeline.OptionRules.Rules.{cross_option_errors}
use coinjoin_pipeline.OptionRules.SourceLaws.{
  RunsAlone, workflow_of, index_task_alone, reusable_task_alone, external_task_alone,
}
use coinjoin_pipeline.OptionRules.Submission.{s3_full_run_plan_from_args}
use coinjoin_pipeline.OptionRules.Tasks.{task_eq, task_beq_iff, workflow_eq, workflow_beq_iff}
use coinjoin_pipeline.Stages.Configs.{PlanConfig, plan_of, all_configs, all_configs_sound}
use coinjoin_pipeline.Stages.Defs.{StageKind}
use coinjoin_pipeline.Stages.PlanLaws.{plan_of-ordered, has_kind, bool_eq, bool_eq_sound}
use coinjoin_pipeline.Stages.Graph.{ordered, ok}
use coinjoin_pipeline.Stages.Plans.{BlockSciTask, BlockSciWorkflow, runs_unified_report}

abbrev is_index_task : BlockSciTask → Bool
is_index_task task = task == BlockSciTask.parse || task == BlockSciTask.update

-- The arguments of a plan that only runs a task of the index or a reusable task.
unfoldable lone_task : PlanConfig → Bool
lone_task c =
    c.blocksci_pbs
    && not c.analysis_pbs
    && not (c.task == BlockSciTask.detect)
    && (if is_index_task c.task
        then c.workflow == workflow_of c.task
        else not (c.workflow == BlockSciWorkflow.combined))

unfoldable runs_task : PlanConfig → Bool
runs_task c =
    let plan = plan_of c in
    bool_eq (has_kind StageKind.blocksci_parse plan) (c.workflow == BlockSciWorkflow.reusable)
    && bool_eq (has_kind StageKind.blocksci_update plan) (c.task == BlockSciTask.update)
    && bool_eq (has_kind StageKind.blocksci_work plan) (not (is_index_task c.task))
    && not (has_kind StageKind.baseline plan)
    && (c.unified_report || not (has_kind StageKind.report plan))

lone_tasks_run : all_configs (λ c. not (lone_task c) || runs_task c) ≡ true
unfolding all_configs lone_task runs_task has_kind bool_eq plan_of
lone_tasks_run = refl

abbrev arguments : PipelineConfiguration → PlanConfig
arguments config = record {
  mappings_pbs = config.stages.mappings;
  workflow = config.blocksci.workflow;
  analysis_pbs = config.stages.analysis;
  blocksci_pbs = config.stages.blocksci;
  task = config.blocksci.task;
  unified_report =
      runs_unified_report config.action config.stages.analysis config.stages.blocksci
        config.blocksci.task;
}

-- Every switch that is on was given in the input: the switches are off by default.
abbrev pub IsExplicit : PipelineConfiguration → Type 0
IsExplicit config =
    ((requested config).analysis ≡ config.stages.analysis)
    × ((requested config).blocksci ≡ config.stages.blocksci)
    × ((requested config).mappings ≡ config.stages.mappings)

-- The plan of a configuration has the stages that its task asks for, and no report.
abbrev pub RunsTask : PipelineConfiguration → Type 0
RunsTask config =
    let plan = s3_full_run_plan_from_args config in
    let task = config.blocksci.task in
    (ordered plan ≡ ok plan)
    × (has_kind StageKind.blocksci_parse plan
        ≡ (config.blocksci.workflow == BlockSciWorkflow.reusable))
    × (has_kind StageKind.blocksci_update plan ≡ (task == BlockSciTask.update))
    × (has_kind StageKind.blocksci_work plan ≡ not (is_index_task task))
    × (has_kind StageKind.baseline plan ≡ false)
    × (has_kind StageKind.report plan ≡ false)

-- The tasks by the rules that they fall under.
task_cases :
    (task : BlockSciTask)
    → task ≢ BlockSciTask.detect
    → (task ≡ BlockSciTask.external)
      ⊎ (contains task (BlockSciTask.parse ∷ BlockSciTask.update ∷ []) ≡ true)
      ⊎ (contains task (BlockSciTask.script ∷ BlockSciTask.notebook ∷ BlockSciTask.backup ∷ [])
          ≡ true)
unfolding contains
task_cases BlockSciTask.detect n = absurd (n refl)
task_cases BlockSciTask.external n = inl refl
task_cases BlockSciTask.parse n = inr (inl refl)
task_cases BlockSciTask.update n = inr (inl refl)
task_cases BlockSciTask.script n = inr (inr refl)
task_cases BlockSciTask.notebook n = inr (inr refl)
task_cases BlockSciTask.backup n = inr (inr refl)

lone_task-intro :
    (config : PipelineConfiguration)
    → IsExplicit config
    → RunsAlone config
    → config.blocksci.task ≢ BlockSciTask.detect
    → (if is_index_task config.blocksci.task
        then config.blocksci.workflow == workflow_of config.blocksci.task
        else not (config.blocksci.workflow == BlockSciWorkflow.combined))
      ≡ true
    → lone_task (arguments config) ≡ true
unfolding lone_task
lone_task-intro config explicit alone n h =
    ground (arith, task_beq_iff config.blocksci.task BlockSciTask.detect)

lone_task-accepted :
    (is_file : String → Bool) (config : PipelineConfiguration)
    → IsClean is_file config
    → IsExplicit config
    → config.blocksci.task ≢ BlockSciTask.detect
    → lone_task (arguments config) ≡ true
unfolding contains
lone_task-accepted is_file config clean explicit n =
    let w = config.blocksci.workflow in
    let t = config.blocksci.task in
    elim (task_cases config.blocksci.task n) [
      | inl external ↦
          let (alone, workflow) = external_task_alone config clean.external_baseline external in
          lone_task-intro config explicit alone n (
            ground (
              arith,
              workflow_beq_iff w BlockSciWorkflow.combined,
              task_beq_iff t BlockSciTask.external,
            ))
      | inr (inl index) ↦
          let (alone, workflow) = index_task_alone config clean.blocksci_task index in
          lone_task-intro config explicit alone n
            (ground (arith, workflow_beq_iff w (workflow_of t)))
      | inr (inr reusable) ↦
          let (alone, workflow) = reusable_task_alone config clean.blocksci_task reusable in
          lone_task-intro config explicit alone n
            (ground (arith, workflow_beq_iff w BlockSciWorkflow.combined))
    ]

-- `runs_task` as equations, for a plan that asks for no report.
runs_task_sound :
    (c : PlanConfig)
    → runs_task c ≡ true
    → c.unified_report ≡ false
    → (has_kind StageKind.blocksci_parse (plan_of c) ≡ (c.workflow == BlockSciWorkflow.reusable))
      × (has_kind StageKind.blocksci_update (plan_of c) ≡ (c.task == BlockSciTask.update))
      × (has_kind StageKind.blocksci_work (plan_of c) ≡ not (is_index_task c.task))
      × (has_kind StageKind.baseline (plan_of c) ≡ false)
      × (has_kind StageKind.report (plan_of c) ≡ false)
unfolding runs_task
runs_task_sound c h e = ground (
  arith,
  bool_eq_sound (has_kind StageKind.blocksci_parse (plan_of c))
      (c.workflow == BlockSciWorkflow.reusable),
  bool_eq_sound (has_kind StageKind.blocksci_update (plan_of c)) (c.task == BlockSciTask.update),
  bool_eq_sound (has_kind StageKind.blocksci_work (plan_of c)) (not (is_index_task c.task)),
)

no_report :
    (config : PipelineConfiguration)
    → config.blocksci.task ≢ BlockSciTask.detect
    → (arguments config).unified_report ≡ false
unfolding runs_unified_report
no_report config n = ground (arith, task_beq_iff config.blocksci.task BlockSciTask.detect)

-- An accepted configuration of a task other than detection, on another action than mainnet-sync,
-- whose switches were all given, has a plan that is accepted and runs what the task asks for: a
-- parse stage exactly on the reusable workflow, an update stage exactly for an update, a work stage
-- exactly for the tasks that do not build the index, and neither a baseline nor a report.
pub accepted_plan :
    (resolved : String → String) (is_file : String → Bool)
    (tool_errors mainnet_errors : PipelineConfiguration → List String)
    (config : PipelineConfiguration)
    → cross_option_errors resolved is_file tool_errors mainnet_errors config ≡ []
    → config.action ≢ "mainnet-sync"
    → IsExplicit config
    → config.blocksci.task ≢ BlockSciTask.detect
    → RunsTask config
unfolding s3_full_run_plan_from_args plan_of
accepted_plan resolved is_file tool_errors mainnet_errors config accepted other explicit n =
    let (_, clean, _) =
      cross_option_errors-empty resolved is_file tool_errors mainnet_errors config accepted other in
    let c = arguments config in
    let lone = lone_task-accepted is_file config clean explicit n in
    let runs : runs_task c ≡ true = ground (arith, all_configs_sound _ lone_tasks_run c) in
    let (parse, update, work, baseline, report) = runs_task_sound c runs (no_report config n) in
    (plan_of-ordered c, parse, update, work, baseline, report)
