-- ===== src/Stages/Plans.antt =====
-- stages.py: the plan functions. `StageGraph(tuple(stages))` runs `ordered` on the stages and keeps
-- them as listed, so a plan is the list that it passes on.
use Prim.Native.String.{◌++◌ as str_append}
use coinjoin_pipeline.Base.{
  String, Bool, true, false, not, ◌&&◌, ◌||◌, List, [], ◌∷◌, ◌++◌, Option, none, some,
  if◌then◌else◌, ◌==◌, string_equality,
}
use coinjoin_pipeline.Stages.Defs.{StageKind, StagePlan, RunnerName}

pub data BlockSciWorkflow : Type 0 where
  combined reusable cached : BlockSciWorkflow

-- configuration.py: the literals that the option admits.
pub data BlockSciTask : Type 0 where
  detect parse update script notebook external backup : BlockSciTask

unfoldable pub task_text : BlockSciTask → String
task_text BlockSciTask.detect = "detect"
task_text BlockSciTask.parse = "parse"
task_text BlockSciTask.update = "update"
task_text BlockSciTask.script = "script"
task_text BlockSciTask.notebook = "notebook"
task_text BlockSciTask.external = "external"
task_text BlockSciTask.backup = "backup"

abbrev pub is_detect : BlockSciTask → Bool
is_detect BlockSciTask.detect = true
is_detect _ = false

-- `tuple(stage for stage in stages if stage is not None)`
unfoldable pub present : List (Option StagePlan) → List StagePlan
present [] = []
present (none ∷ rest) = present rest
present (some s ∷ rest) = s ∷ present rest

unfoldable pub plan_names : List (Option StagePlan) → List String
plan_names [] = []
plan_names (none ∷ rest) = plan_names rest
plan_names (some s ∷ rest) = s.name ∷ plan_names rest

unfoldable pub mappings_stage : StagePlan → StagePlan
mappings_stage after = record {
  name = "coinjoin-mappings";
  kind = StageKind.mappings;
  runner = RunnerName.pbs;
  dependencies = after.name ∷ [];
}

unfoldable pub report_stage : RunnerName → List (Option StagePlan) → StagePlan
report_stage runner analyzers = record {
  name = "unified-report";
  kind = StageKind.report;
  runner = runner;
  dependencies = plan_names analyzers;
}

unfoldable pub runs_unified_report : String → Bool → Bool → BlockSciTask → Bool
runs_unified_report action analysis_pbs blocksci_pbs task =
    blocksci_pbs && is_detect task && (analysis_pbs || not (action == "full-run"))

abbrev runner_if : Bool → RunnerName
runner_if on = if on then RunnerName.pbs else RunnerName.local

unfoldable pub analysis_plan : Bool → Bool → Bool → List StagePlan
unfolding mappings_stage report_stage present plan_names
analysis_plan analysis_pbs blocksci_pbs mappings_pbs =
    let baseline : StagePlan = record {
      name = "coinjoin-analysis";
      kind = StageKind.baseline;
      runner = runner_if analysis_pbs;
      dependencies = [];
    } in
    let blocksci : StagePlan = record {
      name = "blocksci";
      kind = StageKind.blocksci_work;
      runner = runner_if blocksci_pbs;
      dependencies = [];
    } in
    let mappings = if mappings_pbs then some (mappings_stage baseline) else none in
    present (
      some baseline
      ∷ some blocksci
      ∷ mappings
      ∷ some (report_stage (runner_if blocksci_pbs) (some baseline ∷ some blocksci ∷ mappings ∷ []))
      ∷ [])

-- `plan or other`
abbrev pub or_else : Option StagePlan → StagePlan → StagePlan
or_else none other = other
or_else (some plan) other = plan

unfoldable pub parse_stage : StagePlan → BlockSciWorkflow → Option StagePlan
parse_stage emulation BlockSciWorkflow.reusable = some (record {
  name = "blocksci-parse";
  kind = StageKind.blocksci_parse;
  runner = RunnerName.pbs;
  dependencies = emulation.name ∷ [];
})
parse_stage emulation _ = none

unfoldable pub work_stage : StagePlan → BlockSciTask → Option StagePlan
unfolding task_text
work_stage after BlockSciTask.parse = none
work_stage after task = some (record {
  name = str_append "blocksci-" (if is_detect task then "analyze" else task_text task);
  kind = StageKind.blocksci_work;
  runner = RunnerName.pbs;
  dependencies = after.name ∷ [];
})

-- `_blocksci_stages`: the parse stage and the work stage.
unfoldable pub blocksci_stages :
    StagePlan → Bool → BlockSciWorkflow → BlockSciTask → Option StagePlan × Option StagePlan
unfolding parse_stage work_stage
blocksci_stages emulation false workflow task = (none, none)
blocksci_stages emulation true workflow BlockSciTask.update = (
  none,
  some (record {
    name = "blocksci-update";
    kind = StageKind.blocksci_update;
    runner = RunnerName.pbs;
    dependencies = emulation.name ∷ [];
  }),
)
blocksci_stages emulation true BlockSciWorkflow.combined task = (
  none,
  some (record {
    name = "blocksci";
    kind = StageKind.blocksci_work;
    runner = RunnerName.pbs;
    dependencies = emulation.name ∷ [];
  }),
)
blocksci_stages emulation true workflow task =
    let parsed = parse_stage emulation workflow in
    (parsed, work_stage (or_else parsed emulation) task)

unfoldable pub s3_full_run_plan :
    (mappings_pbs : Bool)
    → BlockSciWorkflow
    → (analysis_pbs blocksci_pbs : Bool) → BlockSciTask
    → (unified_report : Bool) → List StagePlan
unfolding mappings_stage report_stage present plan_names blocksci_stages
s3_full_run_plan mappings_pbs workflow analysis_pbs blocksci_pbs task unified_report =
    let emulation : StagePlan = record {
      name = "kubernetes-emulation";
      kind = StageKind.emulation;
      runner = RunnerName.kubernetes;
      dependencies = [];
    } in
    let baseline : Option StagePlan =
      if analysis_pbs
      then some (record {
        name = "coinjoin-analysis";
        kind = StageKind.baseline;
        runner = RunnerName.pbs;
        dependencies = emulation.name ∷ [];
      })
      else none in
    let mappings =
      if mappings_pbs then some (mappings_stage (or_else baseline emulation)) else none in
    let (parsed, work) = blocksci_stages emulation blocksci_pbs workflow task in
    let stages = present (some emulation ∷ baseline ∷ parsed ∷ work ∷ mappings ∷ []) in
    if unified_report && blocksci_pbs && is_detect task
    then stages ++ report_stage RunnerName.pbs (baseline ∷ work ∷ mappings ∷ []) ∷ []
    else stages
