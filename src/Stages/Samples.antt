-- ===== src/Stages/Samples.antt =====
-- Stage graphs at which the laws of stages.py are tried.
use mathlib.Core.List.{Perm}
use coinjoin_pipeline.Base.{
  ◌≡◌, refl, ◌↔◌, ◌∈◌, true, List, [], ◌∷◌, IsDistinct, contains, subset, to_set, remove, list_beq,
  string_equality,
}
use coinjoin_pipeline.Stages.Defs.{StagePlan, StageKind, RunnerName, plan_eq, plan_beq}
use coinjoin_pipeline.Stages.Graph.{
  ok, ordered, names, dependents_of, any_absent, place, first_ready,
}
use coinjoin_pipeline.Stages.Order.{IsOrdered, ordered_iff}
use coinjoin_pipeline.Stages.Stable.{ordered_stable}
use coinjoin_pipeline.Stages.Dependents.{DependsOn, dependents_of_iff}
use coinjoin_pipeline.Stages.Plans.{BlockSciWorkflow, BlockSciTask, runs_unified_report}
use coinjoin_pipeline.Stages.Configs.{PlanConfig, plan_of}
use coinjoin_pipeline.Stages.PlanLaws.{
  blocks_kind, of_kind, is_analyzer, has_kind, plan_of-ordered, dependents_of-plan_of,
  report-dependencies, full_run_report,
}

abbrev emulate : StagePlan
emulate = record {
  name = "kubernetes-emulation";
  kind = StageKind.emulation;
  runner = RunnerName.kubernetes;
  dependencies = [];
}

abbrev analyze : StagePlan
analyze = record {
  name = "coinjoin-analysis";
  kind = StageKind.baseline;
  runner = RunnerName.pbs;
  dependencies = "kubernetes-emulation" ∷ [];
}

abbrev listed : List StagePlan
listed = emulate ∷ analyze ∷ []

abbrev reversed : List StagePlan
reversed = analyze ∷ emulate ∷ []

reversed-ordered : ordered reversed ≡ ok listed
unfolding ordered any_absent place first_ready to_set contains subset remove plan_beq list_beq
reversed-ordered = refl

listed-IsDistinct : IsDistinct (names listed)
unfolding contains
listed-IsDistinct = (refl, (refl, tt))

listed-IsOrdered : IsOrdered [] listed
unfolding subset contains
listed-IsOrdered = ((λ d m. m), ((λ d m. m), tt))

ordered_iff_example :
    ((out : List StagePlan) × (ordered reversed ≡ ok out))
    ↔ (IsDistinct (names reversed) × ((q : List StagePlan) × Perm q reversed × IsOrdered [] q))
ordered_iff_example = ordered_iff reversed

ordered_stable_example : ordered listed ≡ ok listed
ordered_stable_example = ordered_stable listed listed-IsDistinct listed-IsOrdered

dependents_of_iff_example :
    (found : List StagePlan) × (dependents_of reversed "kubernetes-emulation" ≡ ok found)
    × ((s : StagePlan) → (s ∈ found) ↔ DependsOn reversed "kubernetes-emulation" s)
dependents_of_iff_example =
    dependents_of_iff reversed listed "kubernetes-emulation" reversed-ordered

abbrev full_run : PlanConfig
full_run = record {
  mappings_pbs = true;
  workflow = BlockSciWorkflow.reusable;
  analysis_pbs = true;
  blocksci_pbs = true;
  task = BlockSciTask.detect;
  unified_report = true;
}

abbrev full_report : StagePlan
full_report = record {
  name = "unified-report";
  kind = StageKind.report;
  runner = RunnerName.pbs;
  dependencies = "coinjoin-analysis" ∷ "blocksci-analyze" ∷ "coinjoin-mappings" ∷ [];
}

analyze_in_full_run : analyze ∈ plan_of full_run
unfolding plan_of contains plan_beq list_beq
analyze_in_full_run = refl

report_in_full_run : full_report ∈ plan_of full_run
unfolding plan_of contains plan_beq list_beq
report_in_full_run = refl

plan_of-ordered_example : ordered (plan_of full_run) ≡ ok (plan_of full_run)
plan_of-ordered_example = plan_of-ordered full_run

dependents_of-plan_of_example :
    dependents_of (plan_of full_run) "coinjoin-analysis"
    ≡ ok (of_kind (blocks_kind StageKind.baseline) (plan_of full_run))
dependents_of-plan_of_example = dependents_of-plan_of full_run analyze analyze_in_full_run

report-dependencies_example :
    full_report.dependencies ≡ names (of_kind is_analyzer (plan_of full_run))
report-dependencies_example = report-dependencies full_run full_report report_in_full_run refl

full_run_reports : true ≡ runs_unified_report "full-run" true true BlockSciTask.detect
unfolding runs_unified_report
full_run_reports = refl

full_run_report_example :
    (has_kind StageKind.report (plan_of full_run) ≡ true)
    × (has_kind StageKind.report (plan_of full_run) ≡ true
        → has_kind StageKind.baseline (plan_of full_run) ≡ true)
full_run_report_example = full_run_report full_run full_run_reports
