-- ===== src/Executor/Samples.antt =====
-- A graph of three stages at which the laws of stage_executor.py are tried.
use coinjoin_pipeline.Base.{
  ℕ, ◌≡◌, ◌≢◌, ◌≤◌, refl, String, Bool, true, List, [], ◌∷◌, length, arith, string_equality,
  contains, remove, ◌∈◌, subset, list_beq, to_set,
}
use coinjoin_pipeline.Stages.Defs.{StagePlan, StageKind, RunnerName, plan_eq, plan_beq}
use coinjoin_pipeline.Stages.Graph.{ok, ordered, any_absent, place, first_ready}
use coinjoin_pipeline.Executor.Analysis.{
  State, StageEnd, waiting, no_stage_ready, ended, Cancellation, at_position, next_stage,
  submit_ready, finish, stop, execute, begin,
}
use coinjoin_pipeline.Executor.Termination.{execute_ends}
use coinjoin_pipeline.Executor.Progress.{execute_progress, execute_waiting}

abbrev baseline : StagePlan
baseline = record {
  name = "coinjoin-analysis";
  kind = StageKind.baseline;
  runner = RunnerName.local;
  dependencies = [];
}

abbrev blocksci : StagePlan
blocksci = record {
  name = "blocksci";
  kind = StageKind.blocksci_work;
  runner = RunnerName.pbs;
  dependencies = [];
}

abbrev unified_report : StagePlan
unified_report = record {
  name = "unified-report";
  kind = StageKind.report;
  runner = RunnerName.local;
  dependencies = "coinjoin-analysis" ∷ "blocksci" ∷ [];
}

abbrev plan : List StagePlan
plan = baseline ∷ blocksci ∷ unified_report ∷ []

plan_accepted : ordered plan ≡ ok plan
unfolding ordered any_absent place first_ready to_set contains subset remove plan_beq list_beq
plan_accepted = refl

-- BlockSci ends first, then the baseline, then the report.
abbrev success : ℕ → StageEnd
success position = record { position = position; succeeds = true; done = [] }

abbrev all_end : List StageEnd
all_end = success 1 ∷ success 0 ∷ success 0 ∷ []

abbrev unconfirmed : StagePlan → Cancellation
unconfirmed s = Cancellation.failed

abbrev accepts : StagePlan → Bool
accepts s = true

abbrev none_done : StagePlan → List String
none_done s = []

abbrev all_completed : State
all_completed = record {
  pending = [];
  completed = "unified-report" ∷ "coinjoin-analysis" ∷ "blocksci" ∷ [];
  failures = [];
  running = [];
  cancelled = [];
}

abbrev both_running : State
both_running = record {
  pending = unified_report ∷ [];
  completed = [];
  failures = [];
  running = baseline ∷ blocksci ∷ [];
  cancelled = [];
}

all_end_completed :
    execute unconfirmed 2 accepts none_done all_end (begin plan) ≡ ended all_completed
unfolding execute submit_ready next_stage finish stop at_position first_ready subset contains remove
    plan_beq list_beq
all_end_completed = refl

both_wait : execute unconfirmed 2 accepts none_done [] (begin plan) ≡ waiting both_running
unfolding execute submit_ready next_stage first_ready subset contains remove plan_beq list_beq
both_wait = refl

two_workers : ◌≢◌ {A = ℕ} 2 0
two_workers = omega arith

execute_progress_example :
    (execute unconfirmed 2 accepts none_done all_end (begin plan) ≢ no_stage_ready all_completed)
    × (execute unconfirmed 2 accepts none_done all_end (begin plan) ≡ ended all_completed
        → length all_completed.failures ≡ 0
        → (s : StagePlan) → s ∈ plan
        → s.name ∈ all_completed.completed)
execute_progress_example =
    execute_progress unconfirmed 2 accepts none_done plan all_end plan plan_accepted two_workers
      all_completed

execute_waiting_example :
    ((s : StagePlan)
      → s ∈ both_running.running
      → (d : String) → d ∈ s.dependencies
      → d ∈ both_running.completed)
    × (length both_running.running ≤ 2)
execute_waiting_example =
    execute_waiting unconfirmed 2 accepts none_done plan [] plan plan_accepted two_workers
      both_running both_wait

three_ends : length plan ≤ length all_end
three_ends = omega arith

execute_ends_example :
    execute unconfirmed 2 accepts none_done all_end (begin plan) ≢ waiting both_running
execute_ends_example =
    execute_ends unconfirmed 2 accepts none_done plan all_end both_running three_ends
