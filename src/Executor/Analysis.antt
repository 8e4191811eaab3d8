-- ===== src/Executor/Analysis.antt =====
-- stage_executor.py: `_cancel_running` and `execute_analysis`. What a runner's adapters answer, the
-- order in which submissions finish, and the futures that are done when a submission fails
-- (`done_at`) are parameters. `max_workers` is positive: the source refuses others before it starts.
use Prim.Native.String.{◌++◌ as str_append}
use coinjoin_pipeline.Base.{
  ℕ, zero, suc, String, Bool, List, [], ◌∷◌, ◌++◌, length, if◌then◌else◌, ltb, nat_beq, Option,
  none, some, string_equality, ◌&&◌, ◌||◌, contains, remove,
}
use coinjoin_pipeline.Stages.Defs.{StagePlan, plan_eq}
use coinjoin_pipeline.Stages.Graph.{first_ready}

-- The local variables of `execute_analysis`; a submission is its stage. `failures` keeps the names.
pub record State : Type 0 where
  pub pending : List StagePlan
  pub completed : List String
  pub failures : List String
  pub running : List StagePlan
  pub cancelled : List String

-- The future that `as_completed` yields next, by its position among the running ones, how it ends,
-- and the stages whose futures are done when a failure of it cancels the others.
pub record StageEnd : Type 0 where
  pub position : ℕ
  pub succeeds : Bool
  pub done : List String

-- The loop is waiting for a future; it raised `No stage is ready`; or it ended, and the failures, if
-- there are any, are raised.
pub data Progress : Type 0 where
  waiting no_stage_ready ended : State → Progress

-- The future at a position of a list that is not empty, the last one beyond its end.
unfoldable pub at_position : ℕ → StagePlan → List StagePlan → StagePlan
at_position n r [] = r
at_position zero r (s ∷ running) = r
at_position (suc n) r (s ∷ running) = at_position n s running

-- How `submission.cancel()` ends: there is no `cancel`, it is confirmed, or it is not.
pub data Cancellation : Type 0 where
  absent confirmed failed : Cancellation

module _ (cancels : StagePlan → Cancellation) where
  unfoldable pub record_cancel : StagePlan → Cancellation → State → State
  record_cancel s absent st = st
  record_cancel s confirmed st = record {
    pending = st.pending;
    completed = st.completed;
    failures = st.failures;
    running = st.running;
    cancelled = s.name ∷ st.cancelled;
  }
  record_cancel s failed st = record {
    pending = st.pending;
    completed = st.completed;
    failures = str_append s.name " cancellation" ∷ st.failures;
    running = st.running;
    cancelled = s.name ∷ st.cancelled;
  }

  -- The loop of `_cancel_running`, over the running submissions.
  unfoldable pub cancel_running : List String → List StagePlan → State → State
  cancel_running done [] st = st
  cancel_running done (s ∷ running) st =
      let skipped = cancel_running done running st in
      let tried = cancel_running done running (record_cancel s (cancels s) st) in
      if contains s.name done || contains s.name st.cancelled then skipped else tried

  -- A stage failed: nothing else is submitted, and what runs is cancelled.
  unfoldable pub fail : String → List String → State → State
  fail name done st = cancel_running done st.running (record {
    pending = [];
    completed = st.completed;
    failures = name ∷ st.failures;
    running = st.running;
    cancelled = st.cancelled;
  })

  module _ (max_workers : ℕ) (submits : StagePlan → Bool) (done_at : StagePlan → List String) where
    abbrev pub submitted : StagePlan → State → State
    submitted s st = record {
      pending = remove s st.pending;
      completed = st.completed;
      failures = st.failures;
      running = st.running ++ s ∷ [];
      cancelled = st.cancelled;
    }

    -- `while pending and len(running) < max_workers and not failures`, and a stage is ready
    unfoldable pub next_stage : State → Option StagePlan
    next_stage st =
        if ltb (length st.running) max_workers && nat_beq (length st.failures) 0
        then first_ready st.completed st.pending
        else none

    -- The inner loop. Each round submits a pending stage, so their number bounds the rounds.
    unfoldable pub submit_ready : ℕ → State → State
    submit_ready zero st = st
    submit_ready (suc fuel) st = elim (next_stage st) [
      | none ↦ st
      | some s ↦
          if submits s
          then submit_ready fuel (submitted s st)
          else fail s.name (done_at s) (record {
            pending = remove s st.pending;
            completed = st.completed;
            failures = st.failures;
            running = st.running;
            cancelled = st.cancelled;
          })
    ]

    abbrev pub submit_all : State → State
    submit_all st = submit_ready (length st.pending) st

    -- A running stage ends.
    unfoldable pub finish : StageEnd → StagePlan → State → State
    finish e s st =
        let others : State = record {
          pending = st.pending;
          completed = st.completed;
          failures = st.failures;
          running = remove s st.running;
          cancelled = st.cancelled;
        } in
        if e.succeeds
        then record {
          pending = others.pending;
          completed = s.name ∷ others.completed;
          failures = others.failures;
          running = others.running;
          cancelled = others.cancelled;
        }
        else fail s.name e.done others

    -- Nothing is running.
    unfoldable pub stop : List StagePlan → State → Progress
    stop [] st = ended st
    stop (s ∷ pending) st = no_stage_ready st

    -- The outer loop, after its submissions, until the events are used up. When `No stage is ready` is
    -- raised nothing is running, so the last `_cancel_running` has nothing to do.
    unfoldable pub execute : List StageEnd → State → Progress
    execute [] st = elim (submit_all st).running [
      | [] ↦ stop (submit_all st).pending (submit_all st)
      | r ∷ running ↦ waiting (submit_all st)
    ]
    execute (e ∷ events) st = elim (submit_all st).running [
      | [] ↦ stop (submit_all st).pending (submit_all st)
      | r ∷ running ↦ execute events (finish e (at_position e.position r running) (submit_all st))
    ]

-- `pending` is the graph in wait order.
abbrev pub begin : List StagePlan → State
begin graph = record {
  pending = graph;
  completed = [];
  failures = [];
  running = [];
  cancelled = [];
}
