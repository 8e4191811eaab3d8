-- ===== src/Executor/Termination.antt =====
-- `execute_analysis` ends: each end of a stage brings it nearer to its own end.
use coinjoin_pipeline.Base.{
  ℕ, zero, suc, ◌+◌, ◌≡◌, ◌≢◌, ◌≤◌, refl, ap, inl, inr, String, Bool, List, [], ◌∷◌, length, arith,
  Bool-cases, string_equality, Option-cases, ◌∈◌, length-remove, length-append,
}
use coinjoin_pipeline.Stages.Defs.{StagePlan, plan_eq}
use coinjoin_pipeline.Stages.Order.{first_ready-mem}
use coinjoin_pipeline.Executor.Analysis.{
  State, StageEnd, waiting, Cancellation, at_position, fail, submitted, next_stage, submit_ready,
  submit_all, finish, stop, execute, begin,
}
use coinjoin_pipeline.Executor.Progress.{
  Kept, cancel_running-Kept, next_stage-some, running-cases, at_position-mem,
}

-- The stages that have not ended.
abbrev load : State → ℕ
load st = length st.pending + length st.running

Kept-load : (st after : State) → Kept st after → load after ≡ load st
Kept-load st after k = rw (k.pending, k.running) refl

-- The variables after a failure, before the cancellations.
abbrev dropped : String → State → State
dropped name st = record {
  pending = [];
  completed = st.completed;
  failures = name ∷ st.failures;
  running = st.running;
  cancelled = st.cancelled;
}

module _ (cancels : StagePlan → Cancellation) (max_workers : ℕ) (submits : StagePlan → Bool)
    (done_at : StagePlan → List String) where
  fail-load :
      (name : String) (done : List String) (st : State)
      → load (fail cancels name done st) ≤ length st.running
  unfolding fail
  fail-load name done st = omega (
    arith,
    Kept-load (dropped name st) _ (cancel_running-Kept cancels done st.running (dropped name st)),
  )

  submit_ready-load :
      (fuel : ℕ) (st : State)
      → load (submit_ready cancels max_workers submits done_at fuel st) ≤ load st
  unfolding submit_ready
  submit_ready-load zero st = omega arith
  submit_ready-load (suc fuel) st =
      elim (Option-cases (next_stage cancels max_workers submits done_at st)) [
        | inl stuck ↦ rw (stuck, submit_ready) (omega arith)
        | inr (s, e) ↦
            let (room, first) = next_stage-some cancels max_workers submits done_at [] st s e in
            let fewer =
              length-remove s st.pending (first_ready-mem st.completed st.pending s first).0 in
            elim (Bool-cases (submits s)) [
              | inl taken ↦
                  rw (e, taken, submit_ready)
                    (omega (
                      arith,
                      fewer,
                      length-append st.running (s ∷ []),
                      submit_ready-load fuel (submitted cancels max_workers submits done_at s st),
                    ))
              | inr raises ↦
                  rw (e, raises, submit_ready) (omega (arith, fail-load s.name (done_at s) _))
            ]
      ]

  finish-load :
      (e : StageEnd) (s : StagePlan) (st : State)
      → s ∈ st.running
      → load (finish cancels max_workers submits done_at e s st) + 1 ≤ load st
  unfolding finish
  finish-load e s st m =
      let fewer = length-remove s st.running m in
      elim (Bool-cases e.succeeds) [
        | inl good ↦ rw (good, finish) (omega (arith, fewer))
        | inr bad ↦ rw (bad, finish) (omega (arith, fewer, fail-load s.name e.done _))
      ]

  stop-waiting :
      (pending : List StagePlan) (st after : State)
      → stop cancels max_workers submits done_at pending st ≢ waiting after
  unfolding stop
  stop-waiting [] st after h = cc
  stop-waiting (p ∷ pending) st after h = cc

  execute-waiting :
      (events : List StageEnd) (st after : State)
      → load st ≤ length events
      → execute cancels max_workers submits done_at events st ≢ waiting after
  unfolding execute
  execute-waiting [] st after h =
      let now = submit_all cancels max_workers submits done_at st in
      elim (running-cases now.running) [
        | inl idle ↦ rw (idle, execute) (stop-waiting now.pending now after)
        | inr (r, running, e) ↦
            absurd (omega (arith, h, submit_ready-load (length st.pending) st, ap length e))
      ]
  execute-waiting (e ∷ events) st after h =
      let now = submit_all cancels max_workers submits done_at st in
      elim (running-cases now.running) [
        | inl idle ↦ rw (idle, execute) (stop-waiting now.pending now after)
        | inr (r, running, same) ↦
            let s = at_position e.position r running in
            let runs : s ∈ now.running = rw same (at_position-mem e.position r running) in
            rw (same, execute)
              (execute-waiting events (finish cancels max_workers submits done_at e s now) after (
                omega
                  (arith, h, submit_ready-load (length st.pending) st, finish-load e s now runs)))
      ]

  -- After at most as many ends as there are stages, whether they end well or not, the loop no longer
  -- waits.
  pub execute_ends :
      (graph : List StagePlan) (events : List StageEnd) (after : State)
      → length graph ≤ length events
      → execute cancels max_workers submits done_at events (begin graph) ≢ waiting after
  execute_ends graph events after h = execute-waiting events (begin graph) after (omega (arith, h))
