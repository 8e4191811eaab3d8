-- ===== src/Executor/Progress/Cancel.antt =====
-- `_cancel_running` only adds to the failures and the cancelled stages.
use coinjoin_pipeline.Base.{
  ◌≡◌, ◌≤◌, refl, ◌∙◌, inl, inr, String, List, [], ◌∷◌, length, arith, Bool-cases, string_equality,
  ◌||◌, contains,
}
use coinjoin_pipeline.Stages.Defs.{StagePlan, plan_eq}
use coinjoin_pipeline.Executor.Analysis.{State, Cancellation, record_cancel, cancel_running}

-- What cancellations leave as it was.
pub record Kept (st after : State) : Type 0 where
  pub pending : after.pending ≡ st.pending
  pub completed : after.completed ≡ st.completed
  pub running : after.running ≡ st.running
  pub failures : length st.failures ≤ length after.failures

module _ (cancels : StagePlan → Cancellation) where
  record_cancel-Kept :
      (s : StagePlan) (c : Cancellation) (st : State) → Kept st (record_cancel cancels s c st)
  unfolding record_cancel
  record_cancel-Kept s Cancellation.absent st = record {
    pending = refl;
    completed = refl;
    running = refl;
    failures = omega arith;
  }
  record_cancel-Kept s Cancellation.confirmed st = record {
    pending = refl;
    completed = refl;
    running = refl;
    failures = omega arith;
  }
  record_cancel-Kept s Cancellation.failed st = record {
    pending = refl;
    completed = refl;
    running = refl;
    failures = omega arith;
  }

  pub cancel_running-Kept :
      (done : List String) (running : List StagePlan) (st : State)
      → Kept st (cancel_running cancels done running st)
  unfolding cancel_running
  cancel_running-Kept done [] st = record {
    pending = refl;
    completed = refl;
    running = refl;
    failures = omega arith;
  }
  cancel_running-Kept done (s ∷ running) st =
      let one = record_cancel-Kept s (cancels s) st in
      let rest = cancel_running-Kept done running (record_cancel cancels s (cancels s) st) in
      elim (Bool-cases (contains s.name done || contains s.name st.cancelled)) [
        | inl skip ↦ rw (skip, cancel_running) (cancel_running-Kept done running st)
        | inr try ↦
            rw (try, cancel_running)
              record {
                pending = rest.pending ∙ one.pending;
                completed = rest.completed ∙ one.completed;
                running = rest.running ∙ one.running;
                failures = omega (arith, rest.failures, one.failures);
              }
      ]
