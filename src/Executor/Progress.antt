-- ===== src/Executor/Progress.antt =====
-- The loop of `execute_analysis` does not get stuck, and what is true whenever it waits.
mod Moves
mod Cancel
mod Invariant
pub use Moves.{running-cases, at_position-mem}
pub use Cancel.{Kept, cancel_running-Kept}
pub use Invariant.{next_stage-some}
use Moves.{no_member, idle_split}
use Invariant.{Sound, submit_ready-Sound, submit_ready-quiet, finish-Sound}
use coinjoin_pipeline.Base.{
  ℕ, ◌-◌, ◌≡◌, ◌≢◌, ◌≤◌, refl, ap, inl, inr, String, Bool, true, List, [], ◌∷◌, length, arith, none,
  subst, string_equality, not, ◌∈◌, contains-head,
}
use coinjoin_pipeline.Stages.Defs.{StagePlan, plan_eq}
use coinjoin_pipeline.Stages.Graph.{first_ready, ordered, ok}
use coinjoin_pipeline.Stages.Order.{ordered-IsOrdered, IsOrdered, ready_exists, not-mem-nil}
use coinjoin_pipeline.Executor.Analysis.{
  State, StageEnd, Progress, waiting, no_stage_ready, ended, Cancellation, at_position, next_stage,
  submit_all, finish, stop, execute, begin,
}

module _ (cancels : StagePlan → Cancellation) where
  module _ (max_workers : ℕ) (submits : StagePlan → Bool) (done_at : StagePlan → List String)
      (q : List StagePlan) where
    idle_first :
        (st : State)
        → max_workers ≢ 0
        → st.running ≡ []
        → length st.failures ≡ 0
        → next_stage cancels max_workers submits done_at st ≡ none
        → first_ready st.completed st.pending ≡ none
    unfolding next_stage
    idle_first st n idle f h = ground (arith, h, ap length idle)

    -- What the loop can answer.
    abbrev Good : Progress → Type 0
    Good (waiting st) = Sound cancels max_workers submits done_at q st
    Good (no_stage_ready st) = ⊥
    Good (ended st) = length st.failures ≡ 0 → (s : StagePlan) → s ∈ q → s.name ∈ st.completed

    stop-Good :
        (st : State)
        → max_workers ≢ 0
        → IsOrdered [] q
        → Sound cancels max_workers submits done_at q st
        → st.running ≡ []
        → next_stage cancels max_workers submits done_at st ≡ none
        → (pending : List StagePlan) → st.pending ≡ pending
        → Good (stop cancels max_workers submits done_at pending st)
    unfolding stop
    stop-Good st n o v idle quiet [] e = λ f t m. elim v.live [
      | inl l ↦ elim (idle_split st t idle (l.split t m)) [
        | inl finished ↦ finished
        | inr waits ↦ absurd (no_member t (rw e at waits))
      ]
      | inr gone ↦ absurd (gone.1 f)
    ]
    stop-Good st n o v idle quiet (p ∷ pending) e = elim v.live [
      | inl l ↦
          let there : p ∈ st.pending = rw e (contains-head p pending) in
          ready_exists [] st.completed st.pending q p (λ d k. not-mem-nil d st.completed k) o
            (λ t m. idle_split st t idle (l.split t m)) (l.sub p there) there
            (idle_first st n idle l.no_failure quiet)
      | inr gone ↦ cc (gone.0, e)
    ]

    execute-Good :
        (events : List StageEnd) (st : State)
        → max_workers ≢ 0
        → IsOrdered [] q
        → Sound cancels max_workers submits done_at q st
        → Good (execute cancels max_workers submits done_at events st)
    unfolding execute
    execute-Good [] st n o v =
        let after = submit_all cancels max_workers submits done_at st in
        let sound =
          submit_ready-Sound cancels max_workers submits done_at q (length st.pending) st v in
        elim (running-cases after.running) [
          | inl idle ↦
              rw (idle, execute)
                (stop-Good after n o sound idle
                  (submit_ready-quiet cancels max_workers submits done_at q (length st.pending) st
                    (omega arith))
                  after.pending refl)
          | inr (r, running, e) ↦ rw (e, execute) sound
        ]
    execute-Good (e ∷ events) st n o v =
        let after = submit_all cancels max_workers submits done_at st in
        let sound =
          submit_ready-Sound cancels max_workers submits done_at q (length st.pending) st v in
        elim (running-cases after.running) [
          | inl idle ↦
              rw (idle, execute)
                (stop-Good after n o sound idle
                  (submit_ready-quiet cancels max_workers submits done_at q (length st.pending) st
                    (omega arith))
                  after.pending refl)
          | inr (r, running, same) ↦
              let s = at_position e.position r running in
              let runs : s ∈ after.running = rw same (at_position-mem e.position r running) in
              rw (same, execute)
                (execute-Good events (finish cancels max_workers submits done_at e s after) n o
                  (finish-Sound cancels max_workers submits done_at q e s after runs sound))
        ]

    begin-Sound : Sound cancels max_workers submits done_at q (begin q)
    begin-Sound = record {
      ready = λ s m d k. absurd (no_member s m);
      bounded = omega arith;
      live = inl record { split = λ s m. inr (inl m); sub = λ p m. m; no_failure = refl };
    }

    run-Good :
        (events : List StageEnd)
        → (graph : List StagePlan) → ordered graph ≡ ok q
        → max_workers ≢ 0
        → Good (execute cancels max_workers submits done_at events (begin q))
    run-Good events graph h n =
        execute-Good events (begin q) n (ordered-IsOrdered graph q h) begin-Sound

    -- In a graph that was accepted, whatever fails and in whatever order stages end, the loop never
    -- raises `No stage is ready`; and when it ends without a failure, each stage was completed.
    pub execute_progress :
        (events : List StageEnd) (graph : List StagePlan)
        → ordered graph ≡ ok q
        → max_workers ≢ 0
        → (st : State)
        → (execute cancels max_workers submits done_at events (begin q) ≢ no_stage_ready st)
          × (execute cancels max_workers submits done_at events (begin q) ≡ ended st
              → length st.failures ≡ 0
              → (s : StagePlan) → s ∈ q
              → s.name ∈ st.completed)
    execute_progress events graph h n st = (
      λ e. subst Good e (run-Good events graph h n),
      λ e. subst Good e (run-Good events graph h n),
    )

    -- In a graph that was accepted, whenever the loop waits, each running stage has all its
    -- dependencies completed, and at most `max_workers` stages are running.
    pub execute_waiting :
        (events : List StageEnd) (graph : List StagePlan)
        → ordered graph ≡ ok q
        → max_workers ≢ 0
        → (st : State) → execute cancels max_workers submits done_at events (begin q) ≡ waiting st
        → ((s : StagePlan) → s ∈ st.running → (d : String) → d ∈ s.dependencies → d ∈ st.completed)
          × (length st.running ≤ max_workers)
    execute_waiting events graph h n st e =
        let sound : Sound cancels max_workers submits done_at q st =
          subst Good e (run-Good events graph h n) in
        (sound.ready, sound.bounded)
