-- ===== src/Executor/Progress/Invariant.antt =====
-- What `execute_analysis` keeps true of its variables, and that its inner loop submits all it can.
use coinjoin_pipeline.Executor.Progress.Moves.{mem-snoc, keep_split, knows, finish_split}
use coinjoin_pipeline.Executor.Progress.Cancel.{cancel_running-Kept}
use coinjoin_pipeline.Base.{
  ℕ, zero, suc, ◌≡◌, ◌≢◌, ◌≤◌, ◌<◌, ◌⊎◌, inl, inr, String, Bool, List, [], ◌∷◌, length, arith,
  Bool-cases, none, some, subst, string_equality, Option-cases, contains, remove, ◌∈◌,
  mem_of_remove, length-remove, length-append, subset-mem,
}
use coinjoin_pipeline.Stages.Defs.{StagePlan, plan_eq}
use coinjoin_pipeline.Stages.Graph.{first_ready}
use coinjoin_pipeline.Stages.Order.{first_ready-mem}
use coinjoin_pipeline.Executor.Analysis.{
  State, StageEnd, Cancellation, fail, submitted, next_stage, submit_ready, finish,
}

module _ (cancels : StagePlan → Cancellation) where
  -- A running stage has all its dependencies completed, and the bound on the running stages holds.
  -- Unless a failure has dropped the pending stages, no stage of the graph `q` is lost.
  module _ (max_workers : ℕ) (submits : StagePlan → Bool) (done_at : StagePlan → List String)
      (q : List StagePlan) where
    pub record Live (st : State) : Type 0 where
      pub split :
          (s : StagePlan) → s ∈ q → (s.name ∈ st.completed) ⊎ ((s ∈ st.pending) ⊎ (s ∈ st.running))
      pub sub : (p : StagePlan) → p ∈ st.pending → p ∈ q
      pub no_failure : length st.failures ≡ 0

    pub record Sound (st : State) : Type 0 where
      pub ready :
          (s : StagePlan) → s ∈ st.running → (d : String) → d ∈ s.dependencies → d ∈ st.completed
      pub bounded : length st.running ≤ max_workers
      pub live : Live st ⊎ ((st.pending ≡ []) × (length st.failures ≢ 0))

    fail-Sound :
        (name : String) (done : List String) (st : State)
        → ((s : StagePlan) → s ∈ st.running → (d : String) → d ∈ s.dependencies → d ∈ st.completed)
        → length st.running ≤ max_workers
        → Sound (fail cancels name done st)
    unfolding fail
    fail-Sound name done st r b =
        let kept = cancel_running-Kept cancels done st.running _ in
        record {
          ready = λ s m d k. rw kept.completed (r s (rw kept.running at m) d k);
          bounded = rw kept.running b;
          live = inr (kept.pending, omega (arith, kept.failures));
        }

    fail-pending :
        (name : String) (done : List String) (st : State) → (fail cancels name done st).pending ≡ []
    unfolding fail
    fail-pending name done st = (cancel_running-Kept cancels done st.running _).pending

    no_pending :
        (st : State) → st.pending ≡ [] → next_stage cancels max_workers submits done_at st ≡ none
    unfolding next_stage first_ready
    no_pending st h = ground (arith, h)

    pub next_stage-some :
        (st : State) (s : StagePlan)
        → next_stage cancels max_workers submits done_at st ≡ some s
        → (length st.running < max_workers) × (first_ready st.completed st.pending ≡ some s)
    unfolding next_stage
    next_stage-some st s h = ground (arith, h)

    submitted-Sound :
        (st : State) (s : StagePlan)
        → next_stage cancels max_workers submits done_at st ≡ some s
        → Sound st
        → Sound (submitted cancels max_workers submits done_at s st)
    unfolding contains
    submitted-Sound st s h v =
        let (room, first) = next_stage-some st s h in
        let (there, is) = first_ready-mem st.completed st.pending s first in
        record {
          ready = λ t m d k. elim (mem-snoc t s st.running m) [
            | inl old ↦ v.ready t old d k
            | inr new ↦
                subset-mem s.dependencies st.completed d is
                  (subst (λ (x : StagePlan). d ∈ x.dependencies) new k)
          ];
          bounded = omega (arith, length-append st.running (s ∷ []), room);
          live = elim v.live [
            | inl l ↦ inl record {
              split = λ t m. keep_split st s t (l.split t m);
              sub = λ p m. l.sub p (mem_of_remove p s st.pending m);
              no_failure = l.no_failure;
            }
            | inr gone ↦ absurd (ground (arith, rw (gone.0) at there))
          ];
        }

    pub submit_ready-Sound :
        (fuel : ℕ) (st : State)
        → Sound st
        → Sound (submit_ready cancels max_workers submits done_at fuel st)
    unfolding submit_ready
    submit_ready-Sound zero st v = v
    submit_ready-Sound (suc fuel) st v =
        elim (Option-cases (next_stage cancels max_workers submits done_at st)) [
          | inl stuck ↦ rw (stuck, submit_ready) v
          | inr (s, e) ↦ elim (Bool-cases (submits s)) [
            | inl taken ↦
                rw (e, taken, submit_ready) (submit_ready-Sound fuel _ (submitted-Sound st s e v))
            | inr raises ↦
                rw (e, raises, submit_ready) (fail-Sound s.name (done_at s) _ v.ready v.bounded)
          ]
        ]

    -- With fuel for every pending stage, the inner loop ends when no stage can be submitted.
    pub submit_ready-quiet :
        (fuel : ℕ) (st : State)
        → length st.pending ≤ fuel
        → next_stage cancels max_workers submits done_at
            (submit_ready cancels max_workers submits done_at fuel st)
          ≡ none
    unfolding submit_ready
    submit_ready-quiet zero st h = no_pending st (ground (arith, h))
    submit_ready-quiet (suc fuel) st h =
        elim (Option-cases (next_stage cancels max_workers submits done_at st)) [
          | inl stuck ↦ rw (stuck, submit_ready) stuck
          | inr (s, e) ↦ elim (Bool-cases (submits s)) [
            | inl taken ↦
                rw (e, taken, submit_ready)
                  (submit_ready-quiet fuel (submitted cancels max_workers submits done_at s st) (
                    omega (
                      arith,
                      h,
                      length-remove s st.pending
                          (first_ready-mem st.completed st.pending s (next_stage-some st s e).1).0,
                    )))
            | inr raises ↦
                rw (e, raises, submit_ready) (no_pending _ (fail-pending s.name (done_at s) _))
          ]
        ]

    pub finish-Sound :
        (e : StageEnd) (s : StagePlan) (st : State)
        → s ∈ st.running
        → Sound st
        → Sound (finish cancels max_workers submits done_at e s st)
    unfolding finish
    finish-Sound e s st m v =
        let still =
          λ (t : StagePlan) (k : t ∈ remove s st.running). mem_of_remove t s st.running k in
        let fewer = length-remove s st.running m in
        elim (Bool-cases e.succeeds) [
          | inl good ↦
              rw (good, finish)
                record {
                  ready = λ t k d h. knows st.completed d s (v.ready t (still t k) d h);
                  bounded = omega (arith, fewer, v.bounded);
                  live = elim v.live [
                    | inl l ↦ inl record {
                      split = λ t k. finish_split st s t (l.split t k);
                      sub = l.sub;
                      no_failure = l.no_failure;
                    }
                    | inr gone ↦ inr gone
                  ];
                }
          | inr bad ↦
              rw (bad, finish)
                (fail-Sound s.name e.done _ (λ t k d h. v.ready t (still t k) d h)
                  (omega (arith, fewer, v.bounded)))
        ]
