-- ===== src/Executor/Progress/Moves.antt =====
-- How a stage moves between the variables of `execute_analysis`.
use coinjoin_pipeline.Base.{
  ℕ, zero, suc, ◌≡◌, refl, ap, ◌⊎◌, inl, inr, String, List, [], ◌∷◌, ◌++◌, arith, string_equality,
  contains, remove, ◌∈◌, contains-head, contains-append, mem-remove, ==→≡, ==-refl,
}
use coinjoin_pipeline.Stages.Defs.{StagePlan, plan_eq}
use coinjoin_pipeline.Executor.Analysis.{State, at_position}

pub mem-snoc : (t s : StagePlan) (xs : List StagePlan) → t ∈ xs ++ s ∷ [] → (t ∈ xs) ⊎ (t ≡ s)
unfolding contains
mem-snoc t s xs m = ground (arith, contains-append t xs (s ∷ []), plan_eq.equals_iff t s, m)

-- A stage that is submitted moves from the pending stages to the running ones.
pub keep_split :
    (st : State) (s t : StagePlan)
    → (t.name ∈ st.completed) ⊎ ((t ∈ st.pending) ⊎ (t ∈ st.running))
    → (t.name ∈ st.completed) ⊎ ((t ∈ remove s st.pending) ⊎ (t ∈ st.running ++ s ∷ []))
unfolding contains
keep_split st s t h = ground (
  arith,
  h,
  mem-remove t s st.pending,
  contains-append t st.running (s ∷ []),
  plan_eq.equals_iff t s,
)

pub knows :
    (completed : List String) (d : String) (s : StagePlan) → d ∈ completed → d ∈ s.name ∷ completed
unfolding contains
knows completed d s m = ground (arith, m)

-- A stage that ends well moves from the running stages to the completed ones.
pub finish_split :
    (st : State) (s t : StagePlan)
    → (t.name ∈ st.completed) ⊎ ((t ∈ st.pending) ⊎ (t ∈ st.running))
    → (t.name ∈ s.name ∷ st.completed) ⊎ ((t ∈ st.pending) ⊎ (t ∈ remove s st.running))
unfolding contains
finish_split st s t h = ground (
  arith,
  h,
  mem-remove t s st.running,
  ==→≡ t s,
  λ (e : t ≡ s). ap (λ (x : StagePlan). x.name) e,
  ==-refl s.name,
)

pub no_member : (t : StagePlan) → t ∈ [] → ⊥
unfolding contains
no_member t m = cc

pub idle_split :
    (st : State) (t : StagePlan)
    → st.running ≡ []
    → (t.name ∈ st.completed) ⊎ ((t ∈ st.pending) ⊎ (t ∈ st.running))
    → (t.name ∈ st.completed) ⊎ (t ∈ st.pending)
idle_split st t idle (inl done) = inl done
idle_split st t idle (inr (inl waits)) = inr waits
idle_split st t idle (inr (inr runs)) = absurd (no_member t (rw idle at runs))

pub at_position-mem :
    (n : ℕ) (r : StagePlan) (running : List StagePlan) → at_position n r running ∈ r ∷ running
unfolding at_position contains
at_position-mem n r [] = contains-head r []
at_position-mem zero r (s ∷ running) = contains-head r (s ∷ running)
at_position-mem (suc n) r (s ∷ running) = ground (arith, at_position-mem n s running)

pub running-cases :
    (running : List StagePlan)
    → (running ≡ []) ⊎ ((r : StagePlan) × (rest : List StagePlan) × (running ≡ r ∷ rest))
running-cases [] = inl refl
running-cases (r ∷ rest) = inr (r, rest, refl)
