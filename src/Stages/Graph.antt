-- ===== src/Stages/Graph.antt =====
-- stages.py: `StageGraph`, a tuple of stages with the queries that its executors need. A graph is
-- its `stages`; the constructor runs `ordered`, so the queries below are of accepted graphs.
use coinjoin_pipeline.Base.{
  ℕ, zero, suc, String, Bool, false, not, ◌||◌, List, [], ◌∷◌, ◌++◌, map, Option, none, some,
  if◌then◌else◌, ◌==◌, string_equality, contains, subset, intersects, to_set, remove, length,
  nat_beq,
}
use coinjoin_pipeline.Stages.Defs.{StagePlan, RunnerName, runner_beq, plan_eq}

-- The three `ValueError`s.
pub data GraphError : Type 0 where
  duplicate_names absent_dependency cycle : GraphError

pub data GraphResult : Type 0 where
  ok : List StagePlan → GraphResult
  err : GraphError → GraphResult

abbrev pub names : List StagePlan → List String
names stages = map (λ s. s.name) stages

-- `set(stage.dependencies) <= completed`
abbrev pub is_ready : List String → StagePlan → Bool
is_ready completed stage = subset stage.dependencies completed

-- `next((stage for stage in pending if ...), None)`
unfoldable pub first_ready : List String → List StagePlan → Option StagePlan
first_ready completed [] = none
first_ready completed (s ∷ pending) =
    let rest = first_ready completed pending in if is_ready completed s then some s else rest

-- The `while pending` loop: each round removes one stage, so the number of stages bounds the rounds.
unfoldable pub place : ℕ → List StagePlan → List String → List StagePlan → GraphResult
place fuel [] completed placed = ok placed
place zero (s ∷ pending) completed placed = err cycle
place (suc fuel) (s ∷ pending) completed placed = elim (first_ready completed (s ∷ pending)) [
  | none ↦ err cycle
  | some ready ↦
      place fuel (remove ready (s ∷ pending)) (ready.name ∷ completed) (placed ++ ready ∷ [])
]

-- `any(set(stage.dependencies) - names for stage in self.stages)`
unfoldable pub any_absent : List String → List StagePlan → Bool
any_absent known [] = false
any_absent known (s ∷ stages) = not (subset s.dependencies known) || any_absent known stages

unfoldable pub ordered : List StagePlan → GraphResult
ordered stages =
    if not (nat_beq (length (to_set (names stages))) (length stages))
    then err duplicate_names
    else if any_absent (to_set (names stages)) stages
    then err absent_dependency
    else place (length stages) stages [] []

unfoldable pub get : String → List StagePlan → Option StagePlan
get name [] = none
get name (s ∷ stages) = let rest = get name stages in if s.name == name then some s else rest

-- The loop of `dependents_of` over the ordered stages.
unfoldable pub dependents_from : List String → List StagePlan → List StagePlan
dependents_from blocked [] = []
dependents_from blocked (s ∷ rest) =
    let skipped = dependents_from blocked rest in
    let taken = s ∷ dependents_from (s.name ∷ blocked) rest in
    if contains s.name blocked
    then skipped
    else if intersects blocked s.dependencies
    then taken
    else skipped

-- Every stage that cannot run once `name` has failed.
unfoldable pub dependents_of : List StagePlan → String → GraphResult
dependents_of stages name = elim (ordered stages) [
  | ok order ↦ ok (dependents_from (name ∷ []) order)
  | err e ↦ err e
]

-- The stages whose runner is "pbs", in wait order.
unfoldable pub on_scheduler : List StagePlan → List StagePlan
on_scheduler [] = []
on_scheduler (s ∷ stages) =
    let rest = on_scheduler stages in if runner_beq s.runner RunnerName.pbs then s ∷ rest else rest

unfoldable pub scheduled : List StagePlan → GraphResult
scheduled stages = elim (ordered stages) [ ok order ↦ ok (on_scheduler order) | err e ↦ err e ]

-- `jobs` maps stage names to job IDs.
unfoldable pub lookup_job : String → List (String × String) → Option String
lookup_job name [] = none
lookup_job name ((key, job) ∷ jobs) =
    let rest = lookup_job name jobs in if key == name then some job else rest

unfoldable pub job_ids : List (String × String) → List String → List String
job_ids jobs [] = []
job_ids jobs (d ∷ dependencies) =
    let rest = job_ids jobs dependencies in
    elim (lookup_job d jobs) [ none ↦ rest | some job ↦ job ∷ rest ]

unfoldable pub dependency_ids : List StagePlan → String → List (String × String) → List String
dependency_ids stages name jobs = elim (get name stages) [
  | none ↦ []
  | some stage ↦ job_ids jobs stage.dependencies
]
