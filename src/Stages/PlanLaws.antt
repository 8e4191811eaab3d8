-- ===== src/Stages/PlanLaws.antt =====
-- What the plans guarantee, for every configuration. A test of all of them is run once and carried
-- over to each.
use coinjoin_pipeline.Base.{
  ◌≡◌, refl, ap, Bool, true, false, not, ◌&&◌, ◌||◌, List, [], ◌∷◌, ◌==◌, list_eq, list_beq,
  list_beq_iff, to_set, contains, subset, remove, intersects, if◌then◌else◌, ◌∈◌, arith,
  string_equality,
}
use coinjoin_pipeline.Stages.Defs.{StagePlan, StageKind, plan_eq, plan_beq, kind_beq, kind_beq_iff}
use coinjoin_pipeline.Stages.Graph.{
  GraphResult, ok, err, ordered, any_absent, place, first_ready, dependents_from, dependents_of,
  names,
}
use coinjoin_pipeline.Stages.Plans.{is_detect, analysis_plan, runs_unified_report}
use coinjoin_pipeline.Stages.Configs.{PlanConfig, plan_of, all_configs, all_configs_sound}

returns : GraphResult → List StagePlan → Bool
returns (ok out) expected = out == expected
returns (err e) expected = false

returns_sound :
    (r : GraphResult) (expected : List StagePlan) → returns r expected ≡ true → r ≡ ok expected
unfolding returns
returns_sound (ok out) expected h = ap ok ((list_beq_iff out expected).0 h)
returns_sound (err e) expected h = cc

-- What a run of the graph's code computes through.
graph_code : Unit {0}
unfolding ordered any_absent place first_ready dependents_from dependents_of to_set contains subset
    remove intersects list_beq plan_beq returns plan_of analysis_plan
graph_code = tt

-- Which stages cannot run once a stage of some kind has failed: all of them after the emulation,
-- the mappings and the report after the baseline, the work and the report after a parse, and the
-- report after the work and the mappings. The analyzers do not block one another.
unfoldable pub blocks_kind : StageKind → StageKind → Bool
blocks_kind StageKind.emulation k = not (kind_beq k StageKind.emulation)
blocks_kind StageKind.baseline k = kind_beq k StageKind.mappings || kind_beq k StageKind.report
blocks_kind StageKind.blocksci_parse k =
    kind_beq k StageKind.blocksci_work || kind_beq k StageKind.report
blocks_kind StageKind.blocksci_work k = kind_beq k StageKind.report
blocks_kind StageKind.mappings k = kind_beq k StageKind.report
blocks_kind StageKind.blocksci_update k = false
blocks_kind StageKind.report k = false

-- The stages that a test of their kind picks, in the order of the plan.
unfoldable pub of_kind : (StageKind → Bool) → List StagePlan → List StagePlan
of_kind p [] = []
of_kind p (s ∷ stages) = let rest = of_kind p stages in if p s.kind then s ∷ rest else rest

unfoldable pub is_analyzer : StageKind → Bool
is_analyzer k =
    kind_beq k StageKind.baseline
    || kind_beq k StageKind.blocksci_work
    || kind_beq k StageKind.mappings

ordered_as_listed : all_configs (λ c. returns (ordered (plan_of c)) (plan_of c)) ≡ true
unfolding all_configs graph_code
ordered_as_listed = refl

-- The full-run plan is accepted for every configuration, and its order is the order it lists.
pub plan_of-ordered : (c : PlanConfig) → ordered (plan_of c) ≡ ok (plan_of c)
plan_of-ordered c = returns_sound _ _ (all_configs_sound _ ordered_as_listed c)

all_stages : (StagePlan → Bool) → List StagePlan → Bool
all_stages p [] = true
all_stages p (s ∷ stages) = p s && all_stages p stages

all_stages_sound :
    (p : StagePlan → Bool) (stages : List StagePlan) (s : StagePlan)
    → all_stages p stages ≡ true
    → s ∈ stages
    → p s ≡ true
unfolding all_stages contains
all_stages_sound p [] s h m = cc
all_stages_sound p (t ∷ stages) s h m =
    ground (arith, plan_eq.equals_iff s t, all_stages_sound p stages s, λ (e : s ≡ t). ap p e)

settled : (b r : Bool) → b ≡ true → (not b || r) ≡ true → r ≡ true
settled b r p q = ground arith

abbrev blocks_as_listed : List StagePlan → StagePlan → Bool
blocks_as_listed plan s = returns (dependents_of plan s.name) (of_kind (blocks_kind s.kind) plan)

dependents_as_listed :
    all_configs (λ c. all_stages (blocks_as_listed (plan_of c)) (plan_of c)) ≡ true
unfolding all_configs graph_code all_stages of_kind blocks_kind
dependents_as_listed = refl

-- In every full-run plan the stages blocked by a stage are those of the kinds that its kind blocks.
pub dependents_of-plan_of :
    (c : PlanConfig) (s : StagePlan)
    → s ∈ plan_of c
    → dependents_of (plan_of c) s.name ≡ ok (of_kind (blocks_kind s.kind) (plan_of c))
dependents_of-plan_of c s m = returns_sound _ _ (
    all_stages_sound (blocks_as_listed (plan_of c)) (plan_of c) s
      (all_configs_sound _ dependents_as_listed c) m)

abbrev waits_for_analyzers : List StagePlan → StagePlan → Bool
waits_for_analyzers plan s =
    not (kind_beq s.kind StageKind.report) || s.dependencies == names (of_kind is_analyzer plan)

report_as_listed :
    all_configs (λ c. all_stages (waits_for_analyzers (plan_of c)) (plan_of c)) ≡ true
unfolding all_configs graph_code all_stages of_kind is_analyzer
report_as_listed = refl

-- The report of a full-run plan waits for every analyzer in the plan, and for nothing else.
pub report-dependencies :
    (c : PlanConfig) (s : StagePlan)
    → s ∈ plan_of c
    → s.kind ≡ StageKind.report
    → s.dependencies ≡ names (of_kind is_analyzer (plan_of c))
report-dependencies c s m e = (list_beq_iff _ _).0 (
    settled (kind_beq s.kind StageKind.report) _ ((kind_beq_iff s.kind StageKind.report).1 e) (
      all_stages_sound (waits_for_analyzers (plan_of c)) (plan_of c) s
        (all_configs_sound _ report_as_listed c) m))

-- Whether a plan has a stage of the kind.
unfoldable pub has_kind : StageKind → List StagePlan → Bool
has_kind k [] = false
has_kind k (s ∷ stages) = kind_beq s.kind k || has_kind k stages

unfoldable pub bool_eq : Bool → Bool → Bool
bool_eq true b = b
bool_eq false b = not b

pub bool_eq_sound : (a b : Bool) → bool_eq a b ≡ true → a ≡ b
unfolding bool_eq
bool_eq_sound a b h = ground arith

report_present :
    all_configs (λ c.
      bool_eq
        (has_kind StageKind.report (plan_of c))
        (c.unified_report && c.blocksci_pbs && is_detect c.task))
    ≡ true
unfolding all_configs graph_code has_kind bool_eq
report_present = refl

baseline_present :
    all_configs (λ c. bool_eq (has_kind StageKind.baseline (plan_of c)) c.analysis_pbs) ≡ true
unfolding all_configs graph_code has_kind bool_eq
baseline_present = refl

-- With the `unified_report` that a full-run computes, a plan has a report exactly when it runs
-- detection and computes a baseline to compare it with; then it has the baseline stage too.
pub full_run_report :
    (c : PlanConfig)
    → c.unified_report ≡ runs_unified_report "full-run" c.analysis_pbs c.blocksci_pbs c.task
    → (has_kind StageKind.report (plan_of c)
        ≡ (c.analysis_pbs && c.blocksci_pbs && is_detect c.task))
      × (has_kind StageKind.report (plan_of c) ≡ true
          → has_kind StageKind.baseline (plan_of c) ≡ true)
unfolding runs_unified_report
full_run_report c e = ground (
  arith,
  bool_eq_sound _ _ (all_configs_sound _ report_present c),
  bool_eq_sound _ _ (all_configs_sound _ baseline_present c),
)
