-- ===== src/Stages/Stable.antt =====
-- `StageGraph.ordered` on stages that are listed in a valid order: it keeps the list as it is.
use mathlib.Core.List.{append_assoc, append-nil}
use coinjoin_pipeline.Base.{
  ◌≡◌, ◌∙◌, String, List, [], ◌∷◌, ◌++◌, arith, false, length, remove, IsDistinct, ==-refl,
  mem-subset, length-to_set, contains-to_set, to_set, string_equality,
}
use coinjoin_pipeline.Stages.Defs.{StagePlan, plan_eq}
use coinjoin_pipeline.Stages.Graph.{ok, names, first_ready, place, any_absent, ordered}
use coinjoin_pipeline.Stages.Order.{
  IsOrdered, length-names, any_absent-eq_false, IsOrdered-known, from_right,
}

place_stable :
    (pending : List StagePlan) (completed : List String) (placed : List StagePlan)
    → IsOrdered completed pending
    → place (length pending) pending completed placed ≡ ok (placed ++ pending)
unfolding place first_ready remove
place_stable [] completed placed h = rw append-nil
place_stable (s ∷ pending) completed placed h =
    rw (mem-subset s.dependencies completed h.0, place)
      (rw (==-refl s)
        (place_stable pending (s.name ∷ completed) (placed ++ s ∷ []) h.1 ∙ rw append_assoc))

-- Stages that are listed behind their dependencies, under distinct names, are ordered as listed.
pub ordered_stable :
    (stages : List StagePlan)
    → IsDistinct (names stages)
    → IsOrdered [] stages
    → ordered stages ≡ ok stages
unfolding ordered
ordered_stable stages distinct h =
    let sizes : length (to_set (names stages)) ≡ length stages =
      length-to_set (names stages) distinct ∙ length-names stages in
    let present : any_absent (to_set (names stages)) stages ≡ false =
      any_absent-eq_false (to_set (names stages)) stages (λ s m d k.
        contains-to_set d (names stages)
        ∙ from_right d (names stages) (IsOrdered-known [] stages s d h m k)) in
    ground (arith, sizes, present, place_stable stages [] [] h)
