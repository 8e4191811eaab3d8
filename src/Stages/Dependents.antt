-- ===== src/Stages/Dependents.antt =====
-- `StageGraph.dependents_of`: the transitive dependents of a stage, and no other stage.
mod Sound
mod Complete
pub use Sound.{DependsOn, direct, through}
use Sound.{dependents_from_sound, Blocked}
use Complete.{dependents_from_complete}
use mathlib.Core.List.Perm
use mathlib.Core.List.{Perm}
use coinjoin_pipeline.Base.{
  ◌≡◌, refl, sym, ◌∙◌, ◌⊎◌, inl, inr, ◌↔◌, String, List, [], ◌∷◌, arith, ◌∈◌, contains, map,
  IsDistinct, IsDistinct-perm, contains-perm, string_equality, subst,
}
use coinjoin_pipeline.Stages.Defs.{StagePlan, plan_eq}
use coinjoin_pipeline.Stages.Graph.{
  GraphResult, ok, err, names, dependents_from, dependents_of, ordered,
}
use coinjoin_pipeline.Stages.Order.{ordered-IsOrdered, ordered-perm, ordered-IsDistinct}

DependsOn-perm :
    {xs ys : List StagePlan} {name : String} (same : Perm xs ys) (s : StagePlan)
    → DependsOn xs name s
    → DependsOn ys name s
DependsOn-perm same s (direct _ m k) = direct s (sym (contains-perm s same) ∙ m) k
DependsOn-perm same s (through t _ r m k) =
    through t s (DependsOn-perm same t r) (sym (contains-perm s same) ∙ m) k

singleton : (name d : String) (stages : List StagePlan) → d ∈ name ∷ [] → Blocked stages name d
unfolding contains
singleton name d stages m = inl (ground (arith, string_equality.equals_iff d name))

-- In a graph that was accepted, `dependents_of` returns exactly the stages that wait for `name`
-- directly or through other stages.
pub dependents_of_iff :
    (stages out : List StagePlan) (name : String)
    → ordered stages ≡ ok out
    → (found : List StagePlan) × (dependents_of stages name ≡ ok found)
      × ((s : StagePlan) → (s ∈ found) ↔ DependsOn stages name s)
unfolding dependents_of
dependents_of_iff stages out name e = (
  dependents_from (name ∷ []) out,
  rw (e, dependents_of),
  λ s. (
    λ m. DependsOn-perm same s (
        dependents_from_sound out name (name ∷ []) out s (λ d k. singleton name d out k) (λ t k. k)
          m),
    λ r.
        dependents_from_complete out name (ordered-IsOrdered stages out e) distinct s
          (DependsOn-perm (Perm.symm same) s r),
  ),
)
  where
    same : Perm out stages
    same = ordered-perm stages out e

    distinct : IsDistinct (names out)
    distinct =
        IsDistinct-perm (Perm.map (λ (p : StagePlan). p.name) (Perm.symm same))
          (ordered-IsDistinct stages out e)
