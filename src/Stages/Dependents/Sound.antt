-- ===== src/Stages/Dependents/Sound.antt =====
-- The loop of `StageGraph.dependents_of` takes transitive dependents only.
use coinjoin_pipeline.Base.{
  ◌≡◌, sym, ap, ◌∙◌, ◌⊎◌, inl, inr, String, true, false, List, [], ◌∷◌, arith, ◌∈◌, contains,
  Bool-cases, intersects, intersects-mem, string_equality, contains-head, subst,
}
use coinjoin_pipeline.Stages.Defs.{StagePlan, plan_eq}
use coinjoin_pipeline.Stages.Graph.{dependents_from}

-- `s` waits, through any number of stages, for the stage called `name`.
pub data DependsOn (stages : List StagePlan) (name : String) : StagePlan → Type 0 where
  direct : (s : StagePlan) → s ∈ stages → name ∈ s.dependencies → DependsOn stages name s
  through :
      (t s : StagePlan)
      → DependsOn stages name t
      → s ∈ stages
      → t.name ∈ s.dependencies
      → DependsOn stages name s

-- What `blocked` may hold: the failed stage and its dependents.
abbrev pub Blocked : List StagePlan → String → String → Type 0
Blocked stages name d = (d ≡ name) ⊎ ((t : StagePlan) × (t.name ≡ d) × DependsOn stages name t)

blocks :
    (stages : List StagePlan) (name d : String) (s : StagePlan)
    → s ∈ stages
    → d ∈ s.dependencies
    → Blocked stages name d
    → DependsOn stages name s
blocks stages name d s m k (inl e) = direct s m (rw (← e) k)
blocks stages name d s m k (inr (t, e, h)) = through t s h m (rw e k)

pub not-mem-nil : (s : StagePlan) → s ∈ [] → ⊥
unfolding contains
not-mem-nil s m = cc

-- One round of the loop: the stage is passed over, or it is taken and blocks others.
abbrev pub Skips : List String → StagePlan → List StagePlan → Type 0
Skips blocked t rest =
    ((contains t.name blocked ≡ true) ⊎ (intersects blocked t.dependencies ≡ false))
    × (dependents_from blocked (t ∷ rest) ≡ dependents_from blocked rest)

abbrev pub Takes : List String → StagePlan → List StagePlan → Type 0
Takes blocked t rest =
    (contains t.name blocked ≡ false)
    × (intersects blocked t.dependencies ≡ true)
    × (dependents_from blocked (t ∷ rest) ≡ t ∷ dependents_from (t.name ∷ blocked) rest)

pub dependents_from-cases :
    (blocked : List String) (t : StagePlan) (rest : List StagePlan)
    → Skips blocked t rest ⊎ Takes blocked t rest
unfolding dependents_from
dependents_from-cases blocked t rest = elim (Bool-cases (contains t.name blocked)) [
  | inl skip ↦ inl (inl skip, rw skip)
  | inr fresh ↦ elim (Bool-cases (intersects blocked t.dependencies)) [
    | inl hit ↦ inr (fresh, hit, rw (fresh, hit))
    | inr miss ↦ inl (inr miss, rw (fresh, miss))
  ]
]

pub mem_cons : {x y : StagePlan} (ys : List StagePlan) → x ∈ y ∷ ys → (x ≡ y) ⊎ (x ∈ ys)
unfolding contains
mem_cons {x} {y} ys m = ground (arith, plan_eq.equals_iff x y)

pub mem_tail : (x y : StagePlan) (ys : List StagePlan) → x ∈ ys → x ∈ y ∷ ys
unfolding contains
mem_tail x y ys m = ground arith

pub name_cons : {x y : String} (ys : List String) → x ∈ y ∷ ys → (x ≡ y) ⊎ (x ∈ ys)
unfolding contains
name_cons {x} {y} ys m = ground (arith, string_equality.equals_iff x y)

module _ (stages : List StagePlan) (name : String) where
  known_cons :
      (t : StagePlan) (blocked : List String)
      → DependsOn stages name t
      → ((d : String) → d ∈ blocked → Blocked stages name d)
      → (d : String) → (d ≡ t.name) ⊎ (d ∈ blocked)
      → Blocked stages name d
  known_cons t blocked h known d (inl e) = inr (t, sym e, h)
  known_cons t blocked h known d (inr m) = known d m

  pub dependents_from_sound :
      (blocked : List String) (rest : List StagePlan) (s : StagePlan)
      → ((d : String) → d ∈ blocked → Blocked stages name d)
      → ((t : StagePlan) → t ∈ rest → t ∈ stages)
      → s ∈ dependents_from blocked rest
      → DependsOn stages name s
  unfolding dependents_from
  dependents_from_sound blocked [] s known sub m = absurd (not-mem-nil s m)
  dependents_from_sound blocked (t ∷ rest) s known sub m =
      elim (dependents_from-cases blocked t rest) [
        | inl (why, same) ↦
            dependents_from_sound blocked rest s known (λ u k. sub u (mem_tail u t rest k))
              (sym (ap (contains s) same) ∙ m)
        | inr (fresh, hit, same) ↦
            let (d, p, q) = intersects-mem blocked t.dependencies hit in
            let h : DependsOn stages name t =
              blocks stages name d t (sub t (contains-head t rest)) q (known d p) in
            elim (mem_cons (dependents_from (t.name ∷ blocked) rest)
              (sym (ap (contains s) same) ∙ m)) [
                | inl e ↦ subst (DependsOn stages name) (sym e) h
                | inr k ↦
                    dependents_from_sound (t.name ∷ blocked) rest s
                      (λ c w. known_cons t blocked h known c (name_cons blocked w))
                      (λ u v. sub u (mem_tail u t rest v)) k
              ]
      ]
