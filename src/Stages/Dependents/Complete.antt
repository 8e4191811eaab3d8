-- ===== src/Stages/Dependents/Complete.antt =====
-- The loop of `StageGraph.dependents_of` takes every transitive dependent.
use coinjoin_pipeline.Base.{
  ℕ, suc, ◌<◌, ◌≡◌, sym, ap, ◌∙◌, ◌⊎◌, inl, inr, String, Bool, true, false, List, [], ◌∷◌, arith,
  if◌then◌else◌, ◌∈◌, contains, IsDistinct, ==-refl, ◌==◌, mem-intersects, string_equality,
  contains-head, subst,
}
use coinjoin_pipeline.Stages.Defs.{StagePlan, plan_eq}
use coinjoin_pipeline.Stages.Graph.{names, dependents_from}
use coinjoin_pipeline.Stages.Order.{IsOrdered}
use coinjoin_pipeline.Stages.Dependents.Sound.{
  DependsOn, direct, through, dependents_from-cases, mem_cons, mem_tail, not-mem-nil,
}

true-ne-false : {b : Bool} → b ≡ false → b ≡ true → ⊥
true-ne-false p q = cc

mem-names : (s : StagePlan) (xs : List StagePlan) → s ∈ xs → s.name ∈ names xs
unfolding contains
mem-names s [] m = absurd (not-mem-nil s m)
mem-names s (x ∷ xs) m = ground (arith, mem-names s xs, plan_eq.equals_iff s x, ==-refl s.name)

-- Only stages of the list are taken.
names-dependents_from :
    (blocked : List String) (rest : List StagePlan) (d : String)
    → d ∈ names (dependents_from blocked rest)
    → d ∈ names rest
unfolding dependents_from contains
names-dependents_from blocked [] d m = m
names-dependents_from blocked (t ∷ rest) d m =
    ground
      (arith, names-dependents_from blocked rest d, names-dependents_from (t.name ∷ blocked) rest d)

-- No name of the stages to come has been seen.
abbrev IsFresh : List String → List StagePlan → Type 0
IsFresh seen rest = (d : String) → d ∈ seen → contains d (names rest) ≡ false

IsFresh-tail :
    (seen : List String) (t : StagePlan) (rest : List StagePlan)
    → IsDistinct (names (t ∷ rest))
    → IsFresh seen (t ∷ rest)
    → IsFresh (t.name ∷ seen) rest
unfolding contains
IsFresh-tail seen t rest distinct fresh d m =
    ground (arith, fresh d, string_equality.equals_iff d t.name)

closed_head :
    (blocked : List String) (t : StagePlan) (rest : List StagePlan) (d : String)
    → contains t.name blocked ≡ false
    → d ∈ t.dependencies
    → contains d (names (t ∷ rest)) ≡ false
    → (d ∈ blocked) ⊎ (d ∈ names (dependents_from blocked (t ∷ rest)))
    → t ∈ dependents_from blocked (t ∷ rest)
unfolding dependents_from
closed_head blocked t rest d fresh k unseen (inl p) =
    rw (fresh, mem-intersects d blocked t.dependencies p k) (contains-head t _)
closed_head blocked t rest d fresh k unseen (inr q) =
    absurd (true-ne-false unseen (names-dependents_from blocked (t ∷ rest) d q))

-- The blocked names after the head has been taken.
blocked_after :
    (t : StagePlan) (blocked : List String) (taken : List StagePlan) (d : String)
    → (d ∈ blocked) ⊎ (d ∈ names (t ∷ taken))
    → (d ∈ t.name ∷ blocked) ⊎ (d ∈ names taken)
unfolding contains
blocked_after t blocked taken d why = ground arith

fresh_after :
    (s t : StagePlan) (blocked : List String) (rest : List StagePlan)
    → s ∈ rest
    → contains t.name (names rest) ≡ false
    → contains s.name blocked ≡ false
    → contains s.name (t.name ∷ blocked) ≡ false
unfolding contains
fresh_after s t blocked rest m distinct open_ =
    ground (arith, mem-names s rest m, string_equality.equals_iff s.name t.name)

-- A stage is taken once one of its dependencies is blocked or is taken.
closed :
    (seen blocked : List String) (rest : List StagePlan) (s : StagePlan) (d : String)
    → IsOrdered seen rest
    → IsDistinct (names rest)
    → IsFresh seen rest
    → s ∈ rest
    → contains s.name blocked ≡ false
    → d ∈ s.dependencies
    → (d ∈ blocked) ⊎ (d ∈ names (dependents_from blocked rest))
    → s ∈ dependents_from blocked rest
closed seen blocked [] s d h distinct fresh m open_ k why = absurd (not-mem-nil s m)
closed seen blocked (t ∷ rest) s d h distinct fresh m open_ k why = elim (mem_cons rest m) [
  | inl e ↦
      subst (λ (p : StagePlan). p ∈ dependents_from blocked (t ∷ rest)) (sym e)
        (closed_head blocked t rest d
          (subst (λ (p : StagePlan). contains p.name blocked ≡ false) e open_)
          (subst (λ (p : StagePlan). d ∈ p.dependencies) e k)
          (fresh d (h.0 d (subst (λ (p : StagePlan). d ∈ p.dependencies) e k))) why)
  | inr later ↦ elim (dependents_from-cases blocked t rest) [
    | inl (_, same) ↦
        ap (contains s) same
        ∙ closed (t.name ∷ seen) blocked rest s d h.1 distinct.1
            (IsFresh-tail seen t rest distinct fresh) later open_ k
            (subst (λ l. (d ∈ blocked) ⊎ (d ∈ names l)) same why)
    | inr (_, _, same) ↦
        ap (contains s) same
        ∙ mem_tail s t (dependents_from (t.name ∷ blocked) rest) (
            closed (t.name ∷ seen) (t.name ∷ blocked) rest s d h.1 distinct.1
              (IsFresh-tail seen t rest distinct fresh) later
              (fresh_after s t blocked rest later distinct.0 open_) k
              (blocked_after t blocked (dependents_from (t.name ∷ blocked) rest) d
                (subst (λ l. (d ∈ blocked) ⊎ (d ∈ names l)) same why)))
  ]
]

-- The place of a stage in the order.
index_of : String → List StagePlan → ℕ
index_of d [] = 0
index_of d (t ∷ rest) = let later = suc (index_of d rest) in if t.name == d then 0 else later

IsOrdered-index :
    (seen : List String) (rest : List StagePlan) (s : StagePlan) (d : String)
    → IsOrdered seen rest
    → IsDistinct (names rest)
    → s ∈ rest
    → d ∈ s.dependencies
    → (d ∈ seen) ⊎ (index_of d rest < index_of s.name rest)
unfolding index_of contains
IsOrdered-index seen [] s d h distinct m k = absurd (not-mem-nil s m)
IsOrdered-index seen (t ∷ rest) s d h distinct m k = elim (mem_cons rest m) [
  | inl e ↦ inl (h.0 d (subst (λ (p : StagePlan). d ∈ p.dependencies) e k))
  | inr later ↦ ground (
    arith,
    IsOrdered-index (t.name ∷ seen) rest s d h.1 distinct.1 later k,
    string_equality.equals_iff d t.name,
    string_equality.equals_iff t.name d,
    string_equality.equals_iff t.name s.name,
    mem-names s rest later,
  )
]

below : (d : String) {m n : ℕ} → (d ∈ []) ⊎ (m < n) → m < n
unfolding contains
below d h = ground arith

module _ (order : List StagePlan) (name : String) (h : IsOrdered [] order)
    (distinct : IsDistinct (names order)) where
  index-DependsOn :
      (s : StagePlan) → DependsOn order name s → index_of name order < index_of s.name order
  index-DependsOn s (direct _ m k) = below name (IsOrdered-index [] order s name h distinct m k)
  index-DependsOn s (through t _ r m k) =
      omega (
        arith,
        below t.name (IsOrdered-index [] order s t.name h distinct m k),
        index-DependsOn t r,
      )

  other_name : (s : StagePlan) → DependsOn order name s → contains s.name (name ∷ []) ≡ false
  unfolding contains
  other_name s r = ground (
    arith,
    string_equality.equals_iff s.name name,
    index-DependsOn s r,
    λ (e : s.name ≡ name). ap (λ d. index_of d order) e,
  )

  pub dependents_from_complete :
      (s : StagePlan) → DependsOn order name s → s ∈ dependents_from (name ∷ []) order
  dependents_from_complete s (direct _ m k) =
      closed [] (name ∷ []) order s name h distinct (λ d x. unfold contains in cc) m
        (other_name s (direct s m k)) k (inl (contains-head name []))
  dependents_from_complete s (through t _ r m k) =
      closed [] (name ∷ []) order s t.name h distinct (λ d x. unfold contains in cc) m
        (other_name s (through t s r m k)) k (inr (mem-names t _ (dependents_from_complete t r)))
