-- ===== src/Stages/Order/Loop.antt =====
-- The `while pending` loop of `StageGraph.ordered`: what it returns, and that it returns.
use mathlib.Core.List.Perm
use mathlib.Core.List.{Perm, append_assoc, append-nil}
use coinjoin_pipeline.Base.{
  ℕ, zero, suc, ◌≤◌, ◌≡◌, refl, sym, ap, ◌∙◌, ◌≢◌, ◌⊎◌, inl, inr, String, true, List, [], ◌∷◌, ◌++◌,
  none, some, arith, ◌∈◌, contains, remove, length, Bool-cases, Option-cases, ==-refl, remove-perm,
  length-remove, subset-mem, mem-subset, contains-head, mem_of_remove, mem-remove, ==→≡,
  string_equality, subst,
}
use coinjoin_pipeline.Stages.Defs.{StagePlan, plan_eq}
use coinjoin_pipeline.Stages.Graph.{ok, err, GraphError, names, is_ready, first_ready, place}

-- Every stage depends only on `seen` and on the stages before it.
abbrev pub IsOrdered : List String → List StagePlan → Type 0
IsOrdered seen [] = Unit
IsOrdered seen (s ∷ stages) =
    ((d : String) → d ∈ s.dependencies → d ∈ seen) × IsOrdered (s.name ∷ seen) stages

pub first_ready-mem :
    (completed : List String) (pending : List StagePlan) (r : StagePlan)
    → first_ready completed pending ≡ some r
    → (r ∈ pending) × (is_ready completed r ≡ true)
unfolding first_ready contains
first_ready-mem completed [] r h = cc
first_ready-mem completed (s ∷ pending) r h =
    ground (arith, first_ready-mem completed pending r, ==-refl s, plan_eq.equals_iff r s)

first_ready_total :
    (completed : List String) (pending : List StagePlan) (p : StagePlan)
    → p ∈ pending
    → is_ready completed p ≡ true
    → first_ready completed pending ≢ none
unfolding first_ready contains
first_ready_total completed [] p m h = cc
first_ready_total completed (s ∷ pending) p m h =
    ground (arith, first_ready_total completed pending p, plan_eq.equals_iff p s)

ok-injective : {a b : List StagePlan} → ok a ≡ ok b → a ≡ b
ok-injective h = cc

module _ (fuel : ℕ) (s : StagePlan) (pending : List StagePlan) (completed : List String)
    (placed : List StagePlan) where
  place-step :
      (r : StagePlan)
      → first_ready completed (s ∷ pending) ≡ some r
      → place (suc fuel) (s ∷ pending) completed placed
        ≡ place fuel (remove r (s ∷ pending)) (r.name ∷ completed) (placed ++ r ∷ [])
  unfolding place
  place-step r e = rw (e, place)

  place_stuck :
      first_ready completed (s ∷ pending) ≡ none
      → place (suc fuel) (s ∷ pending) completed placed ≡ err GraphError.cycle
  unfolding place
  place_stuck e = rw (e, place)

-- The loop's result holds what was placed and what was pending.
pub place-perm :
    (fuel : ℕ) (pending : List StagePlan) (completed : List String) (placed out : List StagePlan)
    → place fuel pending completed placed ≡ ok out
    → Perm out (placed ++ pending)
unfolding place
place-perm fuel [] completed placed out h =
    rw append-nil (subst (λ l. Perm l placed) (ok-injective h) Perm.rfl)
place-perm zero (s ∷ pending) completed placed out h = cc
place-perm (suc fuel) (s ∷ pending) completed placed out h =
    elim (Option-cases (first_ready completed (s ∷ pending))) [
      | inl stuck ↦ cc (place_stuck fuel s pending completed placed stuck)
      | inr (r, e) ↦
          Perm.trans
            (place-perm fuel _ _ _ out (sym (place-step fuel s pending completed placed r e) ∙ h))
            (rw append_assoc (
              Perm.append_left placed
                (remove-perm r (s ∷ pending) (first_ready-mem completed (s ∷ pending) r e).0)))
    ]

IsOrdered-snoc :
    (seen : List String) (xs : List StagePlan) (r : StagePlan)
    → IsOrdered seen xs
    → ((d : String) → d ∈ r.dependencies → (d ∈ seen) ⊎ (d ∈ names xs))
    → IsOrdered seen (xs ++ r ∷ [])
unfolding contains
IsOrdered-snoc seen [] r h deps = (λ d m. ground (arith, deps d m), tt)
IsOrdered-snoc seen (x ∷ xs) r h deps =
    (h.0, IsOrdered-snoc (x.name ∷ seen) xs r h.1 (λ d m. ground (arith, deps d m)))

names-snoc :
    (d : String) (xs : List StagePlan) (r : StagePlan)
    → contains d (names (xs ++ r ∷ [])) ≡ contains d (r.name ∷ names xs)
unfolding contains
names-snoc d [] r = refl
names-snoc d (x ∷ xs) r = ground (arith, names-snoc d xs r)

same-snoc :
    (d : String) (completed : List String) (placed : List StagePlan) (r : StagePlan)
    → contains d completed ≡ contains d (names placed)
    → contains d (r.name ∷ completed) ≡ contains d (names (placed ++ r ∷ []))
unfolding contains
same-snoc d completed placed r same = rw (names-snoc d placed r) (unfold contains in cc)

pub place-IsOrdered :
    (fuel : ℕ) (pending : List StagePlan) (completed : List String) (placed out : List StagePlan)
    → ((d : String) → contains d completed ≡ contains d (names placed))
    → IsOrdered [] placed
    → place fuel pending completed placed ≡ ok out
    → IsOrdered [] out
unfolding place
place-IsOrdered fuel [] completed placed out same h e = subst (IsOrdered []) (ok-injective e) h
place-IsOrdered zero (s ∷ pending) completed placed out same h e = cc
place-IsOrdered (suc fuel) (s ∷ pending) completed placed out same h e =
    elim (Option-cases (first_ready completed (s ∷ pending))) [
      | inl stuck ↦ ground (arith, place_stuck fuel s pending completed placed stuck)
      | inr (r, f) ↦
          place-IsOrdered fuel _ (r.name ∷ completed) (placed ++ r ∷ []) out
            (λ d. same-snoc d completed placed r (same d))
            (IsOrdered-snoc [] placed r h (λ d m. inr (
              sym (same d)
              ∙ subset-mem r.dependencies completed d
                  (first_ready-mem completed (s ∷ pending) r f).1 m)))
            (sym (place-step fuel s pending completed placed r f) ∙ e)
    ]

-- Some pending stage is ready, if the pending stages are part of a sequence `rest` in which each
-- stage stands behind its dependencies.
pub ready_exists :
    (seen completed : List String) (pending rest : List StagePlan) (p : StagePlan)
    → ((d : String) → d ∈ seen → d ∈ completed)
    → IsOrdered seen rest
    → ((s : StagePlan) → s ∈ rest → (s.name ∈ completed) ⊎ (s ∈ pending))
    → p ∈ rest
    → p ∈ pending
    → first_ready completed pending ≢ none
unfolding contains
ready_exists seen completed pending [] p known h split m n = cc
ready_exists seen completed pending (s ∷ rest) p known h split m n =
    elim (Bool-cases (contains s pending)) [
      | inl waits ↦
          first_ready_total completed pending s waits
            (mem-subset s.dependencies completed (λ d dep. known d (h.0 d dep)))
      | inr done ↦
          ready_exists (s.name ∷ seen) completed pending rest p
            (λ d k.
              ground (
                arith,
                known d,
                string_equality.equals_iff d s.name,
                split s (contains-head s rest),
              ))
            h.1 (λ t k. split t (ground arith)) (ground (arith, plan_eq.equals_iff p s)) n
    ]

pub not-mem-nil : (d : String) (completed : List String) → d ∈ [] → d ∈ completed
unfolding contains
not-mem-nil d completed k = cc

still_split :
    (completed : List String) (pending : List StagePlan) (r t : StagePlan)
    → (t.name ∈ completed) ⊎ (t ∈ pending)
    → (t.name ∈ r.name ∷ completed) ⊎ (t ∈ remove r pending)
unfolding contains
still_split completed pending r t (inl done) = inl (ground arith)
still_split completed pending r t (inr waits) = elim (mem-remove t r pending waits) [
  | inl same ↦ inl (ground (arith, ap (λ (p : StagePlan). p.name) (==→≡ t r same), ==-refl r.name))
  | inr left ↦ inr left
]

-- With fuel for every pending stage the loop ends with an order, if the stages have one.
pub place_total :
    (fuel : ℕ) (pending : List StagePlan) (completed : List String) (placed q : List StagePlan)
    → length pending ≤ fuel
    → IsOrdered [] q
    → ((p : StagePlan) → p ∈ pending → p ∈ q)
    → ((s : StagePlan) → s ∈ q → (s.name ∈ completed) ⊎ (s ∈ pending))
    → (out : List StagePlan) × (place fuel pending completed placed ≡ ok out)
unfolding place
place_total fuel [] completed placed q enough h sub split = (placed, refl)
place_total zero (s ∷ pending) completed placed q enough h sub split = absurd (omega arith)
place_total (suc fuel) (s ∷ pending) completed placed q enough h sub split =
    elim (Option-cases (first_ready completed (s ∷ pending))) [
      | inl stuck ↦ absurd (
          ready_exists [] completed (s ∷ pending) q s (λ d k. not-mem-nil d completed k) h split
            (sub s (contains-head s pending)) (contains-head s pending) stuck)
      | inr (r, f) ↦
          let (out, done) =
            place_total fuel (remove r (s ∷ pending)) (r.name ∷ completed) (placed ++ r ∷ []) q
              (omega (
                arith,
                length-remove r (s ∷ pending) (first_ready-mem completed (s ∷ pending) r f).0,
              ))
              h (λ p m. sub p (mem_of_remove p r (s ∷ pending) m))
              (λ t m. still_split completed (s ∷ pending) r t (split t m)) in
          (out, place-step fuel s pending completed placed r f ∙ done)
    ]
