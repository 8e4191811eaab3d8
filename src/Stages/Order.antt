-- ===== src/Stages/Order.antt =====
-- `StageGraph.ordered`: what the order it returns satisfies, and when it returns one.
mod Loop
pub use Loop.{IsOrdered, first_ready-mem, ready_exists, not-mem-nil}
use Loop.{place-perm, place-IsOrdered, place_total}
use mathlib.Core.List.Perm
use mathlib.Core.List.{Perm, append_assoc, append-nil}
use coinjoin_pipeline.Base.{
  ℕ, zero, suc, ◌≤◌, ◌≡◌, refl, sym, ap, ◌∙◌, ◌≢◌, ◌⊎◌, inl, inr, ◌↔◌, String, Bool, true, false,
  List, [], ◌∷◌, ◌++◌, map, Option, none, some, arith, if◌then◌else◌, ◌∈◌, contains, subset, to_set,
  remove, length, length-append, IsDistinct, Bool-cases, Option-cases, ==-refl, remove-perm,
  length-remove, subset-mem, mem-subset, contains-append, contains-head, contains-perm,
  mem_of_remove, mem-remove, ==→≡, string_equality, nat_beq, nat_beq_iff, IsDistinct-of_length,
  length-to_set, contains-to_set, ◌==◌, subst,
}
use coinjoin_pipeline.Stages.Defs.{StagePlan, plan_eq}
use coinjoin_pipeline.Stages.Graph.{
  GraphResult, ok, err, GraphError, names, is_ready, first_ready, place, any_absent, ordered,
}

pub any_absent-eq_false :
    (known : List String) (stages : List StagePlan)
    → ((s : StagePlan) → s ∈ stages → (d : String) → d ∈ s.dependencies → d ∈ known)
    → any_absent known stages ≡ false
unfolding any_absent contains
any_absent-eq_false known [] h = refl
any_absent-eq_false known (s ∷ stages) h =
    rw (mem-subset s.dependencies known (h s (contains-head s stages)))
      (any_absent-eq_false known stages (λ t m. h t (ground arith)))

-- In an order every dependency is the name of a stage.
pub IsOrdered-known :
    (seen : List String) (q : List StagePlan) (s : StagePlan) (d : String)
    → IsOrdered seen q
    → s ∈ q
    → d ∈ s.dependencies
    → (d ∈ seen) ⊎ (d ∈ names q)
unfolding contains
IsOrdered-known seen [] s d h m k = cc
IsOrdered-known seen (t ∷ q) s d h m k =
    ground (arith, h.0 d, plan_eq.equals_iff s t, IsOrdered-known (t.name ∷ seen) q s d h.1)

pub from_right : (d : String) (xs : List String) → (d ∈ []) ⊎ (d ∈ xs) → d ∈ xs
unfolding contains
from_right d xs k = ground arith

pub length-names : (stages : List StagePlan) → length (names stages) ≡ length stages
length-names [] = refl
length-names (s ∷ stages) = ap suc (length-names stages)

-- The three tests that `ordered` has passed when it returns an order.
record Passed (stages out : List StagePlan) : Type 0 where
  sizes : length (to_set (names stages)) ≡ length stages
  present : any_absent (to_set (names stages)) stages ≡ false
  placed : place (length stages) stages [] [] ≡ ok out

passed : (stages out : List StagePlan) → ordered stages ≡ ok out → Passed stages out
unfolding ordered
passed stages out h = ground arith

pass : (stages out : List StagePlan) → Passed stages out → ordered stages ≡ ok out
unfolding ordered
pass stages out p = ground arith

pub ordered-IsDistinct :
    (stages out : List StagePlan) → ordered stages ≡ ok out → IsDistinct (names stages)
ordered-IsDistinct stages out h =
    IsDistinct-of_length (names stages) ((passed stages out h).sizes ∙ sym (length-names stages))

pub ordered-perm : (stages out : List StagePlan) → ordered stages ≡ ok out → Perm out stages
ordered-perm stages out h = place-perm (length stages) stages [] [] out (passed stages out h).placed

pub ordered-IsOrdered : (stages out : List StagePlan) → ordered stages ≡ ok out → IsOrdered [] out
ordered-IsOrdered stages out h =
    place-IsOrdered (length stages) stages [] [] out (λ d. refl) tt (passed stages out h).placed

pub ordered_total :
    (stages q : List StagePlan)
    → IsDistinct (names stages)
    → Perm q stages
    → IsOrdered [] q
    → (out : List StagePlan) × (ordered stages ≡ ok out)
ordered_total stages q distinct same h =
    let known : (d : String) → (d ∈ []) ⊎ (d ∈ names q) → d ∈ to_set (names stages) = λ d k.
      contains-to_set d (names stages)
      ∙ (sym (contains-perm d (Perm.map (λ (p : StagePlan). p.name) same))
          ∙ from_right d (names q) k) in
    let (out, placed) =
      place_total (length stages) stages [] [] q (omega arith) h (λ p m. contains-perm p same ∙ m)
        (λ s m. inr (sym (contains-perm s same) ∙ m)) in
    (
      out,
      pass stages out (record {
        sizes = length-to_set (names stages) distinct ∙ length-names stages;
        present =
            any_absent-eq_false (to_set (names stages)) stages
              (λ s m d k. known d (IsOrdered-known [] q s d h (contains-perm s same ∙ m) k));
        placed = placed;
      }),
    )

-- `ordered` returns an order exactly when the names are distinct and some arrangement of the stages
-- puts each behind its dependencies.
pub ordered_iff :
    (stages : List StagePlan)
    → ((out : List StagePlan) × (ordered stages ≡ ok out))
      ↔ (IsDistinct (names stages) × ((q : List StagePlan) × Perm q stages × IsOrdered [] q))
ordered_iff stages = (
  λ (out, h). (
    ordered-IsDistinct stages out h,
    (out, ordered-perm stages out h, ordered-IsOrdered stages out h),
  ),
  λ (distinct, (q, same, h)). ordered_total stages q distinct same h,
)
