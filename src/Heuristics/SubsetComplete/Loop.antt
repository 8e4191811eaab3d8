-- ===== src/Heuristics/SubsetComplete/Loop.antt =====
-- The `for` loop of the search: when it answers False, no bucket could take the value.
use mathlib.Core.List.{append_assoc, append-nil}
use coinjoin_pipeline.Base.{
  ℕ, ◌+◌, ◌-◌, ◌≡◌, sym, ap, ◌∙◌, List, [], ◌∷◌, ◌++◌, arith, subst, inl, inr, true, false, sum,
  sum-append,
}
use coinjoin_pipeline.Heuristics.Subset.{
  Verdict, Outcome, Bucket, need, try_buckets, is_false, first_try, next_bucket, try_buckets-cases,
}
use coinjoin_pipeline.Heuristics.Partition.{Partition}
use coinjoin_pipeline.Heuristics.Needs.{needs, map-append}

is_impossible : (v : Verdict) → is_false v ≡ true → v ≡ Verdict.impossible
is_impossible v h = ground arith

not_found : (v : Verdict) → is_false v ≡ false → v ≡ Verdict.impossible → ⊥
not_found v f e = ground arith

-- A bucket of the loop, and the buckets with the value in it.
abbrev pub Choice : List Bucket → ℕ → List Bucket → Bucket → List Bucket → List ℕ → Type 0
Choice before value xs b ys values =
    Partition values (needs ((before ++ xs) ++ next_bucket value b ∷ ys))

sum-needs-middle :
    (before : List Bucket) (b : Bucket) (after : List Bucket)
    → sum (needs (before ++ b ∷ after)) ≡ sum (needs before) + need b + sum (needs after)
sum-needs-middle before b after =
    rw (map-append before (b ∷ after))
      (omega (arith, sum-append (needs before) (needs (b ∷ after))))

sum-needs-next :
    (before : List Bucket) (b : Bucket) (after : List Bucket) (value total : ℕ)
    → total ≡ sum (needs (before ++ b ∷ after))
    → total - need b + need (next_bucket value b)
      ≡ sum (needs (before ++ next_bucket value b ∷ after))
sum-needs-next before b after value total h =
    omega
      (arith, sum-needs-middle before b after, sum-needs-middle before (next_bucket value b) after)

cons_injective : {x y : Bucket} {xs ys : List Bucket} → x ∷ xs ≡ y ∷ ys → (x ≡ y) × (xs ≡ ys)
cons_injective h = (cc, cc)

next_cons :
    (value : ℕ) {b c : Bucket} {xs ys : List Bucket}
    → c ∷ xs ≡ b ∷ ys
    → next_bucket value b ∷ ys ≡ next_bucket value c ∷ xs
next_cons value e = cc (ap (next_bucket value) (cons_injective e).0, (cons_injective e).1)

shifted :
    (before xs : List Bucket) (c x : Bucket) → c ≡ x → before ++ x ∷ xs ≡ (before ++ c ∷ []) ++ xs
shifted before xs c x e = rw (append_assoc, e)

module _ (rec : List Bucket → ℕ → ℕ → Outcome) (value : ℕ) (values : List ℕ)
    (complete : (buckets : List Bucket) (total depth : ℕ)
      → total ≡ sum (needs buckets)
      → (rec buckets total depth).verdict ≡ Verdict.impossible
      → ¬ Partition values (needs buckets)) where
  -- A loop that answers False has tried its first bucket, and goes on with the others.
  first_failed :
      (before after : List Bucket) (c : Bucket) (total depth : ℕ)
      → (try_buckets rec value total before (c ∷ after) depth).verdict ≡ Verdict.impossible
      → ((first_try rec value total before c after depth).verdict ≡ Verdict.impossible)
        × ((try_buckets rec value total
              (before ++ c ∷ [])
              after
              (first_try rec value total before c after depth).depth).verdict
            ≡ Verdict.impossible)
  first_failed before after c total depth h =
      elim (try_buckets-cases rec value total before c after depth) [
        | inl (found, same) ↦ absurd (
            not_found (first_try rec value total before c after depth).verdict found
              (sym (ap (λ (o : Outcome). o.verdict) same) ∙ h))
        | inr (failed, same) ↦
            (is_impossible _ failed, sym (ap (λ (o : Outcome). o.verdict) same) ∙ h)
      ]

  pub try_buckets_complete :
      (before after : List Bucket) (total depth : ℕ)
      → total ≡ sum (needs (before ++ after))
      → (try_buckets rec value total before after depth).verdict ≡ Verdict.impossible
      → (xs : List Bucket) (b : Bucket) (ys : List Bucket) → after ≡ xs ++ b ∷ ys
      → ¬ Choice before value xs b ys values
  try_buckets_complete before [] total depth t h [] b ys e choice = cc
  try_buckets_complete before [] total depth t h (x ∷ xs) b ys e choice = cc
  try_buckets_complete before (c ∷ after) total depth t h [] b ys e choice =
      complete _ _ depth (sum-needs-next before c after value total t)
        (first_failed before after c total depth h).0
        (subst (λ l. Partition values (needs (before ++ l))) (next_cons value e)
          (rw append-nil at choice))
  try_buckets_complete before (c ∷ after) total depth t h (x ∷ xs) b ys e choice =
      try_buckets_complete (before ++ c ∷ []) after total _
        (t ∙ ap (λ l. sum (needs l)) (sym (append_assoc before (c ∷ []) after)))
        (first_failed before after c total depth h).1 xs b ys (cons_injective e).1
        (subst (λ l. Partition values (needs (l ++ next_bucket value b ∷ ys)))
          (shifted before xs c x (cons_injective e).0) choice)
