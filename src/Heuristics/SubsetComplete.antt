-- ===== src/Heuristics/SubsetComplete.antt =====
-- `joinmarket_subset_result`: when it answers False, no partition fills the buckets.
mod Loop
use Loop.{try_buckets_complete, Choice}
use mathlib.Core.List.{append_assoc, append-nil}
use mathlib.Core.List.Permᴰ
use coinjoin_pipeline.Base.{
  ℕ, ◌+◌, ◌-◌, ◌≤◌, ◌<◌, ◌≡◌, refl, sym, ap, ◌∙◌, List, [], ◌∷◌, ◌++◌, map, arith, subst,
  Bool-cases, inl, inr, true, false, sum, sum-append, ltb, ◌⊎◌, ◌≢◌, Bool, if◌then◌else◌,
}
use coinjoin_pipeline.Heuristics.Subset.{
  Verdict, Outcome, Bucket, need, remaining, active, sort_buckets, try_buckets, search, is_false,
  joinmarket_subset_result, sort_descending, first_try, next_bucket, try_buckets-cases,
  empty_bucket,
}
use coinjoin_pipeline.Heuristics.Partition.{
  Partition, positive, Partition-goals_perm, Partition-values, Partition-drop_zeros,
  Partition-first, Partition-lower, Partition-sum, Lowered,
}
use coinjoin_pipeline.Heuristics.Needs.{
  needs, needs-active, sort_buckets-perm, sort_descending-perm, need-put, map-append, count-permᴰ,
  bucket_split, sum-permᴰ,
}
use coinjoin_pipeline.Heuristics.SubsetSound.{needs-empty}

positive_need : (buckets : List Bucket) → active buckets ≢ [] → 0 < sum (needs buckets)
unfolding active remaining
positive_need [] h = absurd (h refl)
positive_need (c ∷ buckets) h = ground (arith, positive_need buckets)

sum-positive : (ns : List ℕ) → sum (positive ns) ≡ sum ns
unfolding positive
sum-positive [] = refl
sum-positive (n ∷ ns) = ground (arith, sum-positive ns)

-- Why a search answers False.
refused_nil :
    (max_depth : ℕ) (buckets : List Bucket) (total left depth : ℕ)
    → (search max_depth [] buckets total left depth).verdict ≡ Verdict.impossible
    → (left < total) ⊎ (active buckets ≢ [])
unfolding search
refused_nil max_depth buckets total left depth h = ground arith

refused_cons :
    (max_depth v : ℕ) (vs : List ℕ) (buckets : List Bucket) (total left depth : ℕ)
    → (search max_depth (v ∷ vs) buckets total left depth).verdict ≡ Verdict.impossible
    → (left < total)
      ⊎ ((active buckets ≢ [])
          × ((try_buckets
                (λ next t d. search max_depth vs next t (left - v) d)
                v
                total
                []
                (sort_buckets (active buckets))
                (depth + 1)).verdict
              ≡ Verdict.impossible))
unfolding search
refused_cons max_depth v vs buckets total left depth h = ground arith

-- A partition that leaves the value out, and one bucket that could have taken it.
record Spare (value : ℕ) (values : List ℕ) (buckets : List Bucket) : Type 0 where
  bucket : Bucket
  after : List Bucket
  split : buckets ≡ bucket ∷ after
  still : Choice [] value [] bucket after values

spare :
    (value : ℕ) (values : List ℕ) (buckets : List Bucket)
    → 0 < sum (needs buckets)
    → Partition values (needs buckets)
    → Spare value values buckets
spare value values [] h p = absurd (omega arith)
spare value values (b ∷ buckets) h p = record {
  bucket = b;
  after = buckets;
  split = refl;
  still =
      Partition-lower (need b) (need (next_bucket value b)) (needs buckets)
        (omega (arith, need-put b value)) p;
}

module _ (v : ℕ) (vs : List ℕ) (buckets : List Bucket) where
  sorted-Partition :
      Partition (v ∷ vs) (needs buckets)
      → Partition (v ∷ vs) (needs (sort_buckets (active buckets)))
  sorted-Partition p =
      Partition-goals_perm (Permᴰ.map need (sort_buckets-perm (active buckets)))
        (rw needs-active (Partition-drop_zeros (needs buckets) p))

  sum-needs-sorted : sum (needs buckets) ≡ sum (needs (sort_buckets (active buckets)))
  sum-needs-sorted =
      sym (sum-positive (needs buckets))
      ∙ ap sum (sym (needs-active buckets))
      ∙ sum-permᴰ (Permᴰ.map need (sort_buckets-perm (active buckets)))

Choice-of :
    (v : ℕ) (vs : List ℕ) (buckets : List Bucket) (l : Lowered v vs (needs buckets)) (b : Bucket)
    (xs ys : List Bucket)
    → needs xs ≡ l.before
    → need b ≡ l.goal
    → needs ys ≡ l.after
    → Choice [] v xs b ys vs
Choice-of v vs buckets l b xs ys p q r =
    rw (map-append xs (next_bucket v b ∷ ys))
      (subst (Partition vs) (λ i. sym p i ++ sym lowered i ∷ sym r i) l.still)
  where
    lowered : need (next_bucket v b) ≡ l.goal - v
    lowered = need-put b v ∙ ap (λ n. n - v) q

-- A partition puts the first value into some bucket.
first-Choice :
    (v : ℕ) (vs : List ℕ) (buckets : List Bucket)
    → 0 < sum (needs buckets)
    → Partition (v ∷ vs) (needs buckets)
    → (xs : List Bucket) × (b : Bucket) × (ys : List Bucket) × (buckets ≡ xs ++ b ∷ ys)
      × Choice [] v xs b ys vs
first-Choice v vs buckets pos p = elim (Partition-first v (needs buckets) p) [
  | inl l ↦
      let s = bucket_split buckets l.before l.goal l.after l.split in
      (
        s.before,
        s.bucket,
        s.after,
        s.split,
        Choice-of v vs buckets l s.bucket s.before s.after s.needs_before s.need_bucket
            s.needs_after,
      )
  | inr q ↦ let s = spare v vs buckets pos q in ([], s.bucket, s.after, s.split, s.still)
]

search_complete :
    (max_depth : ℕ) (values : List ℕ) (buckets : List Bucket) (total left depth : ℕ)
    → total ≡ sum (needs buckets)
    → left ≡ sum values
    → (search max_depth values buckets total left depth).verdict ≡ Verdict.impossible
    → ¬ Partition values (needs buckets)
search_complete max_depth [] buckets total left depth t l h p =
    elim (refused_nil max_depth buckets total left depth h) [
      | inl less ↦ absurd (omega (arith, Partition-sum (needs buckets) p))
      | inr needy ↦
          absurd (omega (arith, Partition-sum (needs buckets) p, positive_need buckets needy))
    ]
search_complete max_depth (v ∷ vs) buckets total left depth t l h p =
    elim (refused_cons max_depth v vs buckets total left depth h) [
      | inl less ↦ absurd (omega (arith, Partition-sum (needs buckets) p))
      | inr (needy, failed) ↦
          let (xs, b, ys, split, choice) =
            first-Choice v vs (sort_buckets (active buckets))
              (omega (arith, positive_need buckets needy, sum-needs-sorted v vs buckets))
              (sorted-Partition v vs buckets p) in
          try_buckets_complete (λ next u d. search max_depth vs next u (left - v) d) v vs
            (λ next u d e. search_complete max_depth vs next u (left - v) d e (omega arith)) []
            (sort_buckets (active buckets)) total (depth + 1) (t ∙ sum-needs-sorted v vs buckets)
            failed xs b ys split choice
    ]

-- When the search answers False, there is no partition that fills the buckets.
pub joinmarket_subset_result_complete :
    (values goals : List ℕ) (max_depth : ℕ)
    → (joinmarket_subset_result values goals max_depth).verdict ≡ Verdict.impossible
    → ¬ Partition values goals
unfolding joinmarket_subset_result
joinmarket_subset_result_complete values goals max_depth h p =
    search_complete max_depth (sort_descending values) (map empty_bucket (sort_descending goals)) _
      _ 0 (sym (ap sum (needs-empty (sort_descending goals)))) refl h
      (rw needs-empty (
        Partition-goals_perm (sort_descending-perm goals)
          (Partition-values (λ a. count-permᴰ a (sort_descending-perm values)) p)))
