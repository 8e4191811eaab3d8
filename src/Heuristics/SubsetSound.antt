-- ===== src/Heuristics/SubsetSound.antt =====
-- `joinmarket_subset_result`: when it answers True, the values can be partitioned so that every
-- bucket reaches its goal.
use mathlib.Core.List.{append_assoc}
use mathlib.Core.List.Permᴰ
use coinjoin_pipeline.Base.{
  ℕ, ◌+◌, ◌-◌, ◌≡◌, refl, sym, ap, ◌∙◌, List, [], ◌∷◌, ◌++◌, map, arith, subst, inl, inr, ◌⊎◌,
  count-nil,
}
use coinjoin_pipeline.Heuristics.Subset.{
  Verdict, Outcome, Bucket, need, active, sort_buckets, try_buckets, search,
  joinmarket_subset_result, sort_descending, first_try, try_buckets-cases, remaining, empty_bucket,
}
use coinjoin_pipeline.Heuristics.Partition.{
  Partition, Partition-goals_perm, Partition-values, Partition-add_zeros, Partition-put,
}
use coinjoin_pipeline.Heuristics.Needs.{
  needs, needs-active, sort_buckets-perm, sort_descending-perm, need-put, map-append, count-permᴰ,
}

-- Every bucket is full: nothing has to be put anywhere.
no_needs :
    (values : List ℕ) (buckets : List Bucket)
    → active buckets ≡ []
    → Partition values (needs buckets)
no_needs values buckets h = Partition-add_zeros (needs buckets) (
    subst (Partition values) (sym (ap needs h) ∙ needs-active buckets) (record {
      groups = [];
      rest = values;
      whole = λ a. omega (arith, count-nil a);
      reaches = tt;
    }))

module _ (rec : List Bucket → ℕ → ℕ → Outcome) (value : ℕ) (values : List ℕ)
    (sound : (buckets : List Bucket) (total depth : ℕ)
      → (rec buckets total depth).verdict ≡ Verdict.filled
      → Partition values (needs buckets)) where
  put_next :
      (before : List Bucket) (b : Bucket) (after : List Bucket) (total depth : ℕ)
      → (first_try rec value total before b after depth).verdict ≡ Verdict.filled
      → Partition (value ∷ values) (needs (before ++ b ∷ after))
  put_next before b after total depth h = rw (map-append before (b ∷ after)) (
      Partition-put value (needs before) (need b) (needs after) (
        rw (← need-put b value) (
          rw (← map-append before (record { goal = b.goal; current = b.current + value } ∷ after))
            (sound _ _ depth h))))

  try_buckets_sound :
      (before after : List Bucket) (total depth : ℕ)
      → (try_buckets rec value total before after depth).verdict ≡ Verdict.filled
      → Partition (value ∷ values) (needs (before ++ after))
  try_buckets_sound before [] total depth h = unfold try_buckets in cc
  try_buckets_sound before (b ∷ after) total depth h =
      elim (try_buckets-cases rec value total before b after depth) [
        | inl (_, e) ↦
            put_next before b after total depth (sym (ap (λ (o : Outcome). o.verdict) e) ∙ h)
        | inr (_, e) ↦ rw (← append_assoc before (b ∷ []) after) (
            try_buckets_sound (before ++ b ∷ []) after total _
              (sym (ap (λ (o : Outcome). o.verdict) e) ∙ h))
      ]

nothing_active :
    (max_depth : ℕ) (buckets : List Bucket) (total left depth : ℕ)
    → (search max_depth [] buckets total left depth).verdict ≡ Verdict.filled
    → active buckets ≡ []
unfolding search
nothing_active max_depth buckets total left depth h = ground arith

-- A search that fills the buckets with a value at hand: they were full, or the loop filled them.
filled_with :
    (max_depth v : ℕ) (vs : List ℕ) (buckets : List Bucket) (total left depth : ℕ)
    → (search max_depth (v ∷ vs) buckets total left depth).verdict ≡ Verdict.filled
    → (active buckets ≡ [])
      ⊎ ((try_buckets
            (λ next t d. search max_depth vs next t (left - v) d)
            v
            total
            []
            (sort_buckets (active buckets))
            (depth + 1)).verdict
          ≡ Verdict.filled)
unfolding search
filled_with max_depth v vs buckets total left depth h = ground arith

search_sound :
    (max_depth : ℕ) (values : List ℕ) (buckets : List Bucket) (total left depth : ℕ)
    → (search max_depth values buckets total left depth).verdict ≡ Verdict.filled
    → Partition values (needs buckets)
search_sound max_depth [] buckets total left depth h =
    no_needs [] buckets (nothing_active max_depth buckets total left depth h)
search_sound max_depth (v ∷ vs) buckets total left depth h =
    elim (filled_with max_depth v vs buckets total left depth h) [
      | inl full ↦ no_needs (v ∷ vs) buckets full
      | inr found ↦ Partition-add_zeros (needs buckets) (
          rw (← needs-active buckets) (
            Partition-goals_perm (Permᴰ.map need (Permᴰ.symm (sort_buckets-perm (active buckets))))
              (try_buckets_sound (λ next t d. search max_depth vs next t (left - v) d) v vs
                (λ next t d. search_sound max_depth vs next t (left - v) d) []
                (sort_buckets (active buckets)) total (depth + 1) found)))
    ]

pub needs-empty : (goals : List ℕ) → needs (map empty_bucket goals) ≡ goals
unfolding remaining
needs-empty [] = refl
needs-empty (g ∷ goals) = ground (arith, needs-empty goals)

-- When the search answers True, the values fall into a group for each goal and a rest, and each
-- group reaches its goal.
pub joinmarket_subset_result_sound :
    (values goals : List ℕ) (max_depth : ℕ)
    → (joinmarket_subset_result values goals max_depth).verdict ≡ Verdict.filled
    → Partition values goals
unfolding joinmarket_subset_result
joinmarket_subset_result_sound values goals max_depth h =
    Partition-values (λ a. sym (count-permᴰ a (sort_descending-perm values)))
      (Partition-goals_perm (Permᴰ.symm (sort_descending-perm goals))
        (rw needs-empty at (search_sound max_depth (sort_descending values) _ _ _ 0 h)))
