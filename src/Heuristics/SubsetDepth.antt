-- ===== src/Heuristics/SubsetDepth.antt =====
-- `joinmarket_subset_result`: the depth limit, and the search without one.
use coinjoin_pipeline.Base.{
  ℕ, ◌+◌, ◌-◌, ◌≤◌, ◌≡◌, ◌≢◌, refl, sym, subst, List, [], ◌∷◌, ◌++◌, arith, inl, inr, true, ◌↔◌,
  ◌⊎◌,
}
use coinjoin_pipeline.Heuristics.Subset.{
  Verdict, Outcome, Bucket, active, sort_buckets, try_buckets, search, is_false,
  joinmarket_subset_result, first_try, try_buckets-cases,
}
use coinjoin_pipeline.Heuristics.Partition.{Partition}
use coinjoin_pipeline.Heuristics.SubsetSound.{joinmarket_subset_result_sound}
use coinjoin_pipeline.Heuristics.SubsetComplete.{joinmarket_subset_result_complete}

-- A property of outcomes that the recursive calls have at every depth the loop reaches.
try_buckets_ind :
    (P : Outcome → Type 0) (Q : ℕ → Type 0) (rec : List Bucket → ℕ → ℕ → Outcome)
    → ((buckets : List Bucket) (total depth : ℕ) → Q depth → P (rec buckets total depth))
    → ((o : Outcome) → P o → is_false o.verdict ≡ true → Q o.depth)
    → ((o : Outcome) → is_false o.verdict ≡ true → Q o.depth → P o)
    → (value total : ℕ) (before after : List Bucket) (depth : ℕ) → Q depth
    → P (try_buckets rec value total before after depth)
try_buckets_ind P Q rec call next stop value total before [] depth q =
    unfold try_buckets in stop _ refl q
try_buckets_ind P Q rec call next stop value total before (b ∷ after) depth q =
    let p : P (first_try rec value total before b after depth) = call _ _ depth q in
    elim (try_buckets-cases rec value total before b after depth) [
      | inl (_, same) ↦ subst P (sym same) p
      | inr (failed, same) ↦ subst P (sym same) (
          try_buckets_ind P Q rec call next stop value total (before ++ b ∷ []) after _
            (next _ p failed))
    ]

-- Every answer but a timeout is given within the limit.
abbrev Within : ℕ → Outcome → Type 0
Within max_depth o = (o.depth ≤ max_depth + 1) × (o.verdict ≢ Verdict.timeout → o.depth ≤ max_depth)

ends-Within :
    (max_depth : ℕ) (o : Outcome)
    → Within max_depth o
    → is_false o.verdict ≡ true
    → o.depth ≤ max_depth
ends-Within max_depth o w h = ground arith

stays-Within :
    (max_depth : ℕ) (o : Outcome)
    → is_false o.verdict ≡ true
    → o.depth ≤ max_depth
    → Within max_depth o
stays-Within max_depth o h q = (omega arith, λ _. q)

-- The cases of one call of `search`, over the outcome of its loop.
search-Within_nil :
    (max_depth : ℕ) (buckets : List Bucket) (total left depth : ℕ)
    → depth ≤ max_depth
    → Within max_depth (search max_depth [] buckets total left depth)
unfolding search
search-Within_nil max_depth buckets total left depth q = ground arith

search-Within_cons :
    (max_depth v : ℕ) (vs : List ℕ) (buckets : List Bucket) (total left depth : ℕ)
    → max_depth ≢ 0
    → depth ≤ max_depth
    → (depth + 1 ≤ max_depth
        → Within max_depth (
            try_buckets
              (λ next t d. search max_depth vs next t (left - v) d)
              v
              total
              []
              (sort_buckets (active buckets))
              (depth + 1)))
    → Within max_depth (search max_depth (v ∷ vs) buckets total left depth)
unfolding search
search-Within_cons max_depth v vs buckets total left depth n q tried = ground arith

search-Within :
    (max_depth : ℕ) (values : List ℕ) (buckets : List Bucket) (total left depth : ℕ)
    → max_depth ≢ 0
    → depth ≤ max_depth
    → Within max_depth (search max_depth values buckets total left depth)
search-Within max_depth [] buckets total left depth n q =
    search-Within_nil max_depth buckets total left depth q
search-Within max_depth (v ∷ vs) buckets total left depth n q =
    search-Within_cons max_depth v vs buckets total left depth n q λ room.
      try_buckets_ind (Within max_depth) (λ d. d ≤ max_depth) _
        (λ next t d. search-Within max_depth vs next t (left - v) d n) (ends-Within max_depth)
        (stays-Within max_depth) v total [] (sort_buckets (active buckets)) (depth + 1) room

-- With a depth limit, the search counts at most one step beyond it, and gives an answer other than
-- a timeout within it.
pub joinmarket_subset_result_depth :
    (values goals : List ℕ) (max_depth : ℕ)
    → max_depth ≢ 0
    → ((joinmarket_subset_result values goals max_depth).depth ≤ max_depth + 1)
      × ((joinmarket_subset_result values goals max_depth).verdict ≢ Verdict.timeout
          → (joinmarket_subset_result values goals max_depth).depth ≤ max_depth)
unfolding joinmarket_subset_result
joinmarket_subset_result_depth values goals max_depth n =
    search-Within max_depth _ _ _ _ 0 n (omega arith)

-- Without a limit no call times out.
abbrev Decided : Outcome → Type 0
Decided o = o.verdict ≢ Verdict.timeout

Decided-nil :
    (buckets : List Bucket) (total left depth : ℕ) → Decided (search 0 [] buckets total left depth)
unfolding search
Decided-nil buckets total left depth = ground arith

Decided-cons :
    (v : ℕ) (vs : List ℕ) (buckets : List Bucket) (total left depth : ℕ)
    → Decided (
        try_buckets
          (λ next t d. search 0 vs next t (left - v) d)
          v
          total
          []
          (sort_buckets (active buckets))
          (depth + 1))
    → Decided (search 0 (v ∷ vs) buckets total left depth)
unfolding search
Decided-cons v vs buckets total left depth tried = ground arith

not_timeout : (o : Outcome) → is_false o.verdict ≡ true → Decided o
not_timeout o h = ground arith

search-Decided :
    (values : List ℕ) (buckets : List Bucket) (total left depth : ℕ)
    → Decided (search 0 values buckets total left depth)
search-Decided [] buckets total left depth = Decided-nil buckets total left depth
search-Decided (v ∷ vs) buckets total left depth = Decided-cons v vs buckets total left depth (
    try_buckets_ind Decided (λ _. Unit {0}) _ (λ next t d _. search-Decided vs next t (left - v) d)
      (λ _ _ _. tt) (λ o h _. not_timeout o h) v total [] (sort_buckets (active buckets))
      (depth + 1) tt)

result-Decided : (values goals : List ℕ) → Decided (joinmarket_subset_result values goals 0)
unfolding joinmarket_subset_result
result-Decided values goals = search-Decided _ _ _ _ 0

filled_or_impossible :
    (v : Verdict) → v ≢ Verdict.timeout → (v ≡ Verdict.filled) ⊎ (v ≡ Verdict.impossible)
filled_or_impossible v h = ground arith

-- Without a depth limit the search decides whether the values can be partitioned.
pub joinmarket_subset_result_iff :
    (values goals : List ℕ)
    → ((joinmarket_subset_result values goals 0).verdict ≡ Verdict.filled) ↔ Partition values goals
joinmarket_subset_result_iff values goals = (
  joinmarket_subset_result_sound values goals 0,
  λ p. elim (filled_or_impossible _ (result-Decided values goals)) [
    | inl e ↦ e
    | inr e ↦ absurd (joinmarket_subset_result_complete values goals 0 e p)
  ],
)
