-- ===== src/Heuristics/Subset.antt =====
-- pipeline/exporters/heuristics.py: `joinmarket_subset_result`, the bounded search for a way to fill buckets with
-- input values. Amounts are satoshis, so they are natural numbers.
use coinjoin_pipeline.Base.{
  ℕ, ◌+◌, ◌-◌, String, Bool, true, false, not, ◌&&◌, List, [], ◌∷◌, ◌++◌, map, ltb, leb, nat_beq,
  if◌then◌else◌, sum, ◌≡◌, ◌⊎◌, inl, inr, Bool-cases,
}

-- `True`, `False` and `None`.
pub data Verdict : Type 0 where
  filled impossible timeout : Verdict

-- What `search` returns, with the nonlocal `depth` after it.
pub record Outcome : Type 0 where
  pub verdict : Verdict
  pub reason : String
  pub depth : ℕ

-- `(goal, current)`
pub record Bucket : Type 0 where
  pub goal : ℕ
  pub current : ℕ

unfoldable pub remaining : ℕ → ℕ → ℕ
remaining goal current = if ltb current goal then goal - current else 0

abbrev pub need : Bucket → ℕ
need b = remaining b.goal b.current

-- `[bucket for bucket in buckets if current < goal]`
unfoldable pub active : List Bucket → List Bucket
active [] = []
active (b ∷ buckets) = let rest = active buckets in if ltb b.current b.goal then b ∷ rest else rest

-- A stable sort by `need`, largest first.
unfoldable pub insert_bucket : Bucket → List Bucket → List Bucket
insert_bucket b [] = b ∷ []
insert_bucket b (c ∷ rest) =
    let later = c ∷ insert_bucket b rest in if leb (need c) (need b) then b ∷ c ∷ rest else later

unfoldable pub sort_buckets : List Bucket → List Bucket
sort_buckets [] = []
sort_buckets (b ∷ buckets) = insert_bucket b (sort_buckets buckets)

-- Numbers, largest first.
unfoldable pub insert_descending : ℕ → List ℕ → List ℕ
insert_descending x [] = x ∷ []
insert_descending x (y ∷ ys) =
    let later = y ∷ insert_descending x ys in if leb y x then x ∷ y ∷ ys else later

unfoldable pub sort_descending : List ℕ → List ℕ
sort_descending [] = []
sort_descending (x ∷ xs) = insert_descending x (sort_descending xs)

abbrev refuse : String → ℕ → Outcome
refuse reason depth = record { verdict = Verdict.impossible; reason = reason; depth = depth }

-- `if result is not False: return result, reason`
abbrev pub is_false : Verdict → Bool
is_false Verdict.impossible = true
is_false _ = false

-- `(goal, current + value)`
abbrev pub next_bucket : ℕ → Bucket → Bucket
next_bucket value b = record { goal = b.goal; current = b.current + value }

-- The `for` loop: `value` goes into each active bucket in turn. `search` is the recursive call, on
-- the next buckets, the next total and the depth; `before` holds the buckets already tried.
unfoldable pub try_buckets :
    (List Bucket → ℕ → ℕ → Outcome) → ℕ → ℕ → List Bucket → List Bucket → ℕ → Outcome
try_buckets search value total before [] depth =
    refuse "no partition of grouped input values can fill bucket goals" depth
try_buckets search value total before (b ∷ after) depth =
    let next = next_bucket value b in
    let result = search (before ++ next ∷ after) (total - need b + need next) depth in
    let rest = try_buckets search value total (before ++ b ∷ []) after result.depth in
    if is_false result.verdict then rest else result

-- `search`. The source takes the last of the ascending `remaining_values`; they are kept here
-- largest first, so that is the head.
unfoldable pub search : ℕ → List ℕ → List Bucket → ℕ → ℕ → ℕ → Outcome
search max_depth [] buckets total left depth =
    if ltb left total
    then refuse "total bucket target exceeds remaining input value" depth
    else elim (active buckets) [
      | [] ↦ record { verdict = Verdict.filled; reason = "all buckets filled"; depth = depth }
      | b ∷ rest ↦ refuse "inputs exhausted before buckets filled" depth
    ]
search max_depth (value ∷ values) buckets total left depth =
    let tried =
      try_buckets (λ next next_total d. search max_depth values next next_total (left - value) d)
        value total [] (sort_buckets (active buckets)) (depth + 1) in
    if ltb left total
    then refuse "total bucket target exceeds remaining input value" depth
    else elim (active buckets) [
      | [] ↦ record { verdict = Verdict.filled; reason = "all buckets filled"; depth = depth }
      | b ∷ rest ↦
          if not (nat_beq max_depth 0) && ltb max_depth (depth + 1)
          then record { verdict = Verdict.timeout; reason = "max-depth timeout"; depth = depth + 1 }
          else tried
    ]

abbrev pub empty_bucket : ℕ → Bucket
empty_bucket goal = record { goal = goal; current = 0 }

unfoldable pub joinmarket_subset_result : List ℕ → List ℕ → ℕ → Outcome
joinmarket_subset_result values bucket_goals max_depth =
    search max_depth (sort_descending values) (map empty_bucket (sort_descending bucket_goals))
      (sum (sort_descending bucket_goals)) (sum (sort_descending values)) 0

-- One round of the `for` loop: the result is returned, or the next bucket is tried.
module _ (rec : List Bucket → ℕ → ℕ → Outcome) (value total : ℕ) (before : List Bucket) (b : Bucket)
    (after : List Bucket) (depth : ℕ) where
  abbrev pub first_try : Outcome
  first_try =
      rec (before ++ next_bucket value b ∷ after) (total - need b + need (next_bucket value b))
        depth

  pub try_buckets-cases :
      ((is_false first_try.verdict ≡ false)
        × (try_buckets rec value total before (b ∷ after) depth ≡ first_try))
      ⊎ ((is_false first_try.verdict ≡ true)
          × (try_buckets rec value total before (b ∷ after) depth
              ≡ try_buckets rec value total (before ++ b ∷ []) after first_try.depth))
  unfolding try_buckets
  try_buckets-cases = elim (Bool-cases (is_false first_try.verdict)) [
    | inl failed ↦ inr (failed, rw (failed, try_buckets))
    | inr found ↦ inl (found, rw (found, try_buckets))
  ]
