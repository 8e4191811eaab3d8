-- ===== src/Heuristics/Partition/Laws.antt =====
-- The laws of `Partition` that the search uses.
use mathlib.Core.List.{Permᴰ}
use coinjoin_pipeline.Base.{
  ℕ, ◌-◌, ◌≤◌, ◌<◌, ◌≡◌, ◌∙◌, ◌⊎◌, inl, inr, List, [], ◌∷◌, ◌++◌, arith, sum, flatten, count,
  sum-append, sum-eq_of_counts, dec_lt, remove, count-remove, nat_equality, same_self,
}
use coinjoin_pipeline.Heuristics.Partition.Groups.{Reaches, Partition, Reaches-perm, counting}
use coinjoin_pipeline.Heuristics.Partition.Zeros.{positive, Reaches-add_zeros, Reaches-drop_zeros}
use coinjoin_pipeline.Heuristics.Partition.Place.{Reaches-place, Reaches-take}

pub Partition-goals_perm : {vs ns ms : List ℕ} → Permᴰ ns ms → Partition vs ns → Partition vs ms
Partition-goals_perm p h =
    let r = Reaches-perm h.groups p h.reaches in
    record {
      groups = r.groups;
      rest = h.rest;
      whole = λ a. omega (arith, r.same_counts a, h.whole a);
      reaches = r.reaches;
    }

pub Partition-values :
    {vs ws ns : List ℕ} → ((a : ℕ) → count a vs ≡ count a ws) → Partition vs ns → Partition ws ns
Partition-values e h = record {
  groups = h.groups;
  rest = h.rest;
  whole = λ a. h.whole a ∙ e a;
  reaches = h.reaches;
}

pub Partition-add_zeros : {vs : List ℕ} (ns : List ℕ) → Partition vs (positive ns) → Partition vs ns
Partition-add_zeros ns h =
    let r = Reaches-add_zeros ns h.groups h.reaches in
    record {
      groups = r.groups;
      rest = h.rest;
      whole = λ a. omega (arith, r.same_counts a, h.whole a);
      reaches = r.reaches;
    }

pub Partition-drop_zeros :
    {vs : List ℕ} (ns : List ℕ) → Partition vs ns → Partition vs (positive ns)
Partition-drop_zeros ns h =
    let r = Reaches-drop_zeros ns h.groups h.reaches in
    record {
      groups = r.groups;
      rest = r.aside ++ h.rest;
      whole = λ a. omega (counting, r.same_counts a, h.whole a);
      reaches = r.reaches;
    }

-- A value fills part of one goal.
pub Partition-put :
    {vs : List ℕ} (v : ℕ) (xs : List ℕ) (n : ℕ) (ys : List ℕ)
    → Partition vs (xs ++ (n - v) ∷ ys)
    → Partition (v ∷ vs) (xs ++ n ∷ ys)
Partition-put v xs n ys h =
    let r = Reaches-place v xs n ys h.groups h.reaches in
    record {
      groups = r.groups;
      rest = h.rest;
      whole = λ a. omega (counting, r.one_more a, h.whole a);
      reaches = r.reaches;
    }

Reaches-lower :
    (n m : ℕ) (ns : List ℕ) (groups : List (List ℕ))
    → m ≤ n
    → Reaches groups (n ∷ ns)
    → Reaches groups (m ∷ ns)
Reaches-lower n m ns [] le h = h
Reaches-lower n m ns (g ∷ groups) le h = (omega arith, h.1)

-- A lower goal is easier to reach.
pub Partition-lower :
    {vs : List ℕ} (n m : ℕ) (ns : List ℕ) → m ≤ n → Partition vs (n ∷ ns) → Partition vs (m ∷ ns)
Partition-lower n m ns le h = record {
  groups = h.groups;
  rest = h.rest;
  whole = h.whole;
  reaches = Reaches-lower n m ns h.groups le h.reaches;
}

-- Where the first value goes: to one of the goals, or to none.
pub record Lowered (v : ℕ) (vs goals : List ℕ) : Type 0 where
  pub before : List ℕ
  pub goal : ℕ
  pub after : List ℕ
  pub split : goals ≡ before ++ goal ∷ after
  pub still : Partition vs (before ++ (goal - v) ∷ after)

pub Partition-first :
    {vs : List ℕ} (v : ℕ) (goals : List ℕ)
    → Partition (v ∷ vs) goals
    → Lowered v vs goals ⊎ Partition vs goals
Partition-first v goals h = elim (dec_lt 0 (count v (flatten h.groups))) [
  | yes used ↦
      let t = Reaches-take v goals h.groups h.reaches used in
      inl (record {
        before = t.before;
        goal = t.goal;
        after = t.after;
        split = t.split;
        still = record {
          groups = t.groups;
          rest = h.rest;
          whole = λ a. omega (counting, t.one_less a, h.whole a);
          reaches = t.reaches;
        };
      })
  | no unused ↦
      let held : 0 < count v h.rest = omega (counting, h.whole v, same_self v) in
      inr (record {
        groups = h.groups;
        rest = remove v h.rest;
        whole = λ a. omega (counting, h.whole a, count-remove a v h.rest held);
        reaches = h.reaches;
      })
]

Reaches-sum :
    (goals : List ℕ) (groups : List (List ℕ))
    → Reaches groups goals
    → sum goals ≤ sum (flatten groups)
Reaches-sum [] [] h = omega arith
Reaches-sum [] (g ∷ groups) h = absurd h
Reaches-sum (n ∷ goals) [] h = absurd h
Reaches-sum (n ∷ goals) (g ∷ groups) h =
    omega (arith, h.0, Reaches-sum goals groups h.1, sum-append g (flatten groups))

-- The goals ask for no more than there is.
pub Partition-sum : {vs : List ℕ} (goals : List ℕ) → Partition vs goals → sum goals ≤ sum vs
Partition-sum {vs} goals h = omega (
  arith,
  Reaches-sum goals h.groups h.reaches,
  sum-append (flatten h.groups) h.rest,
  sum-eq_of_counts (flatten h.groups ++ h.rest) vs (λ a. omega (counting, h.whole a)),
)
