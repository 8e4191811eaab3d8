-- ===== src/Heuristics/Partition/Place.antt =====
-- A value put into one group, and a used value taken out of the group that holds it.
use coinjoin_pipeline.Base.{
  ℕ, ◌+◌, ◌-◌, ◌<◌, ◌≡◌, refl, ap, List, [], ◌∷◌, ◌++◌, arith, flatten, count, same, remove,
  sum-remove, count-remove, dec_lt, nat_equality,
}
use coinjoin_pipeline.Heuristics.Partition.Groups.{Reaches, counting}

-- Groups for `goals` that use one more `v` than `used`.
pub record Put (v : ℕ) (used : List (List ℕ)) (goals : List ℕ) : Type 0 where
  pub groups : List (List ℕ)
  pub reaches : Reaches groups goals
  pub one_more : (a : ℕ) → count a (flatten groups) ≡ same a v + count a (flatten used)

pub Reaches-place :
    (v : ℕ) (xs : List ℕ) (n : ℕ) (ys : List ℕ) (used : List (List ℕ))
    → Reaches used (xs ++ (n - v) ∷ ys)
    → Put v used (xs ++ n ∷ ys)
Reaches-place v [] n ys [] h = absurd h
Reaches-place v (x ∷ xs) n ys [] h = absurd h
Reaches-place v [] n ys (g ∷ used) h = record {
  groups = (v ∷ g) ∷ used;
  reaches = (omega arith, h.1);
  one_more = λ a. omega counting;
}
Reaches-place v (x ∷ xs) n ys (g ∷ used) h =
    let r = Reaches-place v xs n ys used h.1 in
    record {
      groups = g ∷ r.groups;
      reaches = (h.0, r.reaches);
      one_more = λ a. omega (counting, r.one_more a);
    }

-- The goal whose group held `v`, and the groups without it.
pub record Taken (v : ℕ) (used : List (List ℕ)) (goals : List ℕ) : Type 0 where
  pub before : List ℕ
  pub goal : ℕ
  pub after : List ℕ
  pub split : goals ≡ before ++ goal ∷ after
  pub groups : List (List ℕ)
  pub reaches : Reaches groups (before ++ (goal - v) ∷ after)
  pub one_less : (a : ℕ) → count a (flatten used) ≡ same a v + count a (flatten groups)

pub Reaches-take :
    (v : ℕ) (goals : List ℕ) (used : List (List ℕ))
    → Reaches used goals
    → 0 < count v (flatten used)
    → Taken v used goals
Reaches-take v [] [] h m = absurd (omega (counting, m))
Reaches-take v [] (g ∷ used) h m = absurd h
Reaches-take v (n ∷ goals) [] h m = absurd h
Reaches-take v (n ∷ goals) (g ∷ used) h m = elim (dec_lt 0 (count v g)) [
  | yes here ↦ record {
    before = [];
    goal = n;
    after = goals;
    split = refl;
    groups = remove v g ∷ used;
    reaches = (omega (arith, sum-remove v g here), h.1);
    one_less = λ a. omega (counting, count-remove a v g here);
  }
  | no elsewhere ↦
      let r = Reaches-take v goals used h.1 (omega counting) in
      record {
        before = n ∷ r.before;
        goal = r.goal;
        after = r.after;
        split = ap (λ l. n ∷ l) r.split;
        groups = g ∷ r.groups;
        reaches = (h.0, r.reaches);
        one_less = λ a. omega (counting, r.one_less a);
      }
]
