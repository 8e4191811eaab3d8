-- ===== src/Heuristics/Partition/Groups.antt =====
-- Groups that reach goals, and how they change with the goals. `count a (flatten groups)` says how
-- often a value is used.
use mathlib.Core.List.{Permᴰ}
use coinjoin_pipeline.Base.{
  ℕ, zero, suc, ◌+◌, ◌-◌, ◌≤◌, ◌<◌, ◌≡◌, refl, sym, ap, ◌∙◌, List, [], ◌∷◌, ◌++◌, arith, sum,
  flatten, count, count-nil, count-cons, count-append, same, remove, sum-remove, count-remove,
  dec_lt, ltb, if◌then◌else◌, nat_equality, sum-append,
}

abbrev pub Reaches : List (List ℕ) → List ℕ → Type 0
Reaches [] [] = Unit
Reaches (g ∷ groups) (goal ∷ goals) = (goal ≤ sum g) × Reaches groups goals
Reaches _ _ = ⊥

-- Some values of `values` in groups that reach the goals, the others in `rest`.
pub record Partition (values goals : List ℕ) : Type 0 where
  pub groups : List (List ℕ)
  pub rest : List ℕ
  pub whole : (a : ℕ) → count a (flatten groups) + count a rest ≡ count a values
  pub reaches : Reaches groups goals

-- Groups for `goals` that use the values of `used`.
pub record Regroup (used : List (List ℕ)) (goals : List ℕ) : Type 0 where
  pub groups : List (List ℕ)
  pub reaches : Reaches groups goals
  pub same_counts : (a : ℕ) → count a (flatten groups) ≡ count a (flatten used)

pub ruleset counting = (arith, count-cons, count-nil, count-append)

-- Goals in another order.
pub Reaches-perm :
    {ns ms : List ℕ} (groups : List (List ℕ)) → Permᴰ ns ms → Reaches groups ns → Regroup groups ms
Reaches-perm groups Permᴰ.nil h = record { groups = groups; reaches = h; same_counts = λ a. refl }
Reaches-perm [] (Permᴰ.cons p ps) h = absurd h
Reaches-perm (g ∷ groups) (Permᴰ.cons {a = n} {b = m} p ps) h =
    let r = Reaches-perm groups ps h.1 in
    record {
      groups = g ∷ r.groups;
      reaches = (omega arith, r.reaches);
      same_counts = λ a. omega (counting, r.same_counts a);
    }
Reaches-perm [] (Permᴰ.swap p q) h = absurd h
Reaches-perm (g ∷ []) (Permᴰ.swap p q) h = absurd h.1
Reaches-perm (f ∷ g ∷ groups) (Permᴰ.swap p q) h = record {
  groups = g ∷ f ∷ groups;
  reaches = (omega arith, (omega arith, h.1.1));
  same_counts = λ a. omega counting;
}
Reaches-perm groups (Permᴰ.trans p q) h =
    let r = Reaches-perm groups p h in
    let s = Reaches-perm r.groups q r.reaches in
    record {
      groups = s.groups;
      reaches = s.reaches;
      same_counts = λ a. s.same_counts a ∙ r.same_counts a;
    }
