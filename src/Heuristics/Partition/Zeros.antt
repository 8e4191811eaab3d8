-- ===== src/Heuristics/Partition/Zeros.antt =====
-- Goals of zero ask for nothing: they can be added and left out.
use coinjoin_pipeline.Base.{
  ℕ, ◌+◌, ◌≤◌, ◌≡◌, refl, List, [], ◌∷◌, ◌++◌, arith, flatten, count, ltb, if◌then◌else◌, subst,
  Bool-cases, inl, inr, false, true, sym,
}
use coinjoin_pipeline.Heuristics.Partition.Groups.{Reaches, Regroup, counting}

unfoldable pub positive : List ℕ → List ℕ
positive [] = []
positive (n ∷ ns) = let rest = positive ns in if ltb 0 n then n ∷ rest else rest

positive_pos : (n : ℕ) (ns : List ℕ) → ltb 0 n ≡ true → positive (n ∷ ns) ≡ n ∷ positive ns
unfolding positive
positive_pos n ns h = rw (h, positive)

positive_zero : (n : ℕ) (ns : List ℕ) → ltb 0 n ≡ false → positive (n ∷ ns) ≡ positive ns
unfolding positive
positive_zero n ns h = rw (h, positive)

zero_of_test : (n : ℕ) → ltb 0 n ≡ false → n ≤ 0
zero_of_test n h = ground arith

add_head :
    (n : ℕ) (ns ms : List ℕ) (groups : List (List ℕ))
    → ((gs : List (List ℕ)) → Reaches gs ms → Regroup gs ns)
    → Reaches groups (n ∷ ms)
    → Regroup groups (n ∷ ns)
add_head n ns ms [] k h = absurd h
add_head n ns ms (g ∷ groups) k h =
    let r = k groups h.1 in
    record {
      groups = g ∷ r.groups;
      reaches = (h.0, r.reaches);
      same_counts = λ a. omega (counting, r.same_counts a);
    }

pub Reaches-add_zeros :
    (ns : List ℕ) (groups : List (List ℕ)) → Reaches groups (positive ns) → Regroup groups ns
Reaches-add_zeros [] groups h = record {
  groups = groups;
  reaches = unfold positive in h;
  same_counts = λ a. refl;
}
Reaches-add_zeros (n ∷ ns) groups h = elim (Bool-cases (ltb 0 n)) [
  | inl pos ↦
      add_head n ns (positive ns) groups (Reaches-add_zeros ns)
        (subst (Reaches groups) (positive_pos n ns pos) h)
  | inr zero_ ↦
      let r = Reaches-add_zeros ns groups (subst (Reaches groups) (positive_zero n ns zero_) h) in
      record {
        groups = [] ∷ r.groups;
        reaches = (zero_of_test n zero_, r.reaches);
        same_counts = r.same_counts;
      }
]

-- Groups for `goals`, with some values of `used` set aside.
pub record SetAside (used : List (List ℕ)) (goals : List ℕ) : Type 0 where
  pub groups : List (List ℕ)
  pub aside : List ℕ
  pub reaches : Reaches groups goals
  pub same_counts : (a : ℕ) → count a (flatten groups) + count a aside ≡ count a (flatten used)

pub Reaches-drop_zeros :
    (ns : List ℕ) (groups : List (List ℕ)) → Reaches groups ns → SetAside groups (positive ns)
Reaches-drop_zeros [] [] h = record {
  groups = [];
  aside = [];
  reaches = unfold positive in tt;
  same_counts = λ a. omega counting;
}
Reaches-drop_zeros [] (g ∷ groups) h = absurd h
Reaches-drop_zeros (n ∷ ns) [] h = absurd h
Reaches-drop_zeros (n ∷ ns) (g ∷ groups) h =
    let r = Reaches-drop_zeros ns groups h.1 in
    elim (Bool-cases (ltb 0 n)) [
      | inl pos ↦ record {
        groups = g ∷ r.groups;
        aside = r.aside;
        reaches = subst (Reaches (g ∷ r.groups)) (sym (positive_pos n ns pos)) (h.0, r.reaches);
        same_counts = λ a. omega (counting, r.same_counts a);
      }
      | inr zero_ ↦ record {
        groups = r.groups;
        aside = g ++ r.aside;
        reaches = subst (Reaches r.groups) (sym (positive_zero n ns zero_)) r.reaches;
        same_counts = λ a. omega (counting, r.same_counts a);
      }
    ]
