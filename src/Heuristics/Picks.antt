-- ===== src/Heuristics/Picks.antt =====
-- The elements of a list that have a property, in order.
use coinjoin_pipeline.Base.{
  ◌≡◌, ◌≤◌, ◌↔◌, ◌⊎◌, inl, inr, refl, ap, ◌∙◌, Bool, true, List, [], ◌∷◌, length, arith,
  if◌then◌else◌, Bool-cases, Equality, ◌∈◌, contains, contains-head, remove, length-remove,
  mem-remove, to_set, IsDistinct,
}

module _ {A : Type 0} (P : A → Type 0) where
  abbrev pub Picks : List A → List A → Type 0
  Picks [] ys = ys ≡ []
  Picks (x ∷ xs) ys =
      (P x × ((zs : List A) × (ys ≡ x ∷ zs) × Picks xs zs)) ⊎ ((P x → ⊥) × Picks xs ys)

unfoldable pub picked : {A : Type 0} → (A → Bool) → List A → List A
picked t [] = []
picked t (x ∷ xs) = let rest = picked t xs in if t x then x ∷ rest else rest

module _ {A : Type 0} (P : A → Type 0) (t : A → Bool) (decides : (x : A) → (t x ≡ true) ↔ P x) where
  pub picked-Picks : (xs : List A) → Picks P xs (picked t xs)
  unfolding picked
  picked-Picks [] = refl
  picked-Picks (x ∷ xs) = elim (Bool-cases (t x)) [
    | inl y ↦ rw (y, picked) (inl ((decides x).0 y, (picked t xs, refl, picked-Picks xs)))
    | inr n ↦
        rw (n, picked) (inr (λ p. absurd (ground (arith, n, (decides x).1 p)), picked-Picks xs))
  ]

  pub Picks-picked : (xs ys : List A) → Picks P xs ys → ys ≡ picked t xs
  unfolding picked
  Picks-picked [] ys e = e
  Picks-picked (x ∷ xs) ys (inl (p, (zs, e, rest))) =
      rw ((decides x).1 p, picked) (e ∙ ap (λ l. x ∷ l) (Picks-picked xs zs rest))
  Picks-picked (x ∷ xs) ys (inr (q, rest)) = elim (Bool-cases (t x)) [
    | inl y ↦ absurd (q ((decides x).0 y))
    | inr n ↦ rw (n, picked) (Picks-picked xs ys rest)
  ]

module _ {A : Type 0} ⦃e : Equality A⦄ where
  pub to_set-IsDistinct : (xs : List A) → IsDistinct (to_set xs)
  unfolding to_set
  to_set-IsDistinct [] = tt
  to_set-IsDistinct (x ∷ xs) = elim (Bool-cases (contains x (to_set xs))) [
    | inl y ↦ rw (y, to_set) (to_set-IsDistinct xs)
    | inr n ↦ rw (n, to_set) (n, to_set-IsDistinct xs)
  ]

  -- Distinct elements of a list are no more than its elements.
  pub length-distinct :
      (xs ys : List A) → IsDistinct xs → ((a : A) → a ∈ xs → a ∈ ys) → length xs ≤ length ys
  unfolding contains
  length-distinct [] ys d h = omega arith
  length-distinct (x ∷ xs) ys d h =
      let there = h x (contains-head x xs) in
      let fewer = length-distinct xs (remove x ys) d.1 (λ a m.
        elim (mem-remove a x ys (h a (ground (arith, m)))) [
          | inl same ↦ absurd (ground (arith, d.0, m, e.equals_iff a x))
          | inr left ↦ left
        ]) in
      omega (arith, fewer, length-remove x ys there)
