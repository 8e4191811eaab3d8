-- ===== src/Heuristics/Tallies/Most.antt =====
-- heuristics.py: the rows of a dictionary of numbers, and the row of the greatest one.
use coinjoin_pipeline.Base.{
  ◌++◌, ℕ, ◌≡◌, ◌≤◌, ◌<◌, ◌⊎◌, inl, inr, refl, sym, ap, ◌∙◌, true, List, [], ◌∷◌, arith,
  if◌then◌else◌, Bool-cases, Equality, contains, IsDistinct, ◌==◌, none, some, ltb, string_equality,
  nat_equality, All, subst,
}
use coinjoin_pipeline.Heuristics.Definite.{max_count, most_frequent_value}

module _ {K : Type 0} ⦃e : Equality K⦄ where
  abbrev pub names : List (K × ℕ) → List K
  names [] = []
  names ((k, n) ∷ rows) = k ∷ names rows

  -- What the dictionary has for the key, 0 without one.
  unfoldable pub value_at : K → List (K × ℕ) → ℕ
  value_at a [] = 0
  value_at a ((k, n) ∷ rows) = let later = value_at a rows in if a == k then n else later

module _ {K : Type 0} ⦃e : Equality K⦄ where
  -- The keys of a dictionary stand in the order in which they come first.
  unfoldable pub in_order : List K → List K → List K
  in_order found [] = found
  in_order found (x ∷ xs) = in_order (if contains x found then found else found ++ x ∷ []) xs

-- The item is the first of the greatest.
abbrev pub IsFirstMost : List (ℕ × ℕ) → ℕ × ℕ → Type 0
IsFirstMost [] best = ⊥
IsFirstMost (row ∷ rows) best =
    ((best ≡ row) × All (λ (r : ℕ × ℕ). r.1 ≤ best.1) rows)
    ⊎ ((row.1 < best.1) × IsFirstMost rows best)

first_most-le :
    (row : ℕ × ℕ) (rows : List (ℕ × ℕ)) (best : ℕ × ℕ)
    → IsFirstMost (row ∷ rows) best
    → row.1 ≤ best.1
first_most-le row rows best (inl (e, all)) = rw e (omega arith)
first_most-le row rows best (inr (less, rest)) = omega (arith, less)

IsFirstMost-insert :
    (top row best : ℕ × ℕ) (rows : List (ℕ × ℕ))
    → row.1 ≤ top.1
    → IsFirstMost (top ∷ rows) best
    → IsFirstMost (top ∷ row ∷ rows) best
IsFirstMost-insert top row best rows h (inl (e, all)) =
    inl (e, (omega (arith, h, ap (λ (r : ℕ × ℕ). r.1) e), all))
IsFirstMost-insert top row best rows h (inr (less, rest)) =
    inr (less, inr (omega (arith, h, less), rest))

max_count-cons :
    (best row : ℕ × ℕ) (rows : List (ℕ × ℕ))
    → max_count best (row ∷ rows)
      ≡ (if ltb best.1 row.1 then max_count row rows else max_count best rows)
unfolding max_count
max_count-cons best row rows = refl

max_count-IsFirstMost :
    (best : ℕ × ℕ) (rows : List (ℕ × ℕ)) → IsFirstMost (best ∷ rows) (max_count best rows)
unfolding max_count
max_count-IsFirstMost best [] = inl (refl, tt)
max_count-IsFirstMost best (row ∷ rows) = elim (Bool-cases (ltb best.1 row.1)) [
  | inl y ↦
      let rest = max_count-IsFirstMost row rows in
      let to : max_count best (row ∷ rows) ≡ max_count row rows =
        max_count-cons best row rows ∙ rw y refl in
      subst (IsFirstMost (best ∷ row ∷ rows)) (sym to)
        (inr (ground (arith, y, first_most-le row rows _ rest), rest))
  | inr n ↦
      let to : max_count best (row ∷ rows) ≡ max_count best rows =
        max_count-cons best row rows ∙ rw n refl in
      subst (IsFirstMost (best ∷ row ∷ rows)) (sym to) (
        IsFirstMost-insert best row (max_count best rows) rows (ground (arith, n))
          (max_count-IsFirstMost best rows))
]

first_most-bounded :
    (n : ℕ) (rows : List (ℕ × ℕ)) (best : ℕ × ℕ)
    → All (λ (r : ℕ × ℕ). r.1 ≤ n) rows
    → IsFirstMost rows best
    → best.1 ≤ n
first_most-bounded n [] best h m = elim m [ ]
first_most-bounded n (row ∷ rows) best (h, all) (inl (e, _)) = rw e h
first_most-bounded n (row ∷ rows) best (h, all) (inr (_, rest)) =
    first_most-bounded n rows best all rest

pub first_most_unique :
    (rows : List (ℕ × ℕ)) (a b : ℕ × ℕ) → IsFirstMost rows a → IsFirstMost rows b → a ≡ b
first_most_unique [] a b m q = elim m [ ]
first_most_unique (row ∷ rows) a b (inl (e, _)) (inl (f, _)) = e ∙ sym f
first_most_unique (row ∷ rows) a b (inl (e, all)) (inr (less, rest)) =
    absurd (omega (arith, less, ap (λ (r : ℕ × ℕ). r.1) e, first_most-bounded a.1 rows b all rest))
first_most_unique (row ∷ rows) a b (inr (less, rest)) (inl (f, all)) =
    absurd (omega (arith, less, ap (λ (r : ℕ × ℕ). r.1) f, first_most-bounded b.1 rows a all rest))
first_most_unique (row ∷ rows) a b (inr (_, p)) (inr (_, q)) = first_most_unique rows a b p q

pub most_frequent_value-cases :
    (rows : List (ℕ × ℕ))
    → ((rows ≡ []) × (most_frequent_value rows ≡ (none, 0)))
      ⊎ ((best : ℕ × ℕ) × IsFirstMost rows best
          × (most_frequent_value rows ≡ (some best.0, best.1)))
unfolding most_frequent_value
most_frequent_value-cases [] = inl (refl, refl)
most_frequent_value-cases (row ∷ rows) =
    inr (max_count row rows, max_count-IsFirstMost row rows, refl)

pub first_most-value :
    (rows : List (ℕ × ℕ)) (best : ℕ × ℕ)
    → IsDistinct (names rows)
    → IsFirstMost rows best
    → (contains best.0 (names rows) ≡ true) × (value_at best.0 rows ≡ best.1)
unfolding contains value_at
first_most-value [] best d m = elim m [ ]
first_most-value (row ∷ rows) best d (inl (e, _)) = rw e (ground arith)
first_most-value (row ∷ rows) best d (inr (_, rest)) =
    let (there, same) = first_most-value rows best d.1 rest in
    ground (arith, there, same, d.0, nat_equality.equals_iff best.0 row.0)

value_at_le :
    (n v : ℕ) (rows : List (ℕ × ℕ)) → All (λ (r : ℕ × ℕ). r.1 ≤ n) rows → value_at v rows ≤ n
unfolding value_at
value_at_le n v [] h = omega arith
value_at_le n v (row ∷ rows) (h, all) = ground (arith, h, value_at_le n v rows all)

pub first_most-max :
    (v : ℕ) (rows : List (ℕ × ℕ)) (best : ℕ × ℕ) → IsFirstMost rows best → value_at v rows ≤ best.1
unfolding value_at
first_most-max v [] best m = elim m [ ]
first_most-max v (row ∷ rows) best (inl (e, all)) =
    ground (arith, value_at_le best.1 v rows all, ap (λ (r : ℕ × ℕ). r.1) e)
first_most-max v (row ∷ rows) best (inr (less, rest)) =
    ground (arith, less, first_most-max v rows best rest)
