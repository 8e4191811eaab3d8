-- ===== src/Heuristics/Denominations.antt =====
-- heuristics.py: `wasabi2_blocksci_denominations`. The loop of `add_series` has fuel, and without any
-- left it has no result.
use coinjoin_pipeline.Base.{
  ℕ, zero, suc, List, [], ◌∷◌, ◌++◌, if◌then◌else◌, ltb, Option, none, some, string_equality, ◌*◌,
  nat_equality,
}

abbrev pub min_satoshis : ℕ
min_satoshis = 5000

abbrev pub max_satoshis : ℕ
max_satoshis = 134375000000

unfoldable pub add_series : ℕ → ℕ → ℕ → ℕ → Option (List ℕ)
add_series zero value factor multiplier = none
add_series (suc fuel) value factor multiplier =
    let next = value * factor in
    let candidate = next * multiplier in
    if ltb max_satoshis candidate then some [] else elim (add_series fuel next factor multiplier) [
      | none ↦ none
      | some later ↦ some (if ltb candidate min_satoshis then later else candidate ∷ later)
    ]

unfoldable pub join_values : Option (List ℕ) → Option (List ℕ) → Option (List ℕ)
join_values (some values) (some rest) = some (values ++ rest)
join_values _ _ = none

-- The series one after the other.
unfoldable pub add_all : List (ℕ × ℕ × ℕ) → Option (List ℕ)
unfolding join_values
add_all [] = some (min_satoshis ∷ max_satoshis ∷ [])
add_all ((base, factor, multiplier) ∷ series) =
    join_values (add_series 64 base factor multiplier) (add_all series)

abbrev pub denomination_series : List (ℕ × ℕ × ℕ)
denomination_series =
    (1, 2, 1) ∷ (3, 3, 1) ∷ (3, 3, 2) ∷ (10, 10, 1) ∷ (10, 10, 2) ∷ (10, 10, 5) ∷ []

unfoldable pub wasabi2_blocksci_denominations : Option (List ℕ)
wasabi2_blocksci_denominations = add_all denomination_series
