-- ===== src/Heuristics/DenominationLaws.antt =====
-- The denominations are computed, from the bounds and the series.
mod Series
use Series.{IsSeries, grown, add_series_lem}
use coinjoin_pipeline.Base.{
  contains-append, ℕ, ◌+◌, ◌≡◌, ◌≤◌, ◌<◌, refl, ◌↔◌, ◌⊎◌, inl, inr, List, [], ◌∷◌, ◌++◌, arith,
  Bool-cases, some, contains, ◌∈◌, nat_equality,
}
use coinjoin_pipeline.Heuristics.Denominations.{
  min_satoshis, max_satoshis, add_all, denomination_series, wasabi2_blocksci_denominations,
}

-- An amount is one of the bounds, or in one of the series of base, factor and multiplier.
abbrev pub IsDenomination : List (ℕ × ℕ × ℕ) → ℕ → Type 0
IsDenomination [] d = (d ≡ min_satoshis) ⊎ (d ≡ max_satoshis)
IsDenomination ((base, factor, multiplier) ∷ series) d =
    IsSeries base factor multiplier d ⊎ IsDenomination series d

abbrev CanEnd : List (ℕ × ℕ × ℕ) → Type 0
CanEnd [] = Unit
CanEnd ((base, factor, multiplier) ∷ series) =
    ((max_satoshis < grown base 2 64) × (2 ≤ factor) × (1 ≤ multiplier)) × CanEnd series

bounds_iff :
    (d : ℕ) → (d ∈ min_satoshis ∷ max_satoshis ∷ []) ↔ ((d ≡ min_satoshis) ⊎ (d ≡ max_satoshis))
unfolding contains
bounds_iff d = ground arith

append_iff {ℓ κ} :
    (d : ℕ) (xs ys : List ℕ) (P : Type ℓ) (Q : Type κ)
    → (d ∈ xs) ↔ P
    → (d ∈ ys) ↔ Q
    → (d ∈ xs ++ ys) ↔ (P ⊎ Q)
append_iff d xs ys P Q p q = (
  λ m. elim (Bool-cases (contains d xs)) [
    | inl y ↦ inl (p.0 y)
    | inr n ↦ inr (q.0 (ground (arith, contains-append d xs ys)))
  ],
  λ s. elim s [
    | inl x ↦ let y = p.1 x in ground (arith, contains-append d xs ys)
    | inr x ↦ let y = q.1 x in ground (arith, contains-append d xs ys)
  ],
)

add_all_lem :
    (series : List (ℕ × ℕ × ℕ))
    → CanEnd series
    → (values : List ℕ) × (add_all series ≡ some values)
      × ((d : ℕ) → (d ∈ values) ↔ IsDenomination series d)
unfolding add_all
add_all_lem [] ends = (min_satoshis ∷ max_satoshis ∷ [], refl, λ d. bounds_iff d)
add_all_lem ((base, factor, multiplier) ∷ series) ((enough, f, m), ends) =
    let (values, e, values_iff) = add_series_lem 63 base factor multiplier enough f m in
    let (rest, g, rest_iff) = add_all_lem series ends in
    (values ++ rest, rw (e, g) refl, λ d. append_iff d values rest _ _ (values_iff d) (rest_iff d))

grows :
    (max_satoshis < grown 1 2 64) × (max_satoshis < grown 3 2 64) × (max_satoshis < grown 10 2 64)
unfolding grown
grows = (omega arith, omega arith, omega arith)

two_le : (n : ℕ) → 2 ≤ n + 2
two_le n = omega arith

series_end : CanEnd denomination_series
series_end =
    let (two, three, ten) = grows in
    let f : (2 ≤ 2) × (2 ≤ 3) × (2 ≤ 10) = (two_le 0, two_le 1, two_le 8) in
    let m : (1 ≤ 1) × (1 ≤ 2) × (1 ≤ 5) = (omega arith, omega arith, omega arith) in
    (
      (two, f.0, m.0),
      (
        (three, f.1, m.0),
        ((three, f.1, m.1), ((ten, f.2, m.0), ((ten, f.2, m.1), ((ten, f.2, m.2), tt)))),
      ),
    )

-- The denominations are computed, and are the bounds and, within the bounds, the powers of 2 and of
-- 3, twice the powers of 3, and once, twice and five times the powers of 10; the series of 3 starts
-- at 9 and the series of 10 at 100.
pub wasabi2_blocksci_denominations_lem :
    (values : List ℕ) × (wasabi2_blocksci_denominations ≡ some values)
    × ((d : ℕ) → (d ∈ values) ↔ IsDenomination denomination_series d)
unfolding wasabi2_blocksci_denominations
wasabi2_blocksci_denominations_lem = add_all_lem denomination_series series_end
