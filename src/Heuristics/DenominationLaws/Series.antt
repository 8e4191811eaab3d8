-- ===== src/Heuristics/DenominationLaws/Series.antt =====
-- The loop of one series of denominations ends, and lists exactly its candidates within the bounds.
use coinjoin_pipeline.Base.{
  lt→ltb, ==→≡, ltb→lt, ℕ, zero, suc, ◌≡◌, ◌≤◌, ◌<◌, refl, ◌↔◌, inl, inr, true, false, List, [],
  ◌∷◌, arith, if◌then◌else◌, ltb, Bool-cases, Option, some, ◌==◌, string_equality, ◌*◌, contains,
  ◌∈◌, nat_equality,
}
use native.Mathlib.Nat.{mul-le-mul_left, mul-le-mul_right}
use coinjoin_pipeline.Heuristics.Denominations.{min_satoshis, max_satoshis, add_series}

-- The value after so many more rounds of the loop.
unfoldable pub grown : ℕ → ℕ → ℕ → ℕ
grown value factor zero = value
grown value factor (suc k) = grown (value * factor) factor k

-- What a series has: the candidates of one round or more that are within the bounds.
abbrev pub IsSeries : ℕ → ℕ → ℕ → ℕ → Type 0
IsSeries value factor multiplier d =
    (k : ℕ) × (d ≡ grown value factor (suc k) * multiplier)
    × (min_satoshis ≤ d)
    × (d ≤ max_satoshis)

double_le : (value factor : ℕ) → 2 ≤ factor → value * 2 ≤ value * factor
double_le value factor h = mul-le-mul_left value h

mul_ge : (value multiplier : ℕ) → 1 ≤ multiplier → value ≤ value * multiplier
mul_ge value multiplier h =
    let more : value * 1 ≤ value * multiplier = mul-le-mul_left value h in omega arith

grown_mono : (v w factor k : ℕ) → v ≤ w → grown v factor k ≤ grown w factor k
unfolding grown
grown_mono v w factor zero h = h
grown_mono v w factor (suc k) h =
    grown_mono (v * factor) (w * factor) factor k (mul-le-mul_right factor h)

grown_ge : (value factor k : ℕ) → 2 ≤ factor → value ≤ grown value factor k
unfolding grown
grown_ge value factor zero h = omega arith
grown_ge value factor (suc k) h =
    omega (arith, grown_ge (value * factor) factor k h, double_le value factor h)

-- No later candidate is within the bounds once one is above them.
above_max :
    (value factor multiplier d : ℕ)
    → 2 ≤ factor
    → max_satoshis < value * factor * multiplier
    → IsSeries value factor multiplier d
    → ⊥
unfolding grown
above_max value factor multiplier d f h (k, same, low, high) =
    let more : value * factor * multiplier ≤ grown (value * factor) factor k * multiplier =
      mul-le-mul_right multiplier (grown_ge (value * factor) factor k f) in
    omega (arith, same)

abbrev listed : ℕ → List ℕ → List ℕ
listed candidate later = if ltb candidate min_satoshis then later else candidate ∷ later

listed_round :
    (value factor multiplier d : ℕ) (later : List ℕ) (k : ℕ)
    → ltb max_satoshis (value * factor * multiplier) ≡ false
    → (IsSeries (value * factor) factor multiplier d → d ∈ later)
    → d ≡ grown value factor (suc k) * multiplier
    → min_satoshis ≤ d
    → d ≤ max_satoshis
    → d ∈ listed (value * factor * multiplier) later
unfolding grown contains
listed_round value factor multiplier d later zero n complete same low high =
    ground (arith, nat_equality.equals_iff d (value * factor * multiplier))
listed_round value factor multiplier d later (suc k) n complete same low high =
    let m = complete (k, same, low, high) in ground arith

-- One round adds its candidate, if that is within the bounds.
listed_iff :
    (value factor multiplier d : ℕ) (later : List ℕ)
    → ltb max_satoshis (value * factor * multiplier) ≡ false
    → (d ∈ later) ↔ IsSeries (value * factor) factor multiplier d
    → (d ∈ listed (value * factor * multiplier) later) ↔ IsSeries value factor multiplier d
unfolding grown contains
listed_iff value factor multiplier d later n (sound, complete) = (
  λ m. elim (Bool-cases (d == value * factor * multiplier)) [
    | inl y ↦ elim (Bool-cases (ltb (value * factor * multiplier) min_satoshis)) [
      | inl low ↦ let (k, same, p, q) = sound (rw low at m) in (suc k, same, p, q)
      | inr high ↦ (0, ==→≡ d _ y, ground arith, ground arith)
    ]
    | inr other ↦ let (k, same, p, q) = sound (ground arith) in (suc k, same, p, q)
  ],
  λ (k, same, low, high). listed_round value factor multiplier d later k n complete same low high,
)

-- The values that the loop returns are exactly its candidates within the bounds.
abbrev pub IsListed : ℕ → ℕ → ℕ → Option (List ℕ) → Type 0
IsListed value factor multiplier result =
    (values : List ℕ) × (result ≡ some values)
    × ((d : ℕ) → (d ∈ values) ↔ IsSeries value factor multiplier d)

add_series-last :
    (fuel value factor multiplier : ℕ)
    → 2 ≤ factor
    → ltb max_satoshis (value * factor * multiplier) ≡ true
    → IsListed value factor multiplier (add_series (suc fuel) value factor multiplier)
unfolding add_series contains
add_series-last fuel value factor multiplier f y = (
  [],
  rw y refl,
  λ d. (
    λ p. absurd (ground arith),
    λ p. absurd (above_max value factor multiplier d f (ltb→lt _ _ y) p),
  ),
)

add_series-next :
    (fuel value factor multiplier : ℕ)
    → ltb max_satoshis (value * factor * multiplier) ≡ false
    → IsListed
        (value * factor)
        factor
        multiplier
        (add_series fuel (value * factor) factor multiplier)
    → IsListed value factor multiplier (add_series (suc fuel) value factor multiplier)
unfolding add_series
add_series-next fuel value factor multiplier n (later, e, later_iff) = (
  listed (value * factor * multiplier) later,
  rw (n, e) refl,
  λ d. listed_iff value factor multiplier d later n (later_iff d),
)

-- Given fuel for as many doublings as exceed the greatest amount, the loop ends, and has listed
-- exactly the candidates of its rounds that are within the bounds.
pub add_series_lem :
    (fuel value factor multiplier : ℕ)
    → max_satoshis < grown value 2 (suc fuel)
    → 2 ≤ factor
    → 1 ≤ multiplier
    → IsListed value factor multiplier (add_series (suc fuel) value factor multiplier)
unfolding grown
add_series_lem zero value factor multiplier enough f m =
    add_series-last 0 value factor multiplier f
      (lt→ltb _ _ (omega (arith, double_le value factor f, mul_ge (value * factor) multiplier m)))
add_series_lem (suc fuel) value factor multiplier enough f m =
    elim (Bool-cases (ltb max_satoshis (value * factor * multiplier))) [
      | inl y ↦ add_series-last (suc fuel) value factor multiplier f y
      | inr n ↦ add_series-next (suc fuel) value factor multiplier n (
          add_series_lem fuel (value * factor) factor multiplier
            (omega (
              arith,
              grown_mono (value * 2 * 2) (value * factor * 2) 2 fuel
                  (mul-le-mul_right 2 (double_le value factor f)),
            ))
            f m)
    ]
