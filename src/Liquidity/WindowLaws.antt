-- ===== src/Liquidity/WindowLaws.antt =====
-- The descending window runs from the first peak to the lowest point after it.
use coinjoin_pipeline.Base.{
  ℕ, zero, suc, ◌+◌, ◌-◌, ◌≡◌, ◌≤◌, ◌<◌, refl, sym, ap, ◌∙◌, inl, inr, true, false, List, [], ◌∷◌,
  drop, arith, Bool-cases, some, subst, string_equality, get_elem?, nat_equality, ℤ, ltb_ℤ, ◌≤ℤ◌,
}
use coinjoin_pipeline.Liquidity.Summary.{
  peak_of, raise_peak, trough_of, lower_trough, window_from, descending_window,
}

-- The value stands at the place, no value is above it, and the ones before are below it.
abbrev pub IsPeak : List ℤ → ℕ → ℤ → Type 0
IsPeak values place top =
    (get_elem? values place ≡ some top)
    × ((i : ℕ) (v : ℤ) → get_elem? values i ≡ some v → v ≤ℤ top)
    × ((i : ℕ) (v : ℤ) → i < place → get_elem? values i ≡ some v → ltb_ℤ v top ≡ true)

abbrev pub IsTrough : List ℤ → ℕ → ℤ → Type 0
IsTrough values place low =
    (get_elem? values place ≡ some low) × ((i : ℕ) (v : ℤ) → get_elem? values i ≡ some v → low ≤ℤ v)

abbrev IsPeakAt : List ℤ → ℕ × ℤ → Type 0
IsPeakAt values p = IsPeak values p.0 p.1

abbrev IsTroughAt : List ℤ → ℕ × ℤ → Type 0
IsTroughAt values p = IsTrough values p.0 p.1

only_value : (value v : ℤ) (i : ℕ) → get_elem? (value ∷ []) i ≡ some v → value ≡ v
only_value value v zero e = cc e
only_value value v (suc i) e = cc e

le_of_eq : (a b : ℤ) → a ≡ b → b ≤ℤ a
le_of_eq a b e = subst (λ x. x ≤ℤ a) e (omega arith)

raise_above :
    (value top v : ℤ) (values : List ℤ) (i : ℕ)
    → ltb_ℤ value top ≡ true
    → ((k : ℕ) (w : ℤ) → get_elem? values k ≡ some w → w ≤ℤ top)
    → get_elem? (value ∷ values) i ≡ some v
    → v ≤ℤ top
raise_above value top v values zero h all e =
    let same : value ≡ v = cc e in subst (λ x. x ≤ℤ top) same (ground arith)
raise_above value top v values (suc i) h all e = all i v e

raise_before :
    (value top v : ℤ) (values : List ℤ) (place i : ℕ)
    → ltb_ℤ value top ≡ true
    → ((k : ℕ) (w : ℤ) → k < place → get_elem? values k ≡ some w → ltb_ℤ w top ≡ true)
    → i < suc place
    → get_elem? (value ∷ values) i ≡ some v
    → ltb_ℤ v top ≡ true
raise_before value top v values place zero h all l e =
    let same : value ≡ v = cc e in subst (λ x. ltb_ℤ x top ≡ true) same h
raise_before value top v values place (suc i) h all l e = all i v (omega arith) e

new_above :
    (value top v : ℤ) (values : List ℤ) (i : ℕ)
    → ltb_ℤ value top ≡ false
    → ((k : ℕ) (w : ℤ) → get_elem? values k ≡ some w → w ≤ℤ top)
    → get_elem? (value ∷ values) i ≡ some v
    → v ≤ℤ value
new_above value top v values zero h all e = let same : value ≡ v = cc e in le_of_eq value v same
new_above value top v values (suc i) h all e = let below = all i v e in ground arith

raise_peak-IsPeak :
    (value : ℤ) (values : List ℤ) (p : ℕ × ℤ)
    → IsPeakAt values p
    → IsPeakAt (value ∷ values) (raise_peak value p)
unfolding raise_peak
raise_peak-IsPeak value values (place, top) (at, above, before) =
    elim (Bool-cases (ltb_ℤ value top)) [
      | inl y ↦ rw y (
        at,
        λ i v e. raise_above value top v values i y above e,
        λ i v l e. raise_before value top v values place i y before l e,
      )
      | inr n ↦
          rw n (
            refl,
            λ i v e. new_above value top v values i n above e,
            λ i v l e. absurd (omega arith),
          )
    ]

peak_of-IsPeak : (value : ℤ) (values : List ℤ) → IsPeakAt (value ∷ values) (peak_of value values)
unfolding peak_of
peak_of-IsPeak value [] =
    (refl, λ i v e. le_of_eq value v (only_value value v i e), λ i v l e. absurd (omega arith))
peak_of-IsPeak value (v ∷ values) = raise_peak-IsPeak value (v ∷ values) _ (peak_of-IsPeak v values)

lower_below :
    (value low v : ℤ) (values : List ℤ) (i : ℕ)
    → ltb_ℤ low value ≡ true
    → ((k : ℕ) (w : ℤ) → get_elem? values k ≡ some w → low ≤ℤ w)
    → get_elem? (value ∷ values) i ≡ some v
    → low ≤ℤ v
lower_below value low v values zero h all e =
    let same : value ≡ v = cc e in subst (λ x. low ≤ℤ x) same (ground arith)
lower_below value low v values (suc i) h all e = all i v e

new_below :
    (value low v : ℤ) (values : List ℤ) (i : ℕ)
    → ltb_ℤ low value ≡ false
    → ((k : ℕ) (w : ℤ) → get_elem? values k ≡ some w → low ≤ℤ w)
    → get_elem? (value ∷ values) i ≡ some v
    → value ≤ℤ v
new_below value low v values zero h all e =
    let same : value ≡ v = cc e in subst (λ x. value ≤ℤ x) same (omega arith)
new_below value low v values (suc i) h all e = let below = all i v e in ground arith

lower_trough-IsTrough :
    (value : ℤ) (values : List ℤ) (p : ℕ × ℤ)
    → IsTroughAt values p
    → IsTroughAt (value ∷ values) (lower_trough value p)
unfolding lower_trough
lower_trough-IsTrough value values (place, low) (at, below) = elim (Bool-cases (ltb_ℤ low value)) [
  | inl y ↦ rw y (at, λ i v e. lower_below value low v values i y below e)
  | inr n ↦ rw n (refl, λ i v e. new_below value low v values i n below e)
]

trough_of-IsTrough :
    (value : ℤ) (values : List ℤ) → IsTroughAt (value ∷ values) (trough_of value values)
unfolding trough_of
trough_of-IsTrough value [] =
    (refl, λ i v e. subst (λ x. value ≤ℤ x) (only_value value v i e) (omega arith))
trough_of-IsTrough value (v ∷ values) =
    lower_trough-IsTrough value (v ∷ values) _ (trough_of-IsTrough v values)

-- A place that is reached has something from there on.
drop-get_elem? :
    (values : List ℤ) (place i j : ℕ)
    → j ≡ place + i
    → get_elem? (drop place values) i ≡ get_elem? values j
drop-get_elem? values zero i j e = let same : i ≡ j = omega arith in ap (get_elem? values) same
drop-get_elem? [] (suc place) i j e = refl
drop-get_elem? (v ∷ values) (suc place) i zero e = absurd (omega arith)
drop-get_elem? (v ∷ values) (suc place) i (suc j) e = drop-get_elem? values place i j (omega arith)

window_from-lem :
    (values : List ℤ) (peak : ℕ) (top : ℤ)
    → get_elem? values 0 ≡ some top
    → (trough : ℕ) × (low : ℤ) × (window_from peak values ≡ some (peak, peak + trough))
      × IsTrough values trough low
unfolding window_from
window_from-lem [] peak top e = cc e
window_from-lem (v ∷ values) peak top e =
    let (at, below) = trough_of-IsTrough v values in
    ((trough_of v values).0, (trough_of v values).1, refl, (at, below))

-- The descending window of a nonempty series starts at the first of its greatest values and ends at
-- a least value from there on.
pub descending_window_lem :
    (value : ℤ) (values : List ℤ)
    → (peak trough : ℕ) × (top low : ℤ) × (descending_window (value ∷ values) ≡ some (peak, trough))
      × (peak ≤ trough)
      × IsPeak (value ∷ values) peak top
      × (get_elem? (value ∷ values) trough ≡ some low)
      × ((i : ℕ) (v : ℤ) → peak ≤ i → get_elem? (value ∷ values) i ≡ some v → low ≤ℤ v)
unfolding descending_window
descending_window_lem value values =
    let (at, above, before) = peak_of-IsPeak value values in
    let peak : ℕ = (peak_of value values).0 in
    let top : ℤ = (peak_of value values).1 in
    let all : List ℤ = value ∷ values in
    let (trough, low, window, lowest) =
      window_from-lem (drop peak all) peak top
        (drop-get_elem? all peak 0 peak (omega arith) ∙ at) in
    let (there, below) = lowest in
    (
      peak,
      peak + trough,
      top,
      low,
      window,
      omega arith,
      (at, above, before),
      sym (drop-get_elem? all peak trough (peak + trough) refl) ∙ there,
      λ i v l e. below (i - peak) v (drop-get_elem? all peak (i - peak) i (omega arith) ∙ e),
    )
