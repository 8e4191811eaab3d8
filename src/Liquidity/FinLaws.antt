-- ===== src/Liquidity/FinLaws.antt =====
-- The sums of `fin_evaluation`, in liquidity.py, and the totals of the series they belong to.
use coinjoin_pipeline.Base.{
  ℕ, zero, suc, ◌+◌, ◌≡◌, ◌≤◌, ◌<◌, refl, inl, inr, String, Bool, true, List, [], ◌∷◌, ◌++◌, arith,
  Option, none, some, get_elem?, length, Bool-cases, ℤ, ltb_ℤ, string_equality, nat_equality, ap,
}
use coinjoin_pipeline.Liquidity.Records.{InputItem, OutputItem, Coinjoin, event_eq}
use coinjoin_pipeline.Liquidity.Series.{
  sum_inputs, sum_outputs, owned_outputs, is_leaving, is_owned, EventField, Totals, series_from,
  series_step, liquidity_series, empty_totals,
}
use coinjoin_pipeline.Liquidity.Summary.{peak_of, raise_peak, descending_window}
use coinjoin_pipeline.Liquidity.Totals.{sum_of, series_totals, SeriesTotals}
use coinjoin_pipeline.Liquidity.Fin.{
  enters, interims, entry_index, entry_inputs, leaving, leaving_outputs, sum_leaving, in_window,
  of_wallets, is_enter, FinSums, sums_of, fin_sums,
}

sum_leaving_mono :
    (p q : ℕ × OutputItem → Bool)
    → ((row : ℕ × OutputItem) → p row ≡ true → q row ≡ true)
    → (rows : List (ℕ × OutputItem)) → sum_leaving p rows ≤ sum_leaving q rows
unfolding sum_leaving
sum_leaving_mono p q h [] = omega arith
sum_leaving_mono p q h (row ∷ rows) = ground (arith, h row, sum_leaving_mono p q h rows)

sum_inputs_mono :
    (p q : InputItem → Bool)
    → ((item : InputItem) → p item ≡ true → q item ≡ true)
    → (items : List InputItem) → sum_inputs p items ≤ sum_inputs q items
unfolding sum_inputs
sum_inputs_mono p q h [] = omega arith
sum_inputs_mono p q h (item ∷ items) = ground (arith, h item, sum_inputs_mono p q h items)

peak_of-inside : (value : ℤ) (values : List ℤ) → (peak_of value values).0 ≤ length values
unfolding peak_of raise_peak
peak_of-inside value [] = omega arith
peak_of-inside value (v ∷ values) = elim (Bool-cases (ltb_ℤ value (peak_of v values).1)) [
  | inl y ↦ rw (y, peak_of, raise_peak) (omega (arith, peak_of-inside v values))
  | inr n ↦ rw (n, peak_of, raise_peak) (omega arith)
]

get_elem?-there {ℓ} :
    {A : Type ℓ} → (xs : List A) (i : ℕ) → i < length xs → (x : A) × (get_elem? xs i ≡ some x)
get_elem?-there [] i h = absurd (omega (arith, h))
get_elem?-there (x ∷ xs) zero h = (x, refl)
get_elem?-there (x ∷ xs) (suc i) h = get_elem?-there xs i (omega (arith, h))

length-enters :
    (field : EventField) (owners : Option (List String)) (totals : Totals)
    (coinjoins : List Coinjoin)
    → length (enters (series_from field owners totals coinjoins)) ≡ length coinjoins
unfolding enters series_from
length-enters field owners totals [] = refl
length-enters field owners totals (c ∷ cs) =
    ap suc (length-enters field owners (series_step field owners totals c).0 cs)

-- A greatest value stands at the place of a coinjoin.
entry_inputs-there :
    (coinjoins : List Coinjoin) (values : List ℤ)
    → length values ≡ length coinjoins
    → (inputs : List InputItem) × (entry_inputs coinjoins (entry_index values) ≡ some inputs)
unfolding entry_index entry_inputs
entry_inputs-there coinjoins [] e = ([], refl)
entry_inputs-there coinjoins (value ∷ values) e =
    let (coinjoin, there) =
      get_elem?-there coinjoins (peak_of value values).0
        (omega (arith, e, peak_of-inside value values)) in
    (coinjoin.inputs, rw (there, entry_inputs) refl)

sum_leaving-append :
    (p : ℕ × OutputItem → Bool) (xs ys : List (ℕ × OutputItem))
    → sum_leaving p (xs ++ ys) ≡ sum_leaving p xs + sum_leaving p ys
unfolding sum_leaving
sum_leaving-append p [] ys = omega arith
sum_leaving-append p (x ∷ xs) ys = ground (arith, sum_leaving-append p xs ys)

-- What leaves one coinjoin to some wallets, in the evaluation and in the series.
sum_leaving-outputs :
    (owners : Option (List String)) (index : ℕ) (items : List OutputItem)
    → sum_leaving (λ row. is_owned owners row.1.wallet) (leaving_outputs index items)
      ≡ sum_outputs (is_leaving EventField.ground_truth) (owned_outputs owners items)
unfolding sum_leaving leaving_outputs sum_outputs owned_outputs
sum_leaving-outputs owners index [] = refl
sum_leaving-outputs owners index (item ∷ items) =
    ground (arith, sum_leaving-outputs owners index items)

sum_leaving-series :
    (owners : Option (List String)) (totals : Totals) (coinjoins : List Coinjoin)
    → sum_leaving (λ row. is_owned owners row.1.wallet) (leaving coinjoins)
      ≡ sum_of (λ p. p.leave) (series_from EventField.ground_truth owners totals coinjoins)
unfolding sum_leaving leaving sum_of series_from series_step
sum_leaving-series owners totals [] = refl
sum_leaving-series owners totals (c ∷ cs) =
    let next = (series_step EventField.ground_truth owners totals c).0 in
    rw
      (
        sum_leaving-append (λ row. is_owned owners row.1.wallet) (leaving_outputs c.index c.outputs)
            (leaving cs),
        sum_leaving-outputs owners c.index c.outputs,
        sum_leaving-series owners next cs,
      )
      refl

-- The evaluation is computed from some inputs of a coinjoin.
fin_sums-there :
    (coinjoins : List Coinjoin) (field : EventField) (owners : List String)
    → (inputs : List InputItem) × (fin_sums coinjoins (liquidity_series coinjoins field none) owners
        ≡ some (sums_of coinjoins (liquidity_series coinjoins field none) owners inputs))
unfolding fin_sums liquidity_series
fin_sums-there coinjoins field owners =
    let (inputs, there) =
      entry_inputs-there coinjoins (enters (liquidity_series coinjoins field none))
        (length-enters field none empty_totals coinjoins) in
    (inputs, rw (there, fin_sums) refl)

-- Against the series of all wallets, of any event field, the evaluation of some wallets is computed,
-- and no share is above one: what the wallets entered with, spent, and spent in the window is at most
-- what all did, and what is spent in the window is at most what is spent.
pub fin_sums-shares :
    (coinjoins : List Coinjoin) (field : EventField) (owners : List String)
    → (s : FinSums) × (fin_sums coinjoins (liquidity_series coinjoins field none) owners ≡ some s)
      × (s.entry_wallet ≤ s.entry_total)
      × (s.wallet_left ≤ s.all_left)
      × (s.window_left ≤ s.all_left)
      × (s.window_wallet_left ≤ s.window_left)
      × (s.window_wallet_left ≤ s.wallet_left)
fin_sums-shares coinjoins field owners =
    let observed = liquidity_series coinjoins field none in
    let (inputs, computed) = fin_sums-there coinjoins field owners in
    let rows = leaving coinjoins in
    let window = in_window (descending_window (interims observed)) in
    (
      sums_of coinjoins observed owners inputs,
      computed,
      sum_inputs_mono _ is_enter (λ item h. ground (arith, h)) inputs,
      sum_leaving_mono (of_wallets owners) _ (λ row h. refl) rows,
      sum_leaving_mono window _ (λ row h. refl) rows,
      sum_leaving_mono _ window (λ row h. ground (arith, h)) rows,
      sum_leaving_mono _ (of_wallets owners) (λ row h. ground (arith, h)) rows,
    )

-- Of one coinjoin or more, against the series of any event field, the evaluation is computed, and what
-- it counts as leaving, of all wallets and of some, is the total that left in the series of their
-- ground truth.
pub fin_sums-series_totals :
    (coinjoin : Coinjoin) (coinjoins : List Coinjoin) (field : EventField) (owners : List String)
    → (s : FinSums) × (t : SeriesTotals) × (all : SeriesTotals) × (fin_sums
          (coinjoin ∷ coinjoins)
          (liquidity_series (coinjoin ∷ coinjoins) field none)
          owners
        ≡ some s)
      × (series_totals
            (liquidity_series (coinjoin ∷ coinjoins) EventField.ground_truth (some owners))
          ≡ some t)
      × (series_totals (liquidity_series (coinjoin ∷ coinjoins) EventField.ground_truth none)
          ≡ some all)
      × (s.wallet_left ≡ t.left_sats)
      × (s.all_left ≡ all.left_sats)
unfolding series_totals liquidity_series is_owned series_from
fin_sums-series_totals coinjoin coinjoins field owners =
    let (inputs, computed) = fin_sums-there (coinjoin ∷ coinjoins) field owners in
    (
      _,
      _,
      _,
      computed,
      refl,
      refl,
      sum_leaving-series (some owners) empty_totals (coinjoin ∷ coinjoins),
      sum_leaving-series none empty_totals (coinjoin ∷ coinjoins),
    )
