-- ===== src/Liquidity/Samples.antt =====
-- The theorems applied to two coinjoins, and tests of the functions on them.
mod Chain
use Chain.{transactions, none_right, order, coinjoins, first, second, second_output}
use coinjoin_pipeline.Base.{
  ℕ, ◌≡◌, ◌≢◌, ◌≤◌, refl, Option, String, false, List, [], ◌∷◌, ◌++◌, take, arith, none, some,
  string_equality, get_elem?, contains, ℤ, pos, ◌≤ℤ◌, ◌+ℤ◌, ◌-ℤ◌, ◌∈◌, IsDistinct,
}
use coinjoin_pipeline.Liquidity.Boundary.{classify_coinjoins-IsBoundary, IsBoundary}
use coinjoin_pipeline.Liquidity.Classify.{outpoint_eq, classify_coinjoins}
use coinjoin_pipeline.Liquidity.Conservation.{liquidity_series-interim, inflow, outflow}
use coinjoin_pipeline.Liquidity.Outstanding.{all_created, created}
use coinjoin_pipeline.Liquidity.Unspent.{liquidity_series-unmoved, unspent}
use coinjoin_pipeline.Liquidity.Owners.{liquidity_series-disjoint}
use coinjoin_pipeline.Liquidity.Series.{EventField, Point, liquidity_series}
use coinjoin_pipeline.Liquidity.Fin.{FinSums, fin_sums}
use coinjoin_pipeline.Liquidity.Totals.{SeriesTotals, series_totals}
use coinjoin_pipeline.Liquidity.FinLaws.{fin_sums-shares, fin_sums-series_totals}
use coinjoin_pipeline.Liquidity.Summary.{descending_window}
use coinjoin_pipeline.Liquidity.WindowLaws.{descending_window_lem, IsPeak}

classified : classify_coinjoins none_right order transactions [] [] ≡ some coinjoins
unfolding classify_coinjoins
classified = refl

-- At the second coinjoin, of all wallets and of the two alone.
abbrev point : Point
point = record {
  enter = 0;
  leave = 6;
  stay = 0;
  interim = pos 6;
  interim_fast_leave = pos 6;
  unmoved_window = pos 4;
  active_remix = pos 2;
}

abbrev of_alice : Point
of_alice = record {
  enter = 0;
  leave = 6;
  stay = 0;
  interim = pos 1;
  interim_fast_leave = pos 1;
  unmoved_window = pos 0;
  active_remix = pos 1;
}

abbrev of_bob : Point
of_bob = record {
  enter = 0;
  leave = 0;
  stay = 0;
  interim = pos 5;
  interim_fast_leave = pos 5;
  unmoved_window = pos 4;
  active_remix = pos 1;
}

abbrev alice : List String
alice = "alice" ∷ []

abbrev bob : List String
bob = "bob" ∷ []

point_at : get_elem? (liquidity_series coinjoins EventField.ground_truth none) 1 ≡ some point
unfolding liquidity_series ◌+ℤ◌ ◌-ℤ◌
point_at = refl

both_at :
    get_elem? (liquidity_series coinjoins EventField.ground_truth (some (alice ++ bob))) 1
    ≡ some point
unfolding liquidity_series ◌+ℤ◌ ◌-ℤ◌
both_at = refl

alice_at :
    get_elem? (liquidity_series coinjoins EventField.ground_truth (some alice)) 1 ≡ some of_alice
unfolding liquidity_series ◌+ℤ◌ ◌-ℤ◌
alice_at = refl

bob_at : get_elem? (liquidity_series coinjoins EventField.ground_truth (some bob)) 1 ≡ some of_bob
unfolding liquidity_series ◌+ℤ◌ ◌-ℤ◌
bob_at = refl

disjoint_names : (a b w : String) → a ≢ b → w ∈ a ∷ [] → contains w (b ∷ []) ≡ false
unfolding contains
disjoint_names a b w n h =
    ground (arith, string_equality.equals_iff w a, string_equality.equals_iff w b)

alice_not_bob : ◌≢◌ {A = String} "alice" "bob"
alice_not_bob = ground (arith, string_equality.equals_iff "alice" "bob")

disjoint_wallets : (w : String) → w ∈ alice → contains w bob ≡ false
disjoint_wallets w h = disjoint_names "alice" "bob" w alice_not_bob h

created_once : IsDistinct (all_created coinjoins)
unfolding all_created created contains
created_once = (refl, (refl, (refl, tt)))

liquidity_series-interim_example :
    (point.interim +ℤ pos (outflow EventField.ground_truth none (take 2 coinjoins))
      ≡ pos (inflow EventField.ground_truth none (take 2 coinjoins)))
    × (point.active_remix +ℤ point.unmoved_window ≡ point.interim)
liquidity_series-interim_example =
    liquidity_series-interim EventField.ground_truth none coinjoins 1 point point_at

liquidity_series-disjoint_example : point.interim ≡ of_alice.interim +ℤ of_bob.interim
liquidity_series-disjoint_example =
    liquidity_series-disjoint alice bob disjoint_wallets coinjoins EventField.ground_truth 1 point
      of_alice of_bob both_at alice_at bob_at

liquidity_series-unmoved_example :
    point.unmoved_window ≡ pos (unspent EventField.ground_truth none (take 2 coinjoins))
liquidity_series-unmoved_example =
    liquidity_series-unmoved EventField.ground_truth none coinjoins 1 point created_once point_at

classify_coinjoins-IsBoundary_example :
    IsBoundary order transactions ("b", 0) second_output.event second_output.spent_by
classify_coinjoins-IsBoundary_example =
    classify_coinjoins-IsBoundary none_right order transactions [] [] coinjoins 1 0 second
      second_output classified refl refl

descending_window_lem_example :
    (peak trough : ℕ) × (top low : ℤ) × (descending_window (pos 2 ∷ pos 9 ∷ pos 4 ∷ [])
      ≡ some (peak, trough))
    × (peak ≤ trough)
    × IsPeak (pos 2 ∷ pos 9 ∷ pos 4 ∷ []) peak top
    × (get_elem? (pos 2 ∷ pos 9 ∷ pos 4 ∷ []) trough ≡ some low)
    × ((i : ℕ) (v : ℤ) → peak ≤ i → get_elem? (pos 2 ∷ pos 9 ∷ pos 4 ∷ []) i ≡ some v → low ≤ℤ v)
descending_window_lem_example = descending_window_lem (pos 2) (pos 9 ∷ pos 4 ∷ [])

-- What leaves of one wallet and of all.
abbrev left_of : Option FinSums → List ℕ
left_of none = []
left_of (some s) = s.wallet_left ∷ s.all_left ∷ []

left_of-alice :
    left_of (fin_sums coinjoins (liquidity_series coinjoins EventField.ground_truth none) alice)
    ≡ 6 ∷ 6 ∷ []
unfolding fin_sums liquidity_series
left_of-alice = refl

fin_sums-shares_example :
    (s : FinSums) × (fin_sums coinjoins
        (liquidity_series coinjoins EventField.ground_truth none)
        alice
      ≡ some s)
    × (s.entry_wallet ≤ s.entry_total)
    × (s.wallet_left ≤ s.all_left)
    × (s.window_left ≤ s.all_left)
    × (s.window_wallet_left ≤ s.window_left)
    × (s.window_wallet_left ≤ s.wallet_left)
fin_sums-shares_example = fin_sums-shares coinjoins EventField.ground_truth alice

fin_sums-series_totals_example :
    (s : FinSums) × (t : SeriesTotals) × (all : SeriesTotals) × (fin_sums coinjoins
        (liquidity_series coinjoins EventField.ground_truth none)
        alice
      ≡ some s)
    × (series_totals (liquidity_series coinjoins EventField.ground_truth (some alice)) ≡ some t)
    × (series_totals (liquidity_series coinjoins EventField.ground_truth none) ≡ some all)
    × (s.wallet_left ≡ t.left_sats)
    × (s.all_left ≡ all.left_sats)
fin_sums-series_totals_example =
    fin_sums-series_totals first (second ∷ []) EventField.ground_truth alice
