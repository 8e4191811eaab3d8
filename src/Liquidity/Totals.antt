-- ===== src/Liquidity/Totals.antt =====
-- liquidity.py: `series_totals`. An empty series is an `IndexError`, here `none`.
use coinjoin_pipeline.Base.{ℕ, List, [], ◌∷◌, Option, none, some, ℤ, ◌+◌}
use coinjoin_pipeline.Liquidity.Series.{Point}
use coinjoin_pipeline.Liquidity.Summary.{peak_of}
use coinjoin_pipeline.Liquidity.Fin.{interims}

pub record SeriesTotals : Type 0 where
  pub entered_sats : ℕ
  pub left_sats : ℕ
  pub stayed_sats : ℕ
  pub final_interim_sats : ℤ
  pub peak_interim_sats : ℤ

unfoldable pub sum_of : (Point → ℕ) → List Point → ℕ
sum_of field [] = 0
sum_of field (point ∷ points) = field point + sum_of field points

-- `values[-1]` of a nonempty list
unfoldable pub last_of : ℤ → List ℤ → ℤ
last_of value [] = value
last_of value (v ∷ values) = last_of v values

unfoldable pub series_totals : List Point → Option SeriesTotals
unfolding sum_of last_of interims peak_of
series_totals [] = none
series_totals (point ∷ points) = some record {
  entered_sats = sum_of (λ p. p.enter) (point ∷ points);
  left_sats = sum_of (λ p. p.leave) (point ∷ points);
  stayed_sats = sum_of (λ p. p.stay) (point ∷ points);
  final_interim_sats = last_of point.interim (interims points);
  peak_interim_sats = (peak_of point.interim (interims points)).1;
}
