-- ===== src/Liquidity/Fin.antt =====
-- liquidity.py: `fin_evaluation`, how the observed curve reveals the entry and the spends of the
-- wallets `owners`. The place of the greatest inflow is looked up in the coinjoins, and `none` is the
-- `IndexError` where it is not there. The rates, rounded quotients of these sums, are left
-- out.
use coinjoin_pipeline.Base.{
  ℕ, ◌+◌, String, Bool, true, false, List, [], ◌∷◌, ◌++◌, leb, Option, none, some, get_elem?, ◌==◌,
  ◌&&◌, if◌then◌else◌, pos, ℤ, nat_equality,
}
use coinjoin_pipeline.Liquidity.Records.{MixEvent, InputItem, OutputItem, Coinjoin, event_eq}
use coinjoin_pipeline.Liquidity.Series.{Point, sum_inputs, is_owned, value_of}
use coinjoin_pipeline.Liquidity.Summary.{peak_of, descending_window}

unfoldable pub enters : List Point → List ℤ
enters [] = []
enters (point ∷ points) = pos point.enter ∷ enters points

unfoldable pub interims : List Point → List ℤ
interims [] = []
interims (point ∷ points) = point.interim ∷ interims points

-- `observed["enter"].index(max(observed["enter"]))`, where there is one
unfoldable pub entry_index : List ℤ → Option ℕ
unfolding peak_of
entry_index [] = none
entry_index (value ∷ values) = some (peak_of value values).0

unfoldable pub entry_inputs : List Coinjoin → Option ℕ → Option (List InputItem)
entry_inputs coinjoins none = some []
entry_inputs coinjoins (some index) = elim (get_elem? coinjoins index) [
  | some coinjoin ↦ some coinjoin.inputs
  | none ↦ none
]

unfoldable pub leaving_outputs : ℕ → List OutputItem → List (ℕ × OutputItem)
leaving_outputs index [] = []
leaving_outputs index (item ∷ items) =
    let rest = leaving_outputs index items in
    if item.event == MixEvent.leave then (index, item) ∷ rest else rest

unfoldable pub leaving : List Coinjoin → List (ℕ × OutputItem)
unfolding leaving_outputs
leaving [] = []
leaving (coinjoin ∷ coinjoins) =
    leaving_outputs coinjoin.index coinjoin.outputs ++ leaving coinjoins

unfoldable pub sum_leaving : (ℕ × OutputItem → Bool) → List (ℕ × OutputItem) → ℕ
unfolding value_of
sum_leaving p [] = 0
sum_leaving p (row ∷ rows) =
    let rest = sum_leaving p rows in if p row then value_of row.1.value + rest else rest

abbrev pub in_window : Option (ℕ × ℕ) → ℕ × OutputItem → Bool
in_window none row = false
in_window (some (first, last)) row = leb first row.0 && leb row.0 last

-- The sums of the evaluation.
pub record FinSums : Type 0 where
  pub observed_entry_index : Option ℕ
  pub entry_total : ℕ
  pub entry_wallet : ℕ
  pub descending_window : Option (ℕ × ℕ)
  pub all_left : ℕ
  pub wallet_left : ℕ
  pub window_left : ℕ
  pub window_wallet_left : ℕ

abbrev pub of_wallets : List String → ℕ × OutputItem → Bool
of_wallets owners row = is_owned (some owners) row.1.wallet

abbrev pub is_enter : InputItem → Bool
is_enter item = item.event == MixEvent.enter

abbrev pub sums_of : List Coinjoin → List Point → List String → List InputItem → FinSums
sums_of coinjoins observed owners inputs =
    let window = descending_window (interims observed) in
    let rows = leaving coinjoins in
    record {
      observed_entry_index = entry_index (enters observed);
      entry_total = sum_inputs is_enter inputs;
      entry_wallet =
          sum_inputs (λ item. is_enter item && is_owned (some owners) item.wallet) inputs;
      descending_window = window;
      all_left = sum_leaving (λ row. true) rows;
      wallet_left = sum_leaving (of_wallets owners) rows;
      window_left = sum_leaving (in_window window) rows;
      window_wallet_left = sum_leaving (λ row. in_window window row && of_wallets owners row) rows;
    }

unfoldable pub fin_sums : List Coinjoin → List Point → List String → Option FinSums
unfolding entry_inputs entry_index enters interims leaving sum_leaving sum_inputs is_owned
    descending_window
fin_sums coinjoins observed owners = elim (entry_inputs coinjoins (entry_index (enters observed))) [
  | some inputs ↦ some (sums_of coinjoins observed owners inputs)
  | none ↦ none
]
