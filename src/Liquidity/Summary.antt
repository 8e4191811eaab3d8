-- ===== src/Liquidity/Summary.antt =====
-- liquidity.py: what the report reads off the series: the first and last coinjoin, the descending
-- window, the totals, and the agreement of an analyzer with the ground truth.
use coinjoin_pipeline.Base.{
  ℕ, suc, ◌+◌, List, [], ◌∷◌, drop, if◌then◌else◌, ltb, Option, none, some, string_equality,
  nat_equality, ℤ, ltb_ℤ,
}
use coinjoin_pipeline.Liquidity.Records.{event_eq, InputItem, OutputItem, Coinjoin}
use coinjoin_pipeline.Liquidity.Series.{EventField, input_field, output_field, is_event}

-- `next((index for index, value in enumerate(values) if value > 0), None)`
unfoldable pub first_from : ℕ → List ℕ → Option ℕ
first_from index [] = none
first_from index (value ∷ values) =
    let later = first_from (suc index) values in if ltb 0 value then some index else later

unfoldable pub first_index : List ℕ → Option ℕ
unfolding first_from
first_index values = first_from 0 values

-- From the end: the last one that is positive.
unfoldable pub last_from : ℕ → List ℕ → Option ℕ
last_from index [] = none
last_from index (value ∷ values) = elim (last_from (suc index) values) [
  | some later ↦ some later
  | none ↦ if ltb 0 value then some index else none
]

unfoldable pub last_index : List ℕ → Option ℕ
unfolding last_from
last_index values = last_from 0 values

-- The first place of the greatest, and of the least, value of a nonempty list, with that value:
-- `values.index(max(values))` and `values.index(min(values))`.
unfoldable pub raise_peak : ℤ → ℕ × ℤ → ℕ × ℤ
raise_peak value (place, top) = if ltb_ℤ value top then (suc place, top) else (0, value)

unfoldable pub peak_of : ℤ → List ℤ → ℕ × ℤ
unfolding raise_peak
peak_of value [] = (0, value)
peak_of value (v ∷ values) = raise_peak value (peak_of v values)

unfoldable pub lower_trough : ℤ → ℕ × ℤ → ℕ × ℤ
lower_trough value (place, low) = if ltb_ℤ low value then (suc place, low) else (0, value)

unfoldable pub trough_of : ℤ → List ℤ → ℕ × ℤ
unfolding lower_trough
trough_of value [] = (0, value)
trough_of value (v ∷ values) = lower_trough value (trough_of v values)

-- `interim[peak:]`, which is nonempty
unfoldable pub window_from : ℕ → List ℤ → Option (ℕ × ℕ)
unfolding trough_of
window_from peak [] = none
window_from peak (value ∷ values) = some (peak, peak + (trough_of value values).0)

unfoldable pub descending_window : List ℤ → Option (ℕ × ℕ)
unfolding peak_of window_from
descending_window [] = none
descending_window (value ∷ values) =
    let peak = (peak_of value values).0 in window_from peak (drop peak (value ∷ values))

-- `item.get(event_field) or "missing"` against the ground truth
unfoldable pub count_inputs : EventField → List InputItem → ℕ × ℕ
count_inputs field [] = (0, 0)
count_inputs field (item ∷ items) =
    let (total, agreeing) = count_inputs field items in
    (suc total, if is_event (input_field field item) item.event then suc agreeing else agreeing)

unfoldable pub count_outputs : EventField → List OutputItem → ℕ × ℕ
count_outputs field [] = (0, 0)
count_outputs field (item ∷ items) =
    let (total, agreeing) = count_outputs field items in
    (suc total, if is_event (output_field field item) item.event then suc agreeing else agreeing)

-- `classified` and `agreeing`
unfoldable pub classification_agreement : EventField → List Coinjoin → ℕ × ℕ
unfolding count_inputs count_outputs
classification_agreement field [] = (0, 0)
classification_agreement field (c ∷ cs) =
    let (total, agreeing) = classification_agreement field cs in
    let (inputs, agreeing_inputs) = count_inputs field c.inputs in
    let (outputs, agreeing_outputs) = count_outputs field c.outputs in
    (inputs + outputs + total, agreeing_inputs + agreeing_outputs + agreeing)
