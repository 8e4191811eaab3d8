-- ===== src/Liquidity/Series.antt =====
-- liquidity.py: `liquidity_series` and the summaries of it. A series is the list of its points, one
-- for each coinjoin; `field` and `outflow` choose the event of an item.
use coinjoin_pipeline.Base.{
  ℕ, ◌+◌, String, Bool, true, false, List, [], ◌∷◌, if◌then◌else◌, Option, none, some, ◌==◌,
  string_equality, not, ◌&&◌, ◌||◌, contains, ℤ, pos, sub_ℕ, ◌+ℤ◌, ◌-ℤ◌, ltb_ℤ,
}
use coinjoin_pipeline.Liquidity.Classify.{Outpoint, outpoint_eq, outpoint}
use coinjoin_pipeline.Liquidity.Records.{MixEvent, event_eq, InputItem, OutputItem, Coinjoin}

unfoldable pub value_of : Option ℕ → ℕ
value_of none = 0
value_of (some value) = value

abbrev window_coinjoins : ℕ
window_coinjoins = 3

unfoldable pub is_fast : OutputItem → Bool
is_fast item = elim item.spend_distance_coinjoins [
  | none ↦ false
  | some distance ↦ ltb_ℤ distance (pos window_coinjoins)
]

-- `event_field`
pub data EventField : Type 0 where
  ground_truth observed blocksci : EventField

abbrev pub input_field : EventField → InputItem → Option MixEvent
input_field EventField.ground_truth item = some item.event
input_field EventField.observed item = item.observed_event
input_field EventField.blocksci item = item.blocksci_event

abbrev pub output_field : EventField → OutputItem → Option MixEvent
output_field EventField.ground_truth item = some item.event
output_field EventField.observed item = item.observed_event
output_field EventField.blocksci item = item.blocksci_event

abbrev pub is_event : Option MixEvent → MixEvent → Bool
is_event none event = false
is_event (some e) event = e == event

-- `item.get(event_field) in inflow_types`
abbrev pub is_inflow : EventField → Option MixEvent → Bool
is_inflow EventField.observed event =
    is_event event MixEvent.enter
    || is_event event MixEvent.remix_friends
    || is_event event MixEvent.remix_friends_ww1
is_inflow field event = is_event event MixEvent.enter

-- `owners is None or item.get("wallet") in owners`
unfoldable pub is_owned : Option (List String) → Option String → Bool
unfolding contains
is_owned none wallet = true
is_owned (some owners) none = false
is_owned (some owners) (some wallet) = contains wallet owners

unfoldable pub owned_inputs : Option (List String) → List InputItem → List InputItem
unfolding is_owned
owned_inputs owners [] = []
owned_inputs owners (item ∷ items) =
    let rest = owned_inputs owners items in
    if is_owned owners item.wallet then item ∷ rest else rest

unfoldable pub owned_outputs : Option (List String) → List OutputItem → List OutputItem
unfolding is_owned
owned_outputs owners [] = []
owned_outputs owners (item ∷ items) =
    let rest = owned_outputs owners items in
    if is_owned owners item.wallet then item ∷ rest else rest

-- `sum(value_of(item) for item in inputs if ...)`
unfoldable pub sum_inputs : (InputItem → Bool) → List InputItem → ℕ
unfolding value_of
sum_inputs p [] = 0
sum_inputs p (item ∷ items) =
    let rest = sum_inputs p items in if p item then value_of item.value + rest else rest

unfoldable pub sum_outputs : (OutputItem → Bool) → List OutputItem → ℕ
unfolding value_of
sum_outputs p [] = 0
sum_outputs p (item ∷ items) =
    let rest = sum_outputs p items in if p item then value_of item.value + rest else rest

-- The outstanding outputs with their values.
abbrev pub Unmoved : Type 0
Unmoved = List (Outpoint × ℕ)

-- `unmoved.pop(key, 0)`: the value and what is left.
unfoldable pub pop_value : Outpoint → Unmoved → ℕ
pop_value key [] = 0
pop_value key ((k, value) ∷ rest) =
    let later = pop_value key rest in if k == key then value else later

unfoldable pub pop_rest : Outpoint → Unmoved → Unmoved
pop_rest key [] = []
pop_rest key ((k, value) ∷ rest) =
    let later = pop_rest key rest in if k == key then rest else (k, value) ∷ later

-- `unmoved[key] = value`
unfoldable pub set_value : Outpoint → ℕ → Unmoved → Unmoved
set_value key value [] = (key, value) ∷ []
set_value key value ((k, old) ∷ rest) =
    let later = set_value key value rest in if k == key then (k, value) ∷ rest else (k, old) ∷ later

-- The current values of the loop.
pub record Totals : Type 0 where
  pub current : ℤ
  pub current_fast : ℤ
  pub current_unmoved : ℤ
  pub unmoved : Unmoved

-- `current_unmoved -= unmoved.pop(key, 0)`
unfoldable pub retire_one : Option Outpoint → ℤ × Unmoved → ℤ × Unmoved
unfolding pop_value pop_rest
retire_one none (current, unmoved) = (current, unmoved)
retire_one (some spent) (current, unmoved) =
    (current -ℤ pos (pop_value spent unmoved), pop_rest spent unmoved)

unfoldable pub retire : List InputItem → ℤ × Unmoved → ℤ × Unmoved
unfolding retire_one outpoint
retire [] outstanding = outstanding
retire (item ∷ items) outstanding =
    retire items (retire_one (outpoint item.prev_txid item.prev_vout) outstanding)

-- `item.get(event_field) in {STAY, REMIX} and not is_fast(item)`
unfoldable pub waits : EventField → OutputItem → Bool
unfolding is_fast
waits field item =
    (is_event (output_field field item) MixEvent.stay
      || is_event (output_field field item) MixEvent.remix)
    && not (is_fast item)

unfoldable pub deposit_one : Bool → Outpoint → ℕ → ℤ × Unmoved → ℤ × Unmoved
unfolding set_value
deposit_one false key value outstanding = outstanding
deposit_one true key value (current, unmoved) = (current +ℤ pos value, set_value key value unmoved)

unfoldable pub deposit : EventField → String → List OutputItem → ℤ × Unmoved → ℤ × Unmoved
unfolding deposit_one waits value_of
deposit field txid [] outstanding = outstanding
deposit field txid (item ∷ items) outstanding =
    deposit field txid items
      (deposit_one (waits field item) (txid, item.index) (value_of item.value) outstanding)

-- The values of the seven lists at one coinjoin.
pub record Point : Type 0 where
  pub enter : ℕ
  pub leave : ℕ
  pub stay : ℕ
  pub interim : ℤ
  pub interim_fast_leave : ℤ
  pub unmoved_window : ℤ
  pub active_remix : ℤ

module _ (field : EventField) where
  abbrev pub is_entering : InputItem → Bool
  is_entering item = is_inflow field (input_field field item)

  abbrev pub is_leaving : OutputItem → Bool
  is_leaving item = is_event (output_field field item) MixEvent.leave

  abbrev pub is_staying : OutputItem → Bool
  is_staying item = is_event (output_field field item) MixEvent.stay

module _ (field : EventField) (owners : Option (List String)) where
  unfoldable pub series_step : Totals → Coinjoin → Totals × Point
  unfolding owned_inputs owned_outputs sum_inputs sum_outputs retire deposit is_fast
  series_step totals coinjoin =
      let inputs = owned_inputs owners coinjoin.inputs in
      let outputs = owned_outputs owners coinjoin.outputs in
      let retired = retire inputs (totals.current_unmoved, totals.unmoved) in
      let (unmoved_now, outstanding) = deposit field coinjoin.txid outputs retired in
      let step_enter = sum_inputs (is_entering field) inputs in
      let step_leave = sum_outputs (is_leaving field) outputs in
      let step_fast_leave = sum_outputs (λ item. is_leaving field item && is_fast item) outputs in
      let current = totals.current +ℤ sub_ℕ step_enter step_leave in
      let current_fast = totals.current_fast +ℤ sub_ℕ step_enter step_fast_leave in
      (
        record {
          current = current;
          current_fast = current_fast;
          current_unmoved = unmoved_now;
          unmoved = outstanding;
        },
        record {
          enter = step_enter;
          leave = step_leave;
          stay = sum_outputs (is_staying field) outputs;
          interim = current;
          interim_fast_leave = current_fast;
          unmoved_window = unmoved_now;
          active_remix = current -ℤ unmoved_now;
        },
      )

  unfoldable pub series_from : Totals → List Coinjoin → List Point
  unfolding series_step
  series_from totals [] = []
  series_from totals (coinjoin ∷ coinjoins) =
      let (next, point) = series_step totals coinjoin in point ∷ series_from next coinjoins

abbrev pub empty_totals : Totals
empty_totals = record {
  current = pos 0;
  current_fast = pos 0;
  current_unmoved = pos 0;
  unmoved = [];
}

unfoldable pub liquidity_series : List Coinjoin → EventField → Option (List String) → List Point
unfolding series_from
liquidity_series coinjoins field owners = series_from field owners empty_totals coinjoins
