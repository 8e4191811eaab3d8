-- ===== src/Liquidity/Classify.antt =====
-- liquidity.py: `classify_coinjoins` and what it calls. `bisect_right` is Python's.
use coinjoin_pipeline.Base.{
  ℕ, suc, ◌+◌, ◌-◌, ◌≡◌, ◌↔◌, String, Bool, true, false, List, [], ◌∷◌, arith, if◌then◌else◌, ltb,
  Option, none, some, ◌==◌, string_equality, ◌&&◌, Equality, nat_equality, is_some, get_elem?, ℤ,
  pos, sub_ℕ,
}
use coinjoin_pipeline.Liquidity.Records.{
  MixEvent, TxInput, TxOutput, Transaction, ObservedRecord, MixRecord, InputItem, OutputItem,
  Coinjoin, lookup, find_transaction, and_then,
}

abbrev pub Outpoint : Type 0
Outpoint = String × ℕ

abbrev outpoint_beq : Outpoint → Outpoint → Bool
outpoint_beq a b = a.0 == b.0 && a.1 == b.1

pub outpoint_beq_iff : (a b : Outpoint) → (outpoint_beq a b ≡ true) ↔ (a ≡ b)
outpoint_beq_iff a b =
    ground (arith, string_equality.equals_iff a.0 b.0, nat_equality.equals_iff a.1 b.1)

instance abbrev pub outpoint_eq : Equality Outpoint
outpoint_eq = record { equals = outpoint_beq; equals_iff = outpoint_beq_iff }

-- The spent output of an input, if it names one.
unfoldable pub outpoint : Option String → Option ℕ → Option Outpoint
outpoint (some txid) (some vout) = some (txid, vout)
outpoint _ _ = none

-- A dictionary as the list of its entries, the one set last in front.
abbrev pub Spenders : Type 0
Spenders = List (Outpoint × String)

unfoldable pub set_spender : String → Option Outpoint → Spenders → Spenders
set_spender txid none spenders = spenders
set_spender txid (some spent) spenders = (spent, txid) ∷ spenders

unfoldable pub index_inputs : String → List TxInput → Spenders → Spenders
unfolding outpoint set_spender
index_inputs txid [] spenders = spenders
index_inputs txid (item ∷ items) spenders =
    index_inputs txid items (set_spender txid (outpoint item.prev_txid item.prev_vout) spenders)

unfoldable pub index_transactions : List Transaction → Spenders → Spenders
unfolding index_inputs
index_transactions [] spenders = spenders
index_transactions (tx ∷ txs) spenders =
    index_transactions txs (index_inputs tx.txid tx.inputs spenders)

unfoldable pub spender_index : List Transaction → Spenders
unfolding index_transactions
spender_index transactions = index_transactions transactions []

-- `{txid: index for index, txid in enumerate(order)}`
unfoldable pub positions_from : ℕ → List String → List (String × ℕ) → List (String × ℕ)
positions_from index [] positions = positions
positions_from index (txid ∷ order) positions =
    positions_from (suc index) order ((txid, index) ∷ positions)

-- `standard_denominations`: whether the value occurs twice.
unfoldable pub count_standard : ℕ → List TxOutput → ℕ
count_standard value [] = 0
count_standard value (item ∷ items) =
    let rest = count_standard value items in
    elim item.value [ none ↦ rest | some v ↦ if v == value then suc rest else rest ]

unfoldable pub is_standard : Option ℕ → List TxOutput → Bool
unfolding count_standard
is_standard none outputs = false
is_standard (some value) outputs = ltb 1 (count_standard value outputs)

-- `events[position] if 0 <= position < len(events) else None`
unfoldable pub blocksci_event : List MixEvent → ℕ → Option MixEvent
blocksci_event events index = get_elem? events index

abbrev height_or_zero : Option ℕ → ℕ
height_or_zero none = 0
height_or_zero (some height) = height

module _ (order : List String) where
  unfoldable pub positions : List (String × ℕ)
  unfolding positions_from
  positions = positions_from 0 order []

  abbrev pub is_position : String → Bool
  is_position txid = is_some (lookup txid positions)

  -- `REMIX if item.get("prev_txid") in positions else ENTER`
  unfoldable pub input_event : Option String → MixEvent
  unfolding positions
  input_event none = MixEvent.enter
  input_event (some txid) = if is_position txid then MixEvent.remix else MixEvent.enter

  unfoldable pub output_event : Option String → MixEvent
  unfolding positions
  output_event none = MixEvent.stay
  output_event (some spender) = if is_position spender then MixEvent.remix else MixEvent.leave

module _ (bisect_right : List ℕ → ℕ → ℕ) where
  -- `max(n, 0)` is the subtraction that stops at 0.
  unfoldable pub distance_by_height : ℕ → List ℕ → Option ℕ → Option ℤ
  distance_by_height created_index heights none = none
  distance_by_height created_index heights (some height) =
      some (pos (bisect_right heights height - created_index - 1))

  unfoldable pub spend_distance :
      ℕ → String → List (String × ℕ) → List Transaction → List ℕ → Option ℤ
  unfolding distance_by_height lookup
  spend_distance created_index spender positions transactions heights =
      elim (lookup spender positions) [
        | some position ↦ some (sub_ℕ position (created_index + 1))
        | none ↦ elim (find_transaction spender transactions) [
          | none ↦ none
          | some tx ↦ distance_by_height created_index heights tx.block_height
        ]
      ]

  module _ (order : List String) (transactions : List Transaction)
      (observed : List (String × ObservedRecord)) (mix_events : List (String × MixRecord)) where
    unfoldable pub classify_inputs : String → List TxInput → List InputItem
    unfolding input_event lookup blocksci_event
    classify_inputs txid [] = []
    classify_inputs txid (item ∷ items) =
        record {
          index = item.index;
          wallet = item.wallet_name;
          value = item.value;
          prev_txid = item.prev_txid;
          prev_vout = item.prev_vout;
          event = input_event order item.prev_txid;
          observed_event = and_then (lookup txid observed) (λ r. lookup item.index r.inputs);
          blocksci_event =
              and_then (lookup txid mix_events) (λ r. blocksci_event r.inputs item.index);
        }
        ∷ classify_inputs txid items

    unfoldable pub classify_outputs :
        ℕ → String → List ℕ → Spenders → List TxOutput → List TxOutput → List OutputItem
    unfolding output_event lookup blocksci_event spend_distance is_standard
    classify_outputs index txid heights spenders all_outputs [] = []
    classify_outputs index txid heights spenders all_outputs (item ∷ items) =
        let spender = lookup (txid, item.index) spenders in
        record {
          index = item.index;
          wallet = item.wallet_name;
          value = item.value;
          event = output_event order spender;
          observed_event = and_then (lookup txid observed) (λ r. lookup item.index r.outputs);
          blocksci_event =
              and_then (lookup txid mix_events) (λ r. blocksci_event r.outputs item.index);
          spent_by = spender;
          spend_distance_coinjoins = elim spender [
            | none ↦ none
            | some s ↦ spend_distance index s (positions order) transactions heights
          ];
          is_standard_denom = is_standard item.value all_outputs;
        }
        ∷ classify_outputs index txid heights spenders all_outputs items

    unfoldable pub classify_one : ℕ → String → List ℕ → Transaction → Coinjoin
    unfolding classify_inputs classify_outputs spender_index
    classify_one index txid heights tx = record {
      index = index;
      txid = txid;
      block_height = tx.block_height;
      inputs = classify_inputs txid tx.inputs;
      outputs =
          classify_outputs index txid heights (spender_index transactions) tx.outputs tx.outputs;
    }

    -- `[float(transactions[txid].get("block_height") or 0) for txid in order]`
    unfoldable pub heights_of : List String → List ℕ
    unfolding find_transaction
    heights_of [] = []
    heights_of (txid ∷ txids) =
        elim (find_transaction txid transactions) [
          | none ↦ 0
          | some tx ↦ height_or_zero tx.block_height
        ]
        ∷ heights_of txids

    -- A txid of the order that is not exported is a `KeyError`.
    unfoldable pub classify_from : ℕ → List String → Option (List Coinjoin)
    unfolding heights_of classify_one find_transaction
    classify_from index [] = some []
    classify_from index (txid ∷ txids) =
        let rest = classify_from (suc index) txids in
        and_then (find_transaction txid transactions) (λ tx.
          and_then rest
            (λ coinjoins. some (classify_one index txid (heights_of order) tx ∷ coinjoins)))

    unfoldable pub classify_coinjoins : Option (List Coinjoin)
    unfolding classify_from
    classify_coinjoins = classify_from 0 order
