-- ===== src/Liquidity/Samples/Chain.antt =====
-- Two coinjoins, the second one fed by the first, and a payment.
use coinjoin_pipeline.Base.{
  ℕ, String, false, List, [], ◌∷◌, length, none, some, string_equality, nat_equality, pos,
}
use coinjoin_pipeline.Liquidity.Classify.{outpoint_eq}
use coinjoin_pipeline.Liquidity.Records.{MixEvent, Transaction, Coinjoin, InputItem, OutputItem}

abbrev first_tx : Transaction
first_tx = record {
  txid = "a";
  block_height = some 10;
  inputs =
      record {
        index = 0;
        wallet_name = some "alice";
        value = some 7;
        prev_txid = some "f";
        prev_vout = some 0;
      }
      ∷ record {
        index = 1;
        wallet_name = some "bob";
        value = some 5;
        prev_txid = some "f";
        prev_vout = some 1;
      }
      ∷ [];
  outputs =
      record { index = 0; wallet_name = some "alice"; value = some 7 }
      ∷ record { index = 1; wallet_name = some "bob"; value = some 4 }
      ∷ [];
}

abbrev second_tx : Transaction
second_tx = record {
  txid = "b";
  block_height = some 12;
  inputs =
      record {
        index = 0;
        wallet_name = some "alice";
        value = some 7;
        prev_txid = some "a";
        prev_vout = some 0;
      }
      ∷ [];
  outputs = record { index = 0; wallet_name = some "alice"; value = some 6 } ∷ [];
}

-- A payment that takes an output of the second coinjoin out of the mix.
abbrev payment_tx : Transaction
payment_tx = record {
  txid = "p";
  block_height = some 13;
  inputs =
      record {
        index = 0;
        wallet_name = some "alice";
        value = some 6;
        prev_txid = some "b";
        prev_vout = some 0;
      }
      ∷ [];
  outputs = [];
}

abbrev pub transactions : List Transaction
transactions = first_tx ∷ second_tx ∷ payment_tx ∷ []

abbrev pub none_right : List ℕ → ℕ → ℕ
none_right heights height = length heights

abbrev pub order : List String
order = "a" ∷ "b" ∷ []

abbrev first_outputs : List OutputItem
first_outputs =
    record {
      index = 0;
      wallet = some "alice";
      value = some 7;
      event = MixEvent.remix;
      observed_event = none;
      blocksci_event = none;
      spent_by = some "b";
      spend_distance_coinjoins = some (pos 0);
      is_standard_denom = false;
    }
    ∷ record {
      index = 1;
      wallet = some "bob";
      value = some 4;
      event = MixEvent.stay;
      observed_event = none;
      blocksci_event = none;
      spent_by = none;
      spend_distance_coinjoins = none;
      is_standard_denom = false;
    }
    ∷ []

abbrev item : ℕ → String → ℕ → String → ℕ → MixEvent → InputItem
item index wallet value txid vout event = record {
  index = index;
  wallet = some wallet;
  value = some value;
  prev_txid = some txid;
  prev_vout = some vout;
  event = event;
  observed_event = none;
  blocksci_event = none;
}

abbrev pub first : Coinjoin
first = record {
  index = 0;
  txid = "a";
  block_height = some 10;
  inputs = item 0 "alice" 7 "f" 0 MixEvent.enter ∷ item 1 "bob" 5 "f" 1 MixEvent.enter ∷ [];
  outputs = first_outputs;
}

abbrev pub second_output : OutputItem
second_output = record {
  index = 0;
  wallet = some "alice";
  value = some 6;
  event = MixEvent.leave;
  observed_event = none;
  blocksci_event = none;
  spent_by = some "p";
  spend_distance_coinjoins = some (pos 0);
  is_standard_denom = false;
}

abbrev pub second : Coinjoin
second = record {
  index = 1;
  txid = "b";
  block_height = some 12;
  inputs = item 0 "alice" 7 "a" 0 MixEvent.remix ∷ [];
  outputs = second_output ∷ [];
}

abbrev pub coinjoins : List Coinjoin
coinjoins = first ∷ second ∷ []
