-- ===== src/Liquidity/Records.antt =====
-- liquidity.py: the exported transactions and the classified coinjoins. Indexes are numbers, not
-- their texts, and a value that is no number is `none`; addresses are left out.
use coinjoin_pipeline.Base.{
  ℕ, ◌≡◌, ◌↔◌, String, Bool, true, List, [], ◌∷◌, arith, if◌then◌else◌, nat_beq, Option, none, some,
  ◌==◌, string_equality, Equality, nat_equality, ℤ,
}

-- `mix_event_type`: the friends are inputs that another coordinator mixed before.
pub data MixEvent : Type 0 where
  enter remix leave stay remix_friends remix_friends_ww1 : MixEvent

abbrev event_index : MixEvent → ℕ
event_index MixEvent.enter = 0
event_index MixEvent.remix = 1
event_index MixEvent.leave = 2
event_index MixEvent.stay = 3
event_index MixEvent.remix_friends = 4
event_index MixEvent.remix_friends_ww1 = 5

abbrev event_beq : MixEvent → MixEvent → Bool
event_beq a b = nat_beq (event_index a) (event_index b)

pub event_beq_iff : (a b : MixEvent) → (event_beq a b ≡ true) ↔ (a ≡ b)
event_beq_iff a b = ground arith

instance abbrev pub event_eq : Equality MixEvent
event_eq = record { equals = event_beq; equals_iff = event_beq_iff }

pub record TxInput : Type 0 where
  pub index : ℕ
  pub wallet_name : Option String
  pub value : Option ℕ
  pub prev_txid : Option String
  pub prev_vout : Option ℕ

pub record TxOutput : Type 0 where
  pub index : ℕ
  pub wallet_name : Option String
  pub value : Option ℕ

pub record Transaction : Type 0 where
  pub txid : String
  pub block_height : Option ℕ
  pub inputs : List TxInput
  pub outputs : List TxOutput

-- The events of one coinjoin as another analyzer sees them, by index.
pub record ObservedRecord : Type 0 where
  pub inputs : List (ℕ × MixEvent)
  pub outputs : List (ℕ × MixEvent)

-- BlockSci's events of one coinjoin, in the order of the indexes.
pub record MixRecord : Type 0 where
  pub inputs : List MixEvent
  pub outputs : List MixEvent

pub record InputItem : Type 0 where
  pub index : ℕ
  pub wallet : Option String
  pub value : Option ℕ
  pub prev_txid : Option String
  pub prev_vout : Option ℕ
  pub event : MixEvent
  pub observed_event : Option MixEvent
  pub blocksci_event : Option MixEvent

pub record OutputItem : Type 0 where
  pub index : ℕ
  pub wallet : Option String
  pub value : Option ℕ
  pub event : MixEvent
  pub observed_event : Option MixEvent
  pub blocksci_event : Option MixEvent
  pub spent_by : Option String
  pub spend_distance_coinjoins : Option ℤ
  pub is_standard_denom : Bool

pub record Coinjoin : Type 0 where
  pub index : ℕ
  pub txid : String
  pub block_height : Option ℕ
  pub inputs : List InputItem
  pub outputs : List OutputItem

-- `dict.get`
unfoldable pub lookup {ℓ κ} :
    {K : Type ℓ} {V : Type κ} ⦃e : Equality K⦄ → K → List (K × V) → Option V
lookup k [] = none
lookup k ((j, v) ∷ rest) = let later = lookup k rest in if j == k then some v else later

-- `transactions.get(txid)`
unfoldable pub find_transaction : String → List Transaction → Option Transaction
find_transaction txid [] = none
find_transaction txid (tx ∷ rest) =
    let later = find_transaction txid rest in if tx.txid == txid then some tx else later

-- `(x or {}).get(...)`
abbrev pub and_then {ℓ κ} : {A : Type ℓ} {B : Type κ} → Option A → (A → Option B) → Option B
and_then none f = none
and_then (some a) f = f a
