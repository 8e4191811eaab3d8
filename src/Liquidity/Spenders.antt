-- ===== src/Liquidity/Spenders.antt =====
-- The dictionary of spenders: an entry comes from a transaction that spends the outpoint, and an
-- outpoint without an entry is spent by none.
use coinjoin_pipeline.Base.{
  ℕ, zero, suc, ◌≡◌, refl, sym, ◌⊎◌, inl, inr, String, Bool, true, false, List, [], ◌∷◌, arith,
  Bool-cases, Option, none, some, ◌==◌, string_equality, ◌||◌, get_elem?, contains, is_some,
  nat_equality,
}
use coinjoin_pipeline.Liquidity.Classify.{
  Outpoint, outpoint_eq, outpoint, Spenders, set_spender, index_inputs, index_transactions,
  spender_index, positions_from,
}
use coinjoin_pipeline.Liquidity.Records.{TxInput, Transaction, lookup}

unfoldable pub is_outpoint : Option Outpoint → Outpoint → Bool
is_outpoint none key = false
is_outpoint (some spent) key = spent == key

-- Some input of the list spends the outpoint.
unfoldable pub spends : Outpoint → List TxInput → Bool
spends key [] = false
spends key (item ∷ items) =
    is_outpoint (outpoint item.prev_txid item.prev_vout) key || spends key items

-- A transaction of that txid spends the outpoint.
abbrev pub IsSpender : List Transaction → Outpoint → String → Type 0
IsSpender txs key txid =
    (i : ℕ) × (tx : Transaction) × (get_elem? txs i ≡ some tx)
    × (tx.txid ≡ txid)
    × (spends key tx.inputs ≡ true)

unfoldable pub spent_by_any : Outpoint → List Transaction → Bool
spent_by_any key [] = false
spent_by_any key (tx ∷ txs) = spends key tx.inputs || spent_by_any key txs

set_spender-lookup :
    (key : Outpoint) (txid s : String) (spent : Option Outpoint) (spenders : Spenders)
    → lookup key (set_spender txid spent spenders) ≡ some s
    → ((s ≡ txid) × (is_outpoint spent key ≡ true)) ⊎ (lookup key spenders ≡ some s)
unfolding set_spender lookup is_outpoint
set_spender-lookup key txid s none spenders h = inr h
set_spender-lookup key txid s (some spent) spenders h = elim (Bool-cases (spent == key)) [
  | inl y ↦ inl (ground arith, y)
  | inr n ↦ inr (ground arith)
]

index_inputs-lookup :
    (key : Outpoint) (txid s : String) (items : List TxInput) (spenders : Spenders)
    → lookup key (index_inputs txid items spenders) ≡ some s
    → ((s ≡ txid) × (spends key items ≡ true)) ⊎ (lookup key spenders ≡ some s)
unfolding index_inputs spends
index_inputs-lookup key txid s [] spenders h = inr h
index_inputs-lookup key txid s (item ∷ items) spenders h =
    elim (index_inputs-lookup key txid s items _ h) [
      | inl (e, later) ↦ inl (e, ground arith)
      | inr before ↦ elim (set_spender-lookup key txid s _ spenders before) [
        | inl (e, now) ↦ inl (e, ground arith)
        | inr old ↦ inr old
      ]
    ]

is_some-set_spender :
    (key : Outpoint) (txid : String) (spent : Option Outpoint) (spenders : Spenders)
    → is_some (lookup key (set_spender txid spent spenders))
      ≡ (is_outpoint spent key || is_some (lookup key spenders))
unfolding set_spender lookup is_outpoint
is_some-set_spender key txid none spenders = refl
is_some-set_spender key txid (some spent) spenders = ground arith

is_some-index_inputs :
    (key : Outpoint) (txid : String) (items : List TxInput) (spenders : Spenders)
    → is_some (lookup key (index_inputs txid items spenders))
      ≡ (spends key items || is_some (lookup key spenders))
unfolding index_inputs spends
is_some-index_inputs key txid [] spenders = refl
is_some-index_inputs key txid (item ∷ items) spenders =
    let spent = outpoint item.prev_txid item.prev_vout in
    ground (
      arith,
      is_some-index_inputs key txid items (set_spender txid spent spenders),
      is_some-set_spender key txid spent spenders,
    )

is_some-index_transactions :
    (key : Outpoint) (txs : List Transaction) (spenders : Spenders)
    → is_some (lookup key (index_transactions txs spenders))
      ≡ (spent_by_any key txs || is_some (lookup key spenders))
unfolding index_transactions spent_by_any
is_some-index_transactions key [] spenders = refl
is_some-index_transactions key (tx ∷ txs) spenders = ground (
  arith,
  is_some-index_transactions key txs (index_inputs tx.txid tx.inputs spenders),
  is_some-index_inputs key tx.txid tx.inputs spenders,
)

index_transactions-lookup :
    (key : Outpoint) (s : String) (txs : List Transaction) (spenders : Spenders)
    → lookup key (index_transactions txs spenders) ≡ some s
    → IsSpender txs key s ⊎ (lookup key spenders ≡ some s)
unfolding index_transactions
index_transactions-lookup key s [] spenders h = inr h
index_transactions-lookup key s (tx ∷ txs) spenders h =
    elim (index_transactions-lookup key s txs _ h) [
      | inl (i, t, at, e, spent) ↦ inl (suc i, t, at, e, spent)
      | inr before ↦ elim (index_inputs-lookup key tx.txid s tx.inputs spenders before) [
        | inl (e, now) ↦ inl (0, tx, refl, sym e, now)
        | inr old ↦ inr old
      ]
    ]

pub unspent :
    (key : Outpoint) (txs : List Transaction) (i : ℕ) (tx : Transaction)
    → spent_by_any key txs ≡ false
    → get_elem? txs i ≡ some tx
    → spends key tx.inputs ≡ false
unfolding spent_by_any
unspent key [] i tx h e = cc e
unspent key (t ∷ txs) zero tx h e = let same : t ≡ tx = cc e in rw (sym same) (ground arith)
unspent key (t ∷ txs) (suc i) tx h e = unspent key txs i tx (ground arith) e

pub positions_from-lookup :
    (txid : String) (index : ℕ) (order : List String) (p : List (String × ℕ))
    → is_some (lookup txid (positions_from index order p))
      ≡ (contains txid order || is_some (lookup txid p))
unfolding positions_from lookup contains
positions_from-lookup txid index [] p = refl
positions_from-lookup txid index (t ∷ order) p = ground (
  arith,
  positions_from-lookup txid (suc index) order ((t, index) ∷ p),
  string_equality.equals_iff txid t,
  string_equality.equals_iff t txid,
)

pub spender_index-lookup :
    (key : Outpoint) (s : String) (txs : List Transaction)
    → lookup key (spender_index txs) ≡ some s
    → IsSpender txs key s
unfolding spender_index lookup
spender_index-lookup key s txs h = elim (index_transactions-lookup key s txs [] h) [
  | inl spender ↦ spender
  | inr e ↦ cc e
]

pub spender_index-none :
    (key : Outpoint) (txs : List Transaction)
    → lookup key (spender_index txs) ≡ none
    → spent_by_any key txs ≡ false
unfolding spender_index lookup
spender_index-none key txs h = ground (arith, is_some-index_transactions key txs [])
