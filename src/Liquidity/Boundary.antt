-- ===== src/Liquidity/Boundary.antt =====
-- The two sides of the ground truth: the outputs that coinjoins remix are the inputs that they
-- bring in.
use coinjoin_pipeline.Base.{
  ℕ, zero, suc, ◌≡◌, refl, sym, ◌⊎◌, inl, inr, String, false, List, [], ◌∷◌, arith, if◌then◌else◌,
  Option, none, some, subst, string_equality, Option-cases, get_elem?, contains, nat_equality,
}
use coinjoin_pipeline.Liquidity.Classify.{
  Outpoint, outpoint_eq, spender_index, classify_outputs, classify_one, heights_of, classify_from,
  classify_coinjoins, positions, is_position, output_event,
}
use coinjoin_pipeline.Liquidity.Spenders.{
  spends, IsSpender, unspent, positions_from-lookup, spender_index-lookup, spender_index-none,
}
use coinjoin_pipeline.Liquidity.Records.{
  TxOutput, OutputItem, Coinjoin, ObservedRecord, MixRecord, find_transaction, and_then, MixEvent,
  Transaction, lookup,
}

is_position_lem :
    (order : List String) (txid : String) → is_position order txid ≡ contains txid order
unfolding positions lookup
is_position_lem order txid = ground (arith, positions_from-lookup txid 0 order [])

-- What an event says of an output: it was never spent, or a transaction of the order spends it, or
-- another exported transaction does.
abbrev pub IsBoundary :
    List String → List Transaction → Outpoint → MixEvent → Option String → Type 0
IsBoundary order txs key event spent_by =
    ((event ≡ MixEvent.stay)
      × (spent_by ≡ none)
      × ((i : ℕ) (tx : Transaction) → get_elem? txs i ≡ some tx → spends key tx.inputs ≡ false))
    ⊎ ((s : String) × (event ≡ (if contains s order then MixEvent.remix else MixEvent.leave))
        × (spent_by ≡ some s)
        × IsSpender txs key s)

output_event_lem :
    (order : List String) (txs : List Transaction) (key : Outpoint)
    → IsBoundary order txs key
        (output_event order (lookup key (spender_index txs)))
        (lookup key (spender_index txs))
unfolding output_event
output_event_lem order txs key = elim (Option-cases (lookup key (spender_index txs))) [
  | inl missing ↦ inl (
    rw missing refl,
    missing,
    λ i tx e. unspent key txs i tx (spender_index-none key txs missing) e,
  )
  | inr (s, found) ↦
      inr (s, rw (found, is_position_lem order s) refl, found, spender_index-lookup key s txs found)
]

-- A list that was classified has a first coinjoin and a rest that was classified.
and_then-cons :
    (first : Transaction → Coinjoin) (o : Option Transaction) (rest : Option (List Coinjoin))
    (cs : List Coinjoin)
    → and_then o (λ tx. and_then rest (λ r. some (first tx ∷ r))) ≡ some cs
    → (tx : Transaction) × (r : List Coinjoin) × (rest ≡ some r) × (cs ≡ first tx ∷ r)
and_then-cons first none rest cs h = cc h
and_then-cons first (some tx) none cs h = cc h
and_then-cons first (some tx) (some r) cs h =
    let listed : first tx ∷ r ≡ cs = cc h in (tx, r, refl, sym listed)

module _ (bisect_right : List ℕ → ℕ → ℕ) (order : List String) (transactions : List Transaction)
    (observed : List (String × ObservedRecord)) (mix_events : List (String × MixRecord)) where
  classify_outputs_lem :
      (index : ℕ) (txid : String) (heights : List ℕ) (all items : List TxOutput) (j : ℕ)
      (out : OutputItem)
      → get_elem?
          (classify_outputs bisect_right order transactions observed mix_events index txid heights
            (spender_index transactions)
            all
            items)
          j
        ≡ some out
      → IsBoundary order transactions (txid, out.index) out.event out.spent_by
  unfolding classify_outputs
  classify_outputs_lem index txid heights all [] j out h = cc h
  classify_outputs_lem index txid heights all (item ∷ items) zero out h =
      let spender : Option String = lookup (txid, item.index) (spender_index transactions) in
      let same_index : out.index ≡ item.index = cc h in
      let same_event : out.event ≡ output_event order spender = cc h in
      let same_spender : out.spent_by ≡ spender = cc h in
      rw (same_index, same_event, same_spender)
        (output_event_lem order transactions (txid, item.index))
  classify_outputs_lem index txid heights all (item ∷ items) (suc j) out h =
      classify_outputs_lem index txid heights all items j out h

  abbrev IsClassified : Coinjoin → Type 0
  IsClassified c =
      (n : ℕ) × (txid : String) × (heights : List ℕ) × (tx : Transaction) × (c
        ≡ classify_one bisect_right order transactions observed mix_events n txid heights tx)

  -- Each coinjoin is classified from the transaction of its txid.
  classify_from-one :
      (index : ℕ) (txids : List String) (cs : List Coinjoin) (i : ℕ) (c : Coinjoin)
      → classify_from bisect_right order transactions observed mix_events index txids ≡ some cs
      → get_elem? cs i ≡ some c
      → IsClassified c
  unfolding classify_from
  classify_from-one index [] cs i c h e =
      let empty : [] ≡ cs = cc h in cc (subst (λ l. get_elem? l i ≡ some c) (sym empty) e)
  classify_from-one index (txid ∷ txids) cs i c h e =
      let heights : List ℕ = heights_of bisect_right order transactions observed mix_events order in
      let first : Transaction → Coinjoin =
        classify_one bisect_right order transactions observed mix_events index txid heights in
      let later : Option (List Coinjoin) =
        classify_from bisect_right order transactions observed mix_events (suc index) txids in
      let (tx, rest, found, listed) =
        and_then-cons first (find_transaction txid transactions) later cs h in
      let at : get_elem? (first tx ∷ rest) i ≡ some c =
        subst (λ l. get_elem? l i ≡ some c) listed e in
      elim i as (λ k. (get_elem? (first tx ∷ rest) k ≡ some c) → IsClassified c) [
        | zero ↦ λ q. let same : first tx ≡ c = cc q in (index, txid, heights, tx, sym same)
        | suc k ↦ λ q. classify_from-one (suc index) txids rest k c found q
      ]
        at

  -- The ground truth of every output of a classified coinjoin: it stays when no exported transaction
  -- spends it; otherwise an exported transaction does, which is the one named in `spent_by`, and it
  -- is remixed if that is one of the coinjoins and leaves if not.
  pub classify_coinjoins-IsBoundary :
      (cs : List Coinjoin) (i j : ℕ) (c : Coinjoin) (out : OutputItem)
      → classify_coinjoins bisect_right order transactions observed mix_events ≡ some cs
      → get_elem? cs i ≡ some c
      → get_elem? c.outputs j ≡ some out
      → IsBoundary order transactions (c.txid, out.index) out.event out.spent_by
  unfolding classify_coinjoins classify_one
  classify_coinjoins-IsBoundary cs i j c out h e g =
      let (n, txid, heights, tx, same) = classify_from-one 0 order cs i c h e in
      let of_one : get_elem?
            (classify_one bisect_right order transactions observed mix_events n txid heights
              tx).outputs
            j
          ≡ some out =
        subst (λ x. get_elem? x.outputs j ≡ some out) same g in
      rw same (classify_outputs_lem n txid heights tx.outputs tx.outputs j out of_one)
