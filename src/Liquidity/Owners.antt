-- ===== src/Liquidity/Owners.antt =====
-- The liquidity of two sets of wallets that share none is the sum of theirs.
use coinjoin_pipeline.Base.{
  ℕ, suc, ◌+◌, ◌≡◌, refl, String, Bool, false, List, [], ◌∷◌, ◌++◌, take, arith, Option, none, some,
  string_equality, ◌&&◌, ◌||◌, get_elem?, contains, ◌∈◌, contains-append, ◌+ℤ◌, int_laws,
}
use coinjoin_pipeline.Liquidity.Conservation.{
  inflow, outflow, liquidity_series-interim, parts_of_eq,
}
use coinjoin_pipeline.Liquidity.Records.{Coinjoin, InputItem, OutputItem}
use coinjoin_pipeline.Liquidity.Series.{
  EventField, Point, liquidity_series, owned_inputs, owned_outputs, sum_inputs, sum_outputs,
  is_entering, is_leaving, is_owned,
}

module _ (first second : List String)
    (disjoint : (w : String) → w ∈ first → contains w second ≡ false) where
  abbrev both : Option (List String)
  both = some (first ++ second)

  -- An owner is in one of the two sets, or in none.
  is_owned_split :
      (w : Option String)
      → (is_owned both w ≡ (is_owned (some first) w || is_owned (some second) w))
        × ((is_owned (some first) w && is_owned (some second) w) ≡ false)
  unfolding is_owned
  is_owned_split none = (refl, refl)
  is_owned_split (some w) = ground (arith, contains-append w first second, disjoint w)

  sum_inputs-owned :
      (p : InputItem → Bool) (items : List InputItem)
      → sum_inputs p (owned_inputs both items)
        ≡ sum_inputs p (owned_inputs (some first) items)
          + sum_inputs p (owned_inputs (some second) items)
  unfolding sum_inputs owned_inputs
  sum_inputs-owned p [] = refl
  sum_inputs-owned p (item ∷ items) =
      ground (arith, is_owned_split item.wallet, sum_inputs-owned p items)

  sum_outputs-owned :
      (p : OutputItem → Bool) (items : List OutputItem)
      → sum_outputs p (owned_outputs both items)
        ≡ sum_outputs p (owned_outputs (some first) items)
          + sum_outputs p (owned_outputs (some second) items)
  unfolding sum_outputs owned_outputs
  sum_outputs-owned p [] = refl
  sum_outputs-owned p (item ∷ items) =
      ground (arith, is_owned_split item.wallet, sum_outputs-owned p items)

  inflow-owned :
      (field : EventField) (cs : List Coinjoin)
      → inflow field both cs ≡ inflow field (some first) cs + inflow field (some second) cs
  unfolding inflow
  inflow-owned field [] = refl
  inflow-owned field (c ∷ cs) =
      omega (arith, sum_inputs-owned (is_entering field) c.inputs, inflow-owned field cs)

  outflow-owned :
      (field : EventField) (cs : List Coinjoin)
      → outflow field both cs ≡ outflow field (some first) cs + outflow field (some second) cs
  unfolding outflow
  outflow-owned field [] = refl
  outflow-owned field (c ∷ cs) =
      omega (arith, sum_outputs-owned (is_leaving field) c.outputs, outflow-owned field cs)

  -- At every coinjoin, the interim liquidity of two sets of wallets that share none is the sum of
  -- the interim liquidities of the sets.
  pub liquidity_series-disjoint :
      (coinjoins : List Coinjoin) (field : EventField) (i : ℕ) (p q r : Point)
      → get_elem? (liquidity_series coinjoins field both) i ≡ some p
      → get_elem? (liquidity_series coinjoins field (some first)) i ≡ some q
      → get_elem? (liquidity_series coinjoins field (some second)) i ≡ some r
      → p.interim ≡ q.interim +ℤ r.interim
  liquidity_series-disjoint coinjoins field i p q r hp hq hr =
      let cs : List Coinjoin = take (suc i) coinjoins in
      let (ep, _) = liquidity_series-interim field both coinjoins i p hp in
      let (eq, _) = liquidity_series-interim field (some first) coinjoins i q hq in
      let (er, _) = liquidity_series-interim field (some second) coinjoins i r hr in
      let pp = parts_of_eq _ _ ep in
      let pq = parts_of_eq _ _ eq in
      let pr = parts_of_eq _ _ er in omega (int_laws, inflow-owned field cs, outflow-owned field cs)
