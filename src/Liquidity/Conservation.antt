-- ===== src/Liquidity/Conservation.antt =====
-- The interim liquidity is what has entered without what has left.
use coinjoin_pipeline.Base.{
  ℕ, zero, suc, ◌+◌, ◌≡◌, refl, ap, ◌∙◌, String, List, [], ◌∷◌, take, arith, Option, some,
  string_equality, get_elem?, ℤ, pos, sub_ℕ, ◌+ℤ◌, ◌-ℤ◌, int_laws, pos_part, neg_part,
}
use coinjoin_pipeline.Liquidity.Records.{Coinjoin}
use coinjoin_pipeline.Liquidity.Series.{
  EventField, Point, Totals, series_step, series_from, liquidity_series, empty_totals, owned_inputs,
  owned_outputs, sum_inputs, sum_outputs, is_entering, is_leaving,
}

module _ (field : EventField) (owners : Option (List String)) where
  -- The values that enter and leave in a list of coinjoins.
  unfoldable pub inflow : List Coinjoin → ℕ
  inflow [] = 0
  inflow (c ∷ cs) = sum_inputs (is_entering field) (owned_inputs owners c.inputs) + inflow cs

  unfoldable pub outflow : List Coinjoin → ℕ
  outflow [] = 0
  outflow (c ∷ cs) = sum_outputs (is_leaving field) (owned_outputs owners c.outputs) + outflow cs

sub_parts : (a b : ℕ) → pos_part (sub_ℕ a b) + b ≡ neg_part (sub_ℕ a b) + a
sub_parts a b = ground arith

pub parts_of_eq : (a b : ℤ) → a ≡ b → pos_part a + neg_part b ≡ pos_part b + neg_part a
parts_of_eq a b h = rw h refl

sub_add : (a b : ℤ) → a -ℤ b +ℤ b ≡ a
sub_add a b = omega int_laws

zero_add : (n : ℕ) → pos 0 +ℤ pos n ≡ pos n
zero_add n = omega int_laws

-- A balance that a step changed, carried back over the step.
balance_step :
    (current x : ℤ) (enter leave e l : ℕ)
    → x +ℤ pos l ≡ current +ℤ sub_ℕ enter leave +ℤ pos e
    → x +ℤ pos (leave + l) ≡ current +ℤ pos (enter + e)
balance_step current x enter leave e l h =
    let parts = parts_of_eq _ _ h in omega (int_laws, sub_parts enter leave)

module _ (field : EventField) (owners : Option (List String)) where
  series_from-interim :
      (totals : Totals) (coinjoins : List Coinjoin) (i : ℕ) (p : Point)
      → get_elem? (series_from field owners totals coinjoins) i ≡ some p
      → p.interim +ℤ pos (outflow field owners (take (suc i) coinjoins))
        ≡ totals.current +ℤ pos (inflow field owners (take (suc i) coinjoins))
  unfolding series_from inflow outflow series_step
  series_from-interim totals [] i p h = cc h
  series_from-interim totals (c ∷ cs) zero p h =
      let first : p.interim ≡ (series_step field owners totals c).0.current = cc h in
      balance_step totals.current p.interim _ _ 0 0 (ap (λ x. x +ℤ pos 0) first)
  series_from-interim totals (c ∷ cs) (suc i) p h =
      balance_step totals.current p.interim _ _ _ _
        (series_from-interim (series_step field owners totals c).0 cs i p h)

  series_from-active :
      (totals : Totals) (coinjoins : List Coinjoin) (i : ℕ) (p : Point)
      → get_elem? (series_from field owners totals coinjoins) i ≡ some p
      → p.active_remix +ℤ p.unmoved_window ≡ p.interim
  unfolding series_from series_step
  series_from-active totals [] i p h = cc h
  series_from-active totals (c ∷ cs) zero p h =
      let next : Totals = (series_step field owners totals c).0 in
      let interim : p.interim ≡ next.current = cc h in
      let unmoved : p.unmoved_window ≡ next.current_unmoved = cc h in
      let active : p.active_remix ≡ next.current -ℤ next.current_unmoved = cc h in
      rw (active, unmoved, interim) (sub_add next.current next.current_unmoved)
  series_from-active totals (c ∷ cs) (suc i) p h =
      series_from-active (series_step field owners totals c).0 cs i p h

  -- At every coinjoin the interim liquidity, with all that has left in the coinjoins so far, is all
  -- that has entered in them; it is the active and the unmoved liquidity together.
  pub liquidity_series-interim :
      (coinjoins : List Coinjoin) (i : ℕ) (p : Point)
      → get_elem? (liquidity_series coinjoins field owners) i ≡ some p
      → (p.interim +ℤ pos (outflow field owners (take (suc i) coinjoins))
          ≡ pos (inflow field owners (take (suc i) coinjoins)))
        × (p.active_remix +ℤ p.unmoved_window ≡ p.interim)
  unfolding liquidity_series
  liquidity_series-interim coinjoins i p h = (
    series_from-interim empty_totals coinjoins i p h ∙ zero_add _,
    series_from-active empty_totals coinjoins i p h,
  )
