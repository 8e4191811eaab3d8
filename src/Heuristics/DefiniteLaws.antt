-- ===== src/Heuristics/DefiniteLaws.antt =====
-- What it means for a transaction to pass the rules of the definite JoinMarket detector.
use coinjoin_pipeline.Heuristics.Picks.{Picks, picked, picked-Picks, Picks-picked}
use coinjoin_pipeline.Heuristics.Tallies.{
  values_of, IsGrouping, grouped_input_values-IsGrouping, IsFirstMost, first_most_unique,
  most_frequent_value-cases,
}
use coinjoin_pipeline.Heuristics.AddressTallies.{
  IsAddressTally, address_counts-IsAddressTally, IsOther, is_other, is_other_iff, shares, greater,
  goals-shares, other_values-picked,
}
use coinjoin_pipeline.Base.{
  ltb, if◌then◌else◌, ◌/◌, sym, subst, Bool, ℕ, ◌+◌, ◌≡◌, ◌≢◌, ◌≤◌, refl, ap, ◌∙◌, ◌↔◌, inl, inr,
  String, true, false, List, length, arith, Option, none, some, string_equality, nat_equality,
}
use coinjoin_pipeline.Heuristics.Subset.{Verdict, joinmarket_subset_result}
use coinjoin_pipeline.Heuristics.Partition.{Partition}
use coinjoin_pipeline.Heuristics.SubsetDepth.{joinmarket_subset_result_iff}
use coinjoin_pipeline.Heuristics.Definite.{
  explain_from, IoRecord, grouped_input_values_by_address, output_addresses_by_value,
  address_counts, most_frequent_value, participant_count, definite_goals, definite_subset,
  explain_joinmarket_definite, joinmarket_explanation, no_failed_rules, amounts, max_possible_fee,
  other_values,
}

greater_fee : (a b : ℕ) → (if ltb b a then a else b) ≡ greater a b
greater_fee a b = ground arith

module _ (percentage_fee : ℕ → ℕ) (min_base_fee : ℕ) (inputs outputs : List IoRecord) where
  -- The rules that do not look at the outputs' values.
  abbrev FitsSize : Type 0
  FitsSize =
      (2 ≤ length inputs)
      × (3 ≤ length outputs)
      × (participant_count outputs ≤ length inputs)
      × (participant_count outputs ≤ length (grouped_input_values_by_address inputs))

  explain_from-none :
      (addresses : ℕ)
      → (explain_from percentage_fee min_base_fee 0 (none, addresses) inputs outputs).would_pass
        ≡ false
  unfolding explain_from joinmarket_explanation no_failed_rules definite_subset
  explain_from-none addresses = ground arith

  explain_from-some :
      (value addresses : ℕ)
      → ((explain_from percentage_fee min_base_fee 0
            (some value, addresses)
            inputs
            outputs).would_pass
          ≡ true)
        ↔ (FitsSize
            × (addresses ≡ participant_count outputs)
            × (value ≢ 546)
            × (value ≢ 2730)
            × ((joinmarket_subset_result
                  (amounts (grouped_input_values_by_address inputs))
                  (definite_goals percentage_fee min_base_fee outputs value)
                  0).verdict
                ≡ Verdict.filled))
  unfolding explain_from joinmarket_explanation no_failed_rules definite_subset
  explain_from-some value addresses = ground arith

  -- The dominant output value, with the number of its addresses, is as the detector wants it.
  abbrev FitsDominant : Option ℕ × ℕ → Type 0
  FitsDominant dominant =
      (value : ℕ) × (dominant ≡ (some value, participant_count outputs))
      × (value ≢ 546)
      × (value ≢ 2730)
      × Partition (amounts (grouped_input_values_by_address inputs))
          (definite_goals percentage_fee min_base_fee outputs value)

  explain_from_iff :
      (dominant : Option ℕ × ℕ)
      → ((explain_from percentage_fee min_base_fee 0 dominant inputs outputs).would_pass ≡ true)
        ↔ (FitsSize × FitsDominant dominant)
  explain_from_iff (none, addresses) = (
    λ h. absurd (ground (arith, h, explain_from-none addresses)),
    λ (size, (v, e, p, q, fits)). absurd (ground (arith, ap (λ (d : Option ℕ × ℕ). d.0) e)),
  )
  explain_from_iff (some value, addresses) =
      let rules = explain_from-some value addresses in
      let search =
        joinmarket_subset_result_iff (amounts (grouped_input_values_by_address inputs)) in
      (
        λ h.
            let (size, same, p, q, filled) = rules.0 h in
            (size, (value, ap (λ n. (some value, n)) same, p, q, (search _).0 filled)),
        λ (size, (v, e, p, q, fits)).
            let same : v ≡ value = cc (ap (λ (d : Option ℕ × ℕ). d.0) e) in
            let filled = (search (definite_goals percentage_fee min_base_fee outputs v)).1 fits in
            rules.1 (
              size,
              ap (λ (d : Option ℕ × ℕ). d.1) e,
              rw same at p,
              rw same at q,
              rw same at filled,
            ),
      )

  goals_lem :
      (value : ℕ)
      → definite_goals percentage_fee min_base_fee outputs value
        ≡ shares
            ((length outputs + 1) / 2)
            value
            (greater (percentage_fee value) min_base_fee)
            (values_of (picked (λ o. is_other value o.value) outputs))
  unfolding definite_goals participant_count
  goals_lem value =
      goals-shares (participant_count outputs) value
        (max_possible_fee percentage_fee min_base_fee value) (other_values value outputs)
      ∙ rw (other_values-picked value outputs, greater_fee (percentage_fee value) min_base_fee) refl

  -- The rules, for the inputs' totals by address and the tally of the addresses of each value.
  abbrev pub IsDefinite : List (String × ℕ) → List (ℕ × ℕ) → Type 0
  IsDefinite rows tally =
      (2 ≤ length inputs)
      × (3 ≤ length outputs)
      × ((length outputs + 1) / 2 ≤ length inputs)
      × ((length outputs + 1) / 2 ≤ length rows)
      × ((value : ℕ) × IsFirstMost tally (value, (length outputs + 1) / 2)
          × (value ≢ 546)
          × (value ≢ 2730)
          × ((others : List IoRecord) × Picks (IsOther value) outputs others
              × Partition (amounts rows) (
                  shares ((length outputs + 1) / 2) value
                    (greater (percentage_fee value) min_base_fee) (values_of others))))

  abbrev Fits : List (ℕ × ℕ) → Type 0
  Fits tally =
      (value : ℕ) × IsFirstMost tally (value, (length outputs + 1) / 2)
      × (value ≢ 546)
      × (value ≢ 2730)
      × ((others : List IoRecord) × Picks (IsOther value) outputs others
          × Partition (amounts (grouped_input_values_by_address inputs)) (
              shares ((length outputs + 1) / 2) value (greater (percentage_fee value) min_base_fee)
                (values_of others)))

  FitsDominant-Fits : (tally : List (ℕ × ℕ)) → FitsDominant (most_frequent_value tally) → Fits tally
  unfolding participant_count
  FitsDominant-Fits tally (value, e, p, q, fits) = elim (most_frequent_value-cases tally) [
    | inl (_, f) ↦ absurd (ground (arith, ap (λ (d : Option ℕ × ℕ). d.0) (rw f at e)))
    | inr (best, most, f) ↦
        let same : best ≡ (value, (length outputs + 1) / 2) = cc (rw f at e) in
        let test : IoRecord → Bool = λ o. is_other value o.value in
        (
          value,
          rw same at most,
          p,
          q,
          (
            picked test outputs,
            picked-Picks (IsOther value) test (is_other_iff value) outputs,
            rw (sym (goals_lem value)) fits,
          ),
        )
  ]

  Fits-FitsDominant : (tally : List (ℕ × ℕ)) → Fits tally → FitsDominant (most_frequent_value tally)
  unfolding participant_count
  Fits-FitsDominant tally (value, most, p, q, (others, picks, fits)) =
      elim (most_frequent_value-cases tally) [
        | inl (e, _) ↦
            elim (subst (λ t. IsFirstMost t (value, (length outputs + 1) / 2)) e most) [ ]
        | inr (best, first, f) ↦
            let same = first_most_unique tally best (value, (length outputs + 1) / 2) first most in
            let test : IoRecord → Bool = λ o. is_other value o.value in
            let chosen =
              Picks-picked (IsOther value) test (is_other_iff value) outputs others picks in
            (value, rw (f, same) refl, p, q, rw (goals_lem value, sym chosen) fits)
      ]

  -- Without a depth limit, a transaction passes the rules of the definite JoinMarket detector
  -- exactly when it has two inputs and three outputs at least, and no more participants, which is
  -- half of the outputs rounded up, than inputs and than addresses of inputs with a value; and the
  -- first of the values with the most distinct addresses, in their order of appearance, has one for
  -- each participant, is not 546 or 2730, and the inputs' totals by address can fill the
  -- participants' shares. A share is that value with one of the other outputs' values, while there
  -- is one, less the greater one of the two fees.
  pub explain_joinmarket_definite_iff :
      (rows : List (String × ℕ)) × (tally : List (ℕ × ℕ)) × IsGrouping inputs rows
      × IsAddressTally outputs tally
      × (((explain_joinmarket_definite percentage_fee min_base_fee 0 inputs outputs).would_pass
            ≡ true)
          ↔ IsDefinite rows tally)
  unfolding explain_joinmarket_definite participant_count
  explain_joinmarket_definite_iff =
      let tally = address_counts (output_addresses_by_value outputs) in
      let code = explain_from_iff (most_frequent_value tally) in
      (
        grouped_input_values_by_address inputs,
        tally,
        grouped_input_values-IsGrouping inputs,
        address_counts-IsAddressTally outputs,
        (
          λ h.
              let ((two, three, ins, unique), fits) = code.0 h in
              (two, three, ins, unique, FitsDominant-Fits tally fits),
          λ (two, three, ins, unique, fits).
              code.1 ((two, three, ins, unique), Fits-FitsDominant tally fits),
        ),
      )
