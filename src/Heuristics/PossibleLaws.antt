-- ===== src/Heuristics/PossibleLaws.antt =====
-- What it means for a transaction to pass the rules of the possible JoinMarket detector.
use coinjoin_pipeline.Base.{
  ℕ, ◌-◌, ◌≡◌, ◌≢◌, ◌<◌, refl, sym, ap, ◌∙◌, ◌↔◌, inl, inr, String, true, false, List, [], ◌∷◌,
  length, arith, Option, none, some, string_equality, contains, leb, if◌then◌else◌, Option-cases,
  subst,
}
use coinjoin_pipeline.Heuristics.Subset.{Verdict, joinmarket_subset_result}
use coinjoin_pipeline.Heuristics.Partition.{Partition}
use coinjoin_pipeline.Heuristics.SubsetDepth.{joinmarket_subset_result_iff}
use coinjoin_pipeline.Heuristics.Definite.{
  IoRecord, grouped_input_values_by_address, most_frequent_value, amounts, joinmarket_explanation,
  no_failed_rules,
}
use coinjoin_pipeline.Heuristics.Possible.{
  output_value_counts, unknown_outputs, unknown_from, is_unknown, keys, possible_goals,
  possible_subset, explain_possible_from, explain_joinmarket_possible,
}
use coinjoin_pipeline.Heuristics.Picks.{Picks, picked, picked-Picks}
use coinjoin_pipeline.Heuristics.Tallies.{
  names, IsGrouping, grouped_input_values-IsGrouping, is_paid, IsTally, output_value_counts-IsTally,
  IsFirstMost, first_most_unique, most_frequent_value-cases, HasRepeated, repeated_iff,
}

-- The output has an address of which no input has a value.
abbrev pub IsUnknown : List IoRecord → IoRecord → Type 0
IsUnknown inputs o = (a : String) × (o.address ≡ some a) × (is_paid inputs a ≡ false)

same_names : (rows : List (String × ℕ)) → keys rows ≡ names rows
same_names [] = refl
same_names (row ∷ rows) = ap (λ l. row.0 ∷ l) (same_names rows)

is_unknown_iff :
    (inputs : List IoRecord) (o : IoRecord)
    → (is_unknown (keys (grouped_input_values_by_address inputs)) o.address ≡ true)
      ↔ IsUnknown inputs o
is_unknown_iff inputs o =
    let rows = grouped_input_values_by_address inputs in
    let (_, there, _) = grouped_input_values-IsGrouping inputs in
    elim (Option-cases o.address) [
      | inl e ↦ rw e (λ h. cc h, λ (a, f, n). cc f)
      | inr (x, e) ↦
          let known = ap (contains x) (same_names rows) ∙ there x in
          rw e (
            λ h. (x, refl, ground (arith, h, known)),
            λ (a, f, n). let same : x ≡ a = cc f in ground (arith, rw (sym same) at n, known),
          )
    ]

unknown_from-picked :
    (known : List String) (outputs : List IoRecord)
    → unknown_from known outputs ≡ picked (λ o. is_unknown known o.address) outputs
unfolding unknown_from picked
unknown_from-picked known [] = refl
unknown_from-picked known (o ∷ outputs) = ground (arith, unknown_from-picked known outputs)

unknown_outputs-Picks :
    (inputs outputs : List IoRecord)
    → Picks (IsUnknown inputs) outputs (unknown_outputs inputs outputs)
unfolding unknown_outputs
unknown_outputs-Picks inputs outputs =
    let known = keys (grouped_input_values_by_address inputs) in
    rw (unknown_from-picked known outputs) (
      picked-Picks (IsUnknown inputs) (λ o. is_unknown known o.address) (is_unknown_iff inputs)
        outputs)

-- The fee is the greater one of two, and no more than the value.
abbrev pub after_greater_fee : (ℕ → ℕ) → ℕ → ℕ → ℕ
after_greater_fee percentage_fee min_base_fee value =
    if leb (percentage_fee value) min_base_fee
    then value - min_base_fee
    else value - percentage_fee value

module _ (percentage_fee : ℕ → ℕ) (min_base_fee : ℕ) (inputs outputs : List IoRecord) where
  -- The rules that do not depend on the dominant value of the unknown outputs.
  abbrev FitsOutputs : ℕ → Type 0
  FitsOutputs dominant_count =
      (length inputs ≢ 1)
      × (length outputs ≢ 1)
      × (1 < dominant_count)
      × (length (grouped_input_values_by_address inputs) ≢ 1)
      × (1 < length (unknown_outputs inputs outputs))

  explain_possible_from-none :
      (n m : ℕ)
      → (explain_possible_from percentage_fee min_base_fee 0 n (none, m) inputs outputs).would_pass
        ≡ false
  unfolding explain_possible_from joinmarket_explanation no_failed_rules possible_subset
  explain_possible_from-none n m = ground arith

  explain_possible_from-some :
      (n value m : ℕ)
      → ((explain_possible_from percentage_fee min_base_fee 0 n
            (some value, m)
            inputs
            outputs).would_pass
          ≡ true)
        ↔ (FitsOutputs n
            × (1 < m)
            × ((joinmarket_subset_result
                  (amounts (grouped_input_values_by_address inputs))
                  (possible_goals percentage_fee min_base_fee value)
                  0).verdict
                ≡ Verdict.filled))
  unfolding explain_possible_from joinmarket_explanation no_failed_rules possible_subset
  explain_possible_from-some n value m = ground arith

  -- The dominant value of the unknown outputs stands twice, and two buckets can be filled.
  abbrev FitsUnknown : Option ℕ × ℕ → Type 0
  FitsUnknown unknown =
      (value : ℕ) × (unknown.0 ≡ some value)
      × (1 < unknown.1)
      × Partition (amounts (grouped_input_values_by_address inputs))
          (possible_goals percentage_fee min_base_fee value)

  goals_lem :
      (value : ℕ)
      → possible_goals percentage_fee min_base_fee value
        ≡ after_greater_fee percentage_fee min_base_fee value
          ∷ after_greater_fee percentage_fee min_base_fee value
          ∷ []
  unfolding possible_goals
  goals_lem value = ground arith

  explain_possible_from_iff :
      (n : ℕ) (unknown : Option ℕ × ℕ)
      → ((explain_possible_from percentage_fee min_base_fee 0 n unknown inputs outputs).would_pass
          ≡ true)
        ↔ (FitsOutputs n × FitsUnknown unknown)
  explain_possible_from_iff n (none, m) = (
    λ h. absurd (ground (arith, h, explain_possible_from-none n m)),
    λ (fits, (v, e, more, p)). absurd (ground (arith, e)),
  )
  explain_possible_from_iff n (some value, m) =
      let rules = explain_possible_from-some n value m in
      let search =
        joinmarket_subset_result_iff (amounts (grouped_input_values_by_address inputs)) in
      (
        λ h.
            let (fits, more, filled) = rules.0 h in
            (fits, (value, refl, more, (search _).0 filled)),
        λ (fits, (v, e, more, p)).
            let same : v ≡ value = cc e in
            let filled = (search (possible_goals percentage_fee min_base_fee v)).1 p in
            rules.1 (fits, more, rw same at filled),
      )

  abbrev Fits : List (ℕ × ℕ) → Type 0
  Fits tally =
      (value : ℕ) × (n : ℕ) × IsFirstMost tally (value, n)
      × (1 < n)
      × Partition (amounts (grouped_input_values_by_address inputs)) (
          after_greater_fee percentage_fee min_base_fee value
          ∷ after_greater_fee percentage_fee min_base_fee value
          ∷ [])

  FitsUnknown-Fits : (tally : List (ℕ × ℕ)) → FitsUnknown (most_frequent_value tally) → Fits tally
  FitsUnknown-Fits tally (value, e, more, p) = elim (most_frequent_value-cases tally) [
    | inl (_, f) ↦ absurd (ground (arith, rw f at e))
    | inr (best, most, f) ↦
        let same : best.0 ≡ value = cc (rw f at e) in
        (best.0, best.1, most, rw f at more, rw (same, sym (goals_lem value)) p)
  ]

  Fits-FitsUnknown : (tally : List (ℕ × ℕ)) → Fits tally → FitsUnknown (most_frequent_value tally)
  Fits-FitsUnknown tally (value, n, most, more, p) = elim (most_frequent_value-cases tally) [
    | inl (e, _) ↦ elim (subst (λ t. IsFirstMost t (value, n)) e most) [ ]
    | inr (best, first, f) ↦
        let same : best ≡ (value, n) = first_most_unique tally best (value, n) first most in
        rw (f, same) (value, refl, more, rw (goals_lem value) p)
  ]

  -- The rules, for the inputs' values by address, the unknown outputs and the tally of their values.
  abbrev pub IsPossible : List (String × ℕ) → List IoRecord → List (ℕ × ℕ) → Type 0
  IsPossible rows unknown tally =
      (length inputs ≢ 1)
      × (length outputs ≢ 1)
      × HasRepeated outputs
      × (length rows ≢ 1)
      × (1 < length unknown)
      × ((value : ℕ) × (n : ℕ) × IsFirstMost tally (value, n)
          × (1 < n)
          × Partition (amounts rows) (
              after_greater_fee percentage_fee min_base_fee value
              ∷ after_greater_fee percentage_fee min_base_fee value
              ∷ []))

  -- Without a depth limit, a transaction passes the rules of the possible JoinMarket detector
  -- exactly when it has neither one input nor one output; some output value stands twice; the inputs
  -- with a value do not have exactly one address; two outputs at least are unknown, which is to an
  -- address of which no input has a value; and the first of the most frequent values of the unknown
  -- outputs, in their order of appearance, stands twice there, and two buckets of it after the fee
  -- can be filled from the inputs' totals by address.
  pub explain_joinmarket_possible_iff :
      (rows : List (String × ℕ)) × (unknown : List IoRecord) × (tally : List (ℕ × ℕ)) × IsGrouping
        inputs rows
      × Picks (IsUnknown inputs) outputs unknown
      × IsTally unknown tally
      × (((explain_joinmarket_possible percentage_fee min_base_fee 0 inputs outputs).would_pass
            ≡ true)
          ↔ IsPossible rows unknown tally)
  unfolding explain_joinmarket_possible
  explain_joinmarket_possible_iff =
      let unknown = unknown_outputs inputs outputs in
      let tally = output_value_counts unknown in
      let repeated = repeated_iff outputs in
      let code =
        explain_possible_from_iff (most_frequent_value (output_value_counts outputs)).1
          (most_frequent_value tally) in
      (
        grouped_input_values_by_address inputs,
        unknown,
        tally,
        grouped_input_values-IsGrouping inputs,
        unknown_outputs-Picks inputs outputs,
        output_value_counts-IsTally unknown,
        (
          λ h.
              let ((one, two, more, four, five), fits) = code.0 h in
              (one, two, repeated.0 more, four, five, FitsUnknown-Fits tally fits),
          λ (one, two, more, four, five, fits).
              code.1 ((one, two, repeated.1 more, four, five), Fits-FitsUnknown tally fits),
        ),
      )
