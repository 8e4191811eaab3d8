-- ===== src/Heuristics/Possible.antt =====
-- heuristics.py: `output_value_counts` and `explain_joinmarket_possible_heuristic`, with the same
-- parameters as the definite detector.
use coinjoin_pipeline.Base.{
  ℕ, ◌-◌, String, Bool, false, List, [], ◌∷◌, length, if◌then◌else◌, ltb, nat_beq, Option, none,
  some, string_equality, not, ◌&&◌, contains, nat_equality,
}
use coinjoin_pipeline.Heuristics.Subset.{Verdict, joinmarket_subset_result}
use coinjoin_pipeline.Heuristics.Definite.{
  IoRecord, add_to, grouped_input_values_by_address, most_frequent_value, amounts, passed, rule_of,
  Explanation, joinmarket_explanation, max_possible_fee,
}

abbrev pub count_value : Option ℕ → List (ℕ × ℕ) → List (ℕ × ℕ)
count_value none counts = counts
count_value (some value) counts = add_to value 1 counts

unfoldable pub counts_from : List IoRecord → List (ℕ × ℕ) → List (ℕ × ℕ)
counts_from [] counts = counts
counts_from (o ∷ outputs) counts = counts_from outputs (count_value o.value counts)

unfoldable pub output_value_counts : List IoRecord → List (ℕ × ℕ)
unfolding counts_from
output_value_counts outputs = counts_from outputs []

abbrev pub keys : List (String × ℕ) → List String
keys [] = []
keys ((k, n) ∷ grouped) = k ∷ keys grouped

abbrev pub is_unknown : List String → Option String → Bool
is_unknown input_addresses none = false
is_unknown input_addresses (some address) = not (contains address input_addresses)

-- The outputs with an address that no input has.
unfoldable pub unknown_from : List String → List IoRecord → List IoRecord
unknown_from input_addresses [] = []
unknown_from input_addresses (o ∷ outputs) =
    let rest = unknown_from input_addresses outputs in
    if is_unknown input_addresses o.address then o ∷ rest else rest

unfoldable pub unknown_outputs : List IoRecord → List IoRecord → List IoRecord
unknown_outputs inputs outputs =
    unknown_from (keys (grouped_input_values_by_address inputs)) outputs

module _ (percentage_fee : ℕ → ℕ) (min_base_fee : ℕ) where
  -- `max(0, value - fee)`, for two buckets
  unfoldable pub possible_goals : ℕ → List ℕ
  possible_goals value =
      let goal_value = value - max_possible_fee percentage_fee min_base_fee value in
      goal_value ∷ goal_value ∷ []

  module _ (max_depth : ℕ) where
    unfoldable pub possible_subset : List IoRecord → Option ℕ → Option Verdict
    possible_subset inputs none = none
    possible_subset inputs (some value) =
        some
          (joinmarket_subset_result (amounts (grouped_input_values_by_address inputs))
            (possible_goals value) max_depth).verdict

    -- The rules, for the count of the dominant value, and the dominant value of the unknown outputs.
    unfoldable pub explain_possible_from :
        ℕ → Option ℕ × ℕ → List IoRecord → List IoRecord → Explanation
    explain_possible_from dominant_count (unknown_value, unknown_count) inputs outputs =
        let subset_passed = possible_subset inputs unknown_value in
        joinmarket_explanation
          ((
            "not_single_input_or_output",
            passed (not (nat_beq (length inputs) 1) && not (nat_beq (length outputs) 1)),
          )
            ∷ ("has_repeated_output_value", passed (ltb 1 dominant_count))
            ∷ (
              "multiple_input_addresses",
              passed (not (nat_beq (length (grouped_input_values_by_address inputs)) 1)),
            )
            ∷ ("multiple_unknown_outputs", passed (ltb 1 (length (unknown_outputs inputs outputs))))
            ∷ ("has_repeated_unknown_output_value", passed (ltb 1 unknown_count))
            ∷ ("two_bucket_subset_after_fee", rule_of subset_passed)
            ∷ [])
          subset_passed

    unfoldable pub explain_joinmarket_possible : List IoRecord → List IoRecord → Explanation
    explain_joinmarket_possible inputs outputs =
        explain_possible_from (most_frequent_value (output_value_counts outputs)).1
          (most_frequent_value (output_value_counts (unknown_outputs inputs outputs))) inputs
          outputs
