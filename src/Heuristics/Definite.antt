-- ===== src/Heuristics/Definite.antt =====
-- heuristics.py: the groupings of inputs and outputs, and `explain_joinmarket_definite_heuristic`. The
-- texts of the rules (what was observed, what is expected) are left out. `int(value * percentage_fee)`
-- is a parameter, as it rounds in floating point.
use coinjoin_pipeline.Base.{
  ◌/◌, ℕ, zero, suc, ◌+◌, ◌-◌, String, Bool, true, false, List, [], ◌∷◌, ◌++◌, length,
  if◌then◌else◌, ltb, leb, nat_beq, Option, none, some, ◌==◌, string_equality, not, ◌&&◌, contains,
  Equality, nat_equality,
}
use coinjoin_pipeline.Heuristics.Subset.{is_false, Verdict, joinmarket_subset_result}

-- An input or output: its `value` and `address`, when it has them.
pub record IoRecord : Type 0 where
  pub value : Option ℕ
  pub address : Option String

-- `grouped[key] = grouped.get(key, 0) + amount`: a new key comes last.
unfoldable pub add_to : {K : Type 0} ⦃e : Equality K⦄ → K → ℕ → List (K × ℕ) → List (K × ℕ)
add_to key amount [] = (key, amount) ∷ []
add_to key amount ((k, n) ∷ grouped) =
    let rest = add_to key amount grouped in
    if k == key then (k, n + amount) ∷ grouped else (k, n) ∷ rest

abbrev pub grouped_add : Option String → Option ℕ → List (String × ℕ) → List (String × ℕ)
grouped_add (some address) (some value) grouped = add_to address value grouped
grouped_add _ _ grouped = grouped

unfoldable pub group_from : List IoRecord → List (String × ℕ) → List (String × ℕ)
group_from [] grouped = grouped
group_from (i ∷ inputs) grouped = group_from inputs (grouped_add i.address i.value grouped)

unfoldable pub grouped_input_values_by_address : List IoRecord → List (String × ℕ)
unfolding group_from
grouped_input_values_by_address inputs = group_from inputs []

-- `grouped.setdefault(value, set()).add(address)`
unfoldable pub add_address : ℕ → String → List (ℕ × List String) → List (ℕ × List String)
add_address value address [] = (value, address ∷ []) ∷ []
add_address value address ((v, found) ∷ grouped) =
    let rest = add_address value address grouped in
    if v == value
    then (v, if contains address found then found else address ∷ found) ∷ grouped
    else (v, found) ∷ rest

abbrev pub addresses_add :
    Option ℕ → Option String → List (ℕ × List String) → List (ℕ × List String)
addresses_add (some value) (some address) grouped = add_address value address grouped
addresses_add _ _ grouped = grouped

unfoldable pub addresses_from : List IoRecord → List (ℕ × List String) → List (ℕ × List String)
addresses_from [] grouped = grouped
addresses_from (o ∷ outputs) grouped =
    addresses_from outputs (addresses_add o.value o.address grouped)

unfoldable pub output_addresses_by_value : List IoRecord → List (ℕ × List String)
unfolding addresses_from
output_addresses_by_value outputs = addresses_from outputs []

-- `{value: len(addresses) for value, addresses in output_addresses.items()}`
unfoldable pub address_counts : List (ℕ × List String) → List (ℕ × ℕ)
address_counts [] = []
address_counts ((v, addresses) ∷ grouped) = (v, length addresses) ∷ address_counts grouped

-- `max(counts.items(), key=...)`: the first item of the greatest count.
unfoldable pub max_count : ℕ × ℕ → List (ℕ × ℕ) → ℕ × ℕ
max_count best [] = best
max_count best (c ∷ counts) =
    let keep = max_count best counts in
    let change = max_count c counts in if ltb best.1 c.1 then change else keep

unfoldable pub most_frequent_value : List (ℕ × ℕ) → Option ℕ × ℕ
most_frequent_value [] = (none, 0)
most_frequent_value (c ∷ counts) = let best = max_count c counts in (some best.0, best.1)

unfoldable pub replicate : ℕ → ℕ → List ℕ
replicate zero v = []
replicate (suc n) v = v ∷ replicate n v

-- The values of the outputs that are not the dominant one, in order.
abbrev pub other_value : ℕ → Option ℕ → List ℕ
other_value dominant none = []
other_value dominant (some v) = if nat_beq v dominant then [] else v ∷ []

unfoldable pub other_values : ℕ → List IoRecord → List ℕ
other_values dominant [] = []
other_values dominant (o ∷ outputs) = other_value dominant o.value ++ other_values dominant outputs

-- The loop over `bucket_index`: the n-th other value is added to the n-th goal, if there is one.
unfoldable pub add_values : List ℕ → List ℕ → List ℕ
add_values [] values = []
add_values goals [] = goals
add_values (g ∷ goals) (v ∷ values) = (g + v) ∷ add_values goals values

unfoldable pub after_fee : ℕ → List ℕ → List ℕ
after_fee fee [] = []
after_fee fee (g ∷ goals) = (if ltb g fee then 0 else g - fee) ∷ after_fee fee goals

abbrev pub amounts : {K : Type 0} → List (K × ℕ) → List ℕ
amounts [] = []
amounts ((k, n) ∷ grouped) = n ∷ amounts grouped

-- A rule with whether it passed; a verdict that timed out is `None`.
abbrev pub passed : Bool → Verdict
passed b = if b then Verdict.filled else Verdict.impossible

unfoldable pub no_failed_rules : List (String × Verdict) → Bool
no_failed_rules [] = true
no_failed_rules ((name, v) ∷ rules) = not (is_false v) && no_failed_rules rules

-- What `_joinmarket_explanation` returns: the rules and `would_pass_python_rules`.
pub record Explanation : Type 0 where
  pub rules : List (String × Verdict)
  pub would_pass : Bool

abbrev is_true : Option Verdict → Bool
is_true (some Verdict.filled) = true
is_true _ = false

unfoldable pub joinmarket_explanation : List (String × Verdict) → Option Verdict → Explanation
joinmarket_explanation rules subset_passed = record {
  rules = rules;
  would_pass = no_failed_rules rules && is_true subset_passed;
}

-- `(len(outputs) + 1) // 2`
unfoldable pub participant_count : List IoRecord → ℕ
participant_count outputs = (length outputs + 1) / 2

-- The rule's `passed` of a subset that was not evaluated is `None`, as after a timeout.
abbrev pub rule_of : Option Verdict → Verdict
rule_of none = Verdict.timeout
rule_of (some v) = v

abbrev pub not_dust : Option ℕ → Bool
not_dust none = false
not_dust (some value) = not (nat_beq value 546) && not (nat_beq value 2730)

module _ (percentage_fee : ℕ → ℕ) (min_base_fee : ℕ) where
  abbrev pub max_possible_fee : ℕ → ℕ
  max_possible_fee value =
      if ltb min_base_fee (percentage_fee value) then percentage_fee value else min_base_fee

  -- `fee_adjusted_bucket_goals`, for a dominant value.
  unfoldable pub definite_goals : List IoRecord → ℕ → List ℕ
  definite_goals outputs value =
      after_fee (max_possible_fee value)
        (add_values (replicate (participant_count outputs) value) (other_values value outputs))

  module _ (max_depth : ℕ) where
    unfoldable pub definite_subset : List IoRecord → List IoRecord → Option ℕ → Option Verdict
    definite_subset inputs outputs none = none
    definite_subset inputs outputs (some value) =
        some
          (joinmarket_subset_result (amounts (grouped_input_values_by_address inputs))
            (definite_goals outputs value) max_depth).verdict

    -- The rules, for a dominant value and the number of its addresses.
    unfoldable pub explain_from : Option ℕ × ℕ → List IoRecord → List IoRecord → Explanation
    explain_from (dominant, addresses) inputs outputs =
        let subset_passed = definite_subset inputs outputs dominant in
        let participants = participant_count outputs in
        joinmarket_explanation
          (("basic_size", passed (leb 2 (length inputs) && leb 3 (length outputs)))
            ∷ ("participant_count_vs_inputs", passed (leb participants (length inputs)))
            ∷ (
              "participant_count_vs_unique_input_addresses",
              passed (leb participants (length (grouped_input_values_by_address inputs))),
            )
            ∷ ("dominant_output_address_count", passed (nat_beq addresses participants))
            ∷ ("dominant_output_value_not_dust_exclusion", passed (not_dust dominant))
            ∷ ("subset_partition_after_fee", rule_of subset_passed)
            ∷ [])
          subset_passed

    unfoldable pub explain_joinmarket_definite : List IoRecord → List IoRecord → Explanation
    explain_joinmarket_definite inputs outputs =
        explain_from (most_frequent_value (address_counts (output_addresses_by_value outputs)))
          inputs outputs
