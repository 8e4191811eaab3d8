-- ===== src/Heuristics/Wasabi2.antt =====
-- heuristics.py: `explain_wasabi2_heuristic`. The texts of the rules (what was observed, what is
-- expected) are left out. `exceeds` is the comparison of a count with a number of outputs times a
-- ratio given in hundredths, which rounds in floating point.
use coinjoin_pipeline.Base.{
  ℕ, suc, String, Bool, true, false, List, [], ◌∷◌, ◌++◌, length, if◌then◌else◌, leb, Option, none,
  some, ◌==◌, string_equality, ◌&&◌, contains, nat_equality, subset, to_set,
}
use coinjoin_pipeline.Heuristics.Definite.{Explanation, passed, no_failed_rules}
use coinjoin_pipeline.Heuristics.Denominations.{wasabi2_blocksci_denominations}
use coinjoin_pipeline.Heuristics.Subset.{Verdict}

pub record WasabiRecord : Type 0 where
  pub value : Option ℕ
  pub address : Option String
  pub address_type : Option String

-- The values in order, unless one is missing.
unfoldable pub all_values : List WasabiRecord → Option (List ℕ)
all_values [] = some []
all_values (r ∷ records) = elim r.value [
  | none ↦ none
  | some value ↦ elim (all_values records) [ none ↦ none | some rest ↦ some (value ∷ rest) ]
]

unfoldable pub descending : List ℕ → Bool
descending [] = true
descending (v ∷ []) = true
descending (v ∷ w ∷ values) = leb w v && descending (w ∷ values)

unfoldable pub descends : Option (List ℕ) → Bool
unfolding descending
descends none = false
descends (some values) = descending values

unfoldable pub values_descending : List WasabiRecord → Bool
unfolding all_values descends
values_descending records = descends (all_values records)

abbrev pub given_text : Option String → List String
given_text none = []
given_text (some text) = if text == "" then [] else text ∷ []

unfoldable pub addresses : List WasabiRecord → List String
addresses [] = []
addresses (r ∷ records) = given_text r.address ++ addresses records

unfoldable pub unique_addresses : List WasabiRecord → List String
unfolding addresses to_set
unique_addresses records = to_set (addresses records)

unfoldable pub address_types : List WasabiRecord → List String
address_types [] = []
address_types (r ∷ records) = given_text r.address_type ++ address_types records

abbrev pub wasabi2_allowed_address_types : List String
wasabi2_allowed_address_types =
    "WITNESS_PUBKEYHASH" ∷ "WITNESS_UNKNOWN" ∷ "witness_pubkeyhash" ∷ "witness_unknown" ∷ []

-- Without any address type the rule neither passes nor fails.
unfoldable pub types_verdict : List String → Verdict
unfolding subset
types_verdict [] = Verdict.timeout
types_verdict (t ∷ types) = passed (subset (t ∷ types) wasabi2_allowed_address_types)

unfoldable pub address_type_rule : List WasabiRecord → Verdict
unfolding types_verdict address_types
address_type_rule records = types_verdict (address_types records)

abbrev pub from_change_block : Option ℕ → Bool
from_change_block none = false
from_change_block (some height) = leb 850237 height

unfoldable pub wasabi2_default_input_threshold : Option ℕ → ℕ
wasabi2_default_input_threshold height = if from_change_block height then 20 else 50

-- 0.75 and 0.8, in hundredths
unfoldable pub wasabi2_denomination_ratio : Option ℕ → ℕ
wasabi2_denomination_ratio height = if from_change_block height then 75 else 80

abbrev pub is_known : List ℕ → Option ℕ → Bool
is_known denominations none = false
is_known denominations (some value) = contains value denominations

unfoldable pub known_count : List ℕ → List WasabiRecord → ℕ
unfolding contains
known_count denominations [] = 0
known_count denominations (r ∷ records) =
    let rest = known_count denominations records in
    if is_known denominations r.value then suc rest else rest

abbrev pub values_or_none : Option (List ℕ) → List ℕ
values_or_none none = []
values_or_none (some values) = values

abbrev pub denominations : List ℕ
denominations = values_or_none wasabi2_blocksci_denominations

unfoldable pub wasabi2_known_denomination_count : List WasabiRecord → ℕ
unfolding known_count wasabi2_blocksci_denominations
wasabi2_known_denomination_count outputs = known_count denominations outputs

abbrev pub threshold_or : Option ℕ → ℕ → ℕ
threshold_or none default = default
threshold_or (some threshold) default = threshold

abbrev pub not_before : ℕ → Option ℕ → Bool
not_before first none = false
not_before first (some height) = leb first height

module _ (exceeds : ℕ → ℕ → ℕ → Bool) where
  unfoldable pub explain_wasabi2_heuristic :
      List WasabiRecord → List WasabiRecord → Option ℕ → Option ℕ → ℕ → Explanation
  unfolding address_type_rule values_descending unique_addresses wasabi2_known_denomination_count
  explain_wasabi2_heuristic inputs outputs block_height min_input_count first_wasabi2_block =
      let threshold = threshold_or min_input_count (wasabi2_default_input_threshold block_height) in
      let rules : List (String × Verdict) =
        ("first_wasabi2_block", passed (not_before first_wasabi2_block block_height))
        ∷ ("input_address_types", address_type_rule inputs)
        ∷ ("output_address_types", address_type_rule outputs)
        ∷ ("input_count", passed (leb threshold (length inputs)))
        ∷ ("input_values_descending", passed (values_descending inputs))
        ∷ ("unique_input_addresses", passed (leb 5 (length (unique_addresses inputs))))
        ∷ ("output_values_descending", passed (values_descending outputs))
        ∷ ("unique_output_addresses", passed (leb 5 (length (unique_addresses outputs))))
        ∷ (
          "wasabi2_denominations",
          passed (
              exceeds (wasabi2_known_denomination_count outputs) (length outputs)
                (wasabi2_denomination_ratio block_height)),
        )
        ∷ [] in
      record { rules = rules; would_pass = no_failed_rules rules }
