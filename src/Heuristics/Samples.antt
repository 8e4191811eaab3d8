-- ===== src/Heuristics/Samples.antt =====
-- Values and goals at which the laws of heuristics.py are tried.
use coinjoin_pipeline.Base.{
  ℕ, ◌≡◌, ◌≢◌, ◌≤◌, refl, ◌↔◌, String, Bool, true, List, [], ◌∷◌, arith, ltb, some, string_equality,
  ◌*◌, nat_equality,
}
use coinjoin_pipeline.Heuristics.Denominations.{add_all, add_series}
use coinjoin_pipeline.Heuristics.Wasabi2.{
  wasabi2_denomination_ratio, WasabiRecord, explain_wasabi2_heuristic,
}
use coinjoin_pipeline.Heuristics.Wasabi2Laws.{explain_wasabi2_heuristic_iff, IsWasabi2}
use coinjoin_pipeline.Heuristics.Subset.{
  Verdict, joinmarket_subset_result, search, try_buckets, sort_buckets, insert_bucket, active,
  sort_descending, insert_descending, remaining,
}
use coinjoin_pipeline.Heuristics.Partition.{Partition}
use coinjoin_pipeline.Heuristics.SubsetSound.{joinmarket_subset_result_sound}
use coinjoin_pipeline.Heuristics.SubsetComplete.{joinmarket_subset_result_complete}
use coinjoin_pipeline.Heuristics.Definite.{no_failed_rules, IoRecord, explain_joinmarket_definite}
use coinjoin_pipeline.Heuristics.DefiniteLaws.{explain_joinmarket_definite_iff, IsDefinite}
use coinjoin_pipeline.Heuristics.Possible.{explain_joinmarket_possible}
use coinjoin_pipeline.Heuristics.PossibleLaws.{
  explain_joinmarket_possible_iff, IsPossible, IsUnknown,
}
use coinjoin_pipeline.Heuristics.Picks.{Picks}
use coinjoin_pipeline.Heuristics.Tallies.{IsGrouping, IsTally}
use coinjoin_pipeline.Heuristics.AddressTallies.{IsAddressTally}
use coinjoin_pipeline.Heuristics.SubsetDepth.{
  joinmarket_subset_result_depth, joinmarket_subset_result_iff,
}

abbrev inputs : List ℕ
inputs = 3 ∷ 5 ∷ 4 ∷ []

abbrev reachable : List ℕ
reachable = 7 ∷ 5 ∷ []

abbrev unreachable : List ℕ
unreachable = 6 ∷ 6 ∷ []

reachable_filled : (joinmarket_subset_result inputs reachable 10).verdict ≡ Verdict.filled
unfolding joinmarket_subset_result search try_buckets sort_buckets insert_bucket active
    sort_descending insert_descending remaining
reachable_filled = refl

unreachable_impossible :
    (joinmarket_subset_result inputs unreachable 10).verdict ≡ Verdict.impossible
unfolding joinmarket_subset_result search try_buckets sort_buckets insert_bucket active
    sort_descending insert_descending remaining
unreachable_impossible = refl

joinmarket_subset_result_sound_example : Partition inputs reachable
joinmarket_subset_result_sound_example =
    joinmarket_subset_result_sound inputs reachable 10 reachable_filled

joinmarket_subset_result_complete_example : ¬ Partition inputs unreachable
joinmarket_subset_result_complete_example =
    joinmarket_subset_result_complete inputs unreachable 10 unreachable_impossible

joinmarket_subset_result_iff_example :
    ((joinmarket_subset_result inputs unreachable 0).verdict ≡ Verdict.filled)
    ↔ Partition inputs unreachable
joinmarket_subset_result_iff_example = joinmarket_subset_result_iff inputs unreachable

two_not_zero : ◌≢◌ {A = ℕ} 2 0
two_not_zero = omega arith

joinmarket_subset_result_depth_example :
    ((joinmarket_subset_result inputs unreachable 2).depth ≤ 3)
    × ((joinmarket_subset_result inputs unreachable 2).verdict ≢ Verdict.timeout
        → (joinmarket_subset_result inputs unreachable 2).depth ≤ 2)
joinmarket_subset_result_depth_example =
    joinmarket_subset_result_depth inputs unreachable 2 two_not_zero

abbrev coin : String → ℕ → IoRecord
coin address value = record { value = some value; address = some address }

abbrev spent : List IoRecord
spent = coin "a" 9000 ∷ coin "b" 8000 ∷ coin "a" 500 ∷ []

abbrev created : List IoRecord
created = coin "c" 7000 ∷ coin "d" 7000 ∷ coin "e" 1500 ∷ []

explain_joinmarket_definite_iff_example :
    (rows : List (String × ℕ)) × (tally : List (ℕ × ℕ)) × IsGrouping spent rows
    × IsAddressTally created tally
    × (((explain_joinmarket_definite (λ value. 0) 500 0 spent created).would_pass ≡ true)
        ↔ IsDefinite (λ value. 0) 500 spent created rows tally)
explain_joinmarket_definite_iff_example =
    explain_joinmarket_definite_iff (λ value. 0) 500 spent created

explain_joinmarket_possible_iff_example :
    (rows : List (String × ℕ)) × (unknown : List IoRecord) × (tally : List (ℕ × ℕ)) × IsGrouping
      spent rows
    × Picks (IsUnknown spent) created unknown
    × IsTally unknown tally
    × (((explain_joinmarket_possible (λ value. 0) 500 0 spent created).would_pass ≡ true)
        ↔ IsPossible (λ value. 0) 500 spent created rows unknown tally)
explain_joinmarket_possible_iff_example =
    explain_joinmarket_possible_iff (λ value. 0) 500 spent created

-- Five inputs and outputs of falling values, all outputs powers of two.
abbrev wasabi_record : ℕ → String → WasabiRecord
wasabi_record value address = record {
  value = some value;
  address = some address;
  address_type = some "witness_pubkeyhash";
}

abbrev wasabi_inputs : List WasabiRecord
wasabi_inputs =
    wasabi_record 140000 "a"
    ∷ wasabi_record 70000 "b"
    ∷ wasabi_record 40000 "c"
    ∷ wasabi_record 20000 "d"
    ∷ wasabi_record 10000 "e"
    ∷ []

abbrev wasabi_outputs : List WasabiRecord
wasabi_outputs =
    wasabi_record 131072 "f"
    ∷ wasabi_record 65536 "g"
    ∷ wasabi_record 32768 "h"
    ∷ wasabi_record 16384 "i"
    ∷ wasabi_record 8192 "j"
    ∷ []

abbrev exceeds_exactly : ℕ → ℕ → ℕ → Bool
exceeds_exactly count outputs percent = ltb (outputs * percent) (count * 100)

wasabi_passes :
    (explain_wasabi2_heuristic exceeds_exactly wasabi_inputs wasabi_outputs
      (some 900000)
      (some 5)
      1).would_pass
    ≡ true
unfolding explain_wasabi2_heuristic no_failed_rules wasabi2_denomination_ratio add_all add_series
wasabi_passes = refl

explain_wasabi2_heuristic_iff_example :
    ((explain_wasabi2_heuristic exceeds_exactly wasabi_inputs wasabi_outputs
        (some 900000)
        (some 5)
        1).would_pass
      ≡ true)
    ↔ IsWasabi2 exceeds_exactly wasabi_inputs wasabi_outputs (some 900000) (some 5) 1
explain_wasabi2_heuristic_iff_example =
    explain_wasabi2_heuristic_iff exceeds_exactly wasabi_inputs wasabi_outputs (some 900000)
      (some 5) 1
