-- ===== src/Heuristics/Wasabi2Laws.antt =====
-- What a transaction that passes the Wasabi 2 rules is like.
mod Records
use Records.{IsDescending, values_descending_iff, AllowsTypes, text_of, text-mem}
use mathlib.Core.List.{Memᴰ}
use coinjoin_pipeline.Base.{
  to_set, contains-to_set, IsDistinct, ◌≢◌, ◌∙◌, if◌then◌else◌, leb, subset-mem, mem-subset, ℕ, ◌≡◌,
  ◌≤◌, refl, sym, ◌↔◌, inl, inr, String, Bool, true, false, List, [], ◌∷◌, length, arith, Option,
  none, some, string_equality, Option-cases, contains, ◌∈◌, nat_equality, subset,
}
use coinjoin_pipeline.Heuristics.Denominations.{denomination_series}
use coinjoin_pipeline.Heuristics.DenominationLaws.{
  IsDenomination, wasabi2_blocksci_denominations_lem,
}
use coinjoin_pipeline.Heuristics.Picks.{
  Picks, picked, picked-Picks, Picks-picked, to_set-IsDistinct, length-distinct,
}
use coinjoin_pipeline.Heuristics.Definite.{passed, no_failed_rules}
use coinjoin_pipeline.Heuristics.Subset.{is_false}
use coinjoin_pipeline.Heuristics.Wasabi2.{
  from_change_block, addresses, known_count, is_known, denominations, WasabiRecord,
  values_descending, unique_addresses, address_types, wasabi2_allowed_address_types, types_verdict,
  address_type_rule, wasabi2_default_input_threshold, wasabi2_denomination_ratio,
  wasabi2_known_denomination_count, threshold_or, not_before, explain_wasabi2_heuristic,
}

passed_iff : (b : Bool) → (is_false (passed b) ≡ false) ↔ (b ≡ true)
passed_iff b = ground arith

types_verdict_iff :
    (types : List String)
    → (is_false (types_verdict types) ≡ false)
      ↔ ((t : String) → t ∈ types → t ∈ wasabi2_allowed_address_types)
unfolding types_verdict contains
types_verdict_iff [] = (λ h t m. absurd (ground arith), λ h. refl)
types_verdict_iff (x ∷ types) =
    let allowed : Bool = subset (x ∷ types) wasabi2_allowed_address_types in
    (
      λ h t m. subset-mem (x ∷ types) wasabi2_allowed_address_types t ((passed_iff allowed).0 h) m,
      λ h. (passed_iff allowed).1 (mem-subset (x ∷ types) wasabi2_allowed_address_types h),
    )

not_before_iff :
    (first : ℕ) (height : Option ℕ)
    → (not_before first height ≡ true) ↔ ((h : ℕ) × (height ≡ some h) × (first ≤ h))
not_before_iff first none = (λ h. absurd (ground arith), λ (h, e, p). cc e)
not_before_iff first (some n) =
    (λ h. (n, refl, ground arith), λ (h, e, p). let same : n ≡ h = cc e in ground arith)

types_iff :
    (records : List WasabiRecord)
    → (is_false (types_verdict (address_types records)) ≡ false) ↔ AllowsTypes records
unfolding address_types
types_iff records =
    let all = types_verdict_iff (address_types records) in
    (
      λ h r m t e n.
          all.0 h t
            (text-mem address_types (λ r. r.address_type) refl (λ r rs. refl) records r t m e n),
      λ h. all.1 (λ t m.
          let (r, k, e, n) =
            text_of address_types (λ r. r.address_type) refl (λ r rs. refl) records t m in
          h r k t e n),
    )

-- At least so many distinct addresses stand in the records.
abbrev pub HasAddresses : ℕ → List WasabiRecord → Type 0
HasAddresses n records =
    (found : List String) × IsDistinct found
    × (n ≤ length found)
    × ((a : String)
        → a ∈ found
        → (r : WasabiRecord) × Memᴰ r records × (r.address ≡ some a) × (a ≢ ""))

unique_addresses_iff :
    (n : ℕ) (records : List WasabiRecord)
    → (n ≤ length (unique_addresses records)) ↔ HasAddresses n records
unfolding unique_addresses addresses
unique_addresses_iff n records = (
  λ h. (
    to_set (addresses records),
    to_set-IsDistinct (addresses records),
    h,
    λ a m.
        text_of addresses (λ r. r.address) refl (λ r rs. refl) records a
          (sym (contains-to_set a (addresses records)) ∙ m),
  ),
  λ (found, distinct, many, all).
      let fewer = length-distinct found (to_set (addresses records)) distinct (λ a m.
        let (r, k, e, g) = all a m in
        contains-to_set a (addresses records)
        ∙ text-mem addresses (λ r. r.address) refl (λ r rs. refl) records r a k e g) in
      omega (arith, fewer, many),
)

-- The block of the change of rules is 850237.
abbrev pub is_late : Option ℕ → Bool
is_late none = false
is_late (some height) = leb 850237 height

abbrev pub least_inputs : Option ℕ → Option ℕ → ℕ
least_inputs (some least) height = least
least_inputs none height = if is_late height then 20 else 50

-- The output has one of the denominations of BlockSci.
abbrev pub HasDenomination : WasabiRecord → Type 0
HasDenomination r = (v : ℕ) × (r.value ≡ some v) × IsDenomination denomination_series v

denominations_iff : (v : ℕ) → (v ∈ denominations) ↔ IsDenomination denomination_series v
denominations_iff v = let (values, e, all) = wasabi2_blocksci_denominations_lem in rw e (all v)

is_known_iff : (r : WasabiRecord) → (is_known denominations r.value ≡ true) ↔ HasDenomination r
is_known_iff r = elim (Option-cases r.value) [
  | inl e ↦ rw e (λ h. cc h, λ (v, f, d). cc f)
  | inr (x, e) ↦ rw e (
    λ h. (x, refl, (denominations_iff x).0 h),
    λ (v, f, d). let same : x ≡ v = cc f in rw same ((denominations_iff v).1 d),
  )
]

known_count-picked :
    (values : List ℕ) (records : List WasabiRecord)
    → known_count values records ≡ length (picked (λ r. is_known values r.value) records)
unfolding known_count picked
known_count-picked values [] = refl
known_count-picked values (r ∷ records) = ground (arith, known_count-picked values records)

-- So many of the outputs have a denomination as the comparison with the ratio asks.
abbrev pub HasKnown : (ℕ → ℕ → ℕ → Bool) → List WasabiRecord → Option ℕ → Type 0
HasKnown exceeds outputs height =
    (known : List WasabiRecord) × Picks HasDenomination outputs known
    × (exceeds (length known) (length outputs) (if is_late height then 75 else 80) ≡ true)

change_at : (height : Option ℕ) → from_change_block height ≡ is_late height
change_at none = refl
change_at (some height) = refl

ratio_at :
    (height : Option ℕ) → wasabi2_denomination_ratio height ≡ (if is_late height then 75 else 80)
unfolding wasabi2_denomination_ratio
ratio_at height = rw (change_at height) refl

least_at :
    (least height : Option ℕ)
    → threshold_or least (wasabi2_default_input_threshold height) ≡ least_inputs least height
unfolding wasabi2_default_input_threshold
least_at (some least) height = refl
least_at none height = rw (change_at height) refl

module _ (exceeds : ℕ → ℕ → ℕ → Bool) (inputs outputs : List WasabiRecord)
    (block_height min_input_count : Option ℕ) (first_wasabi2_block : ℕ) where
  rules_passed :
      ((explain_wasabi2_heuristic exceeds inputs outputs block_height min_input_count
          first_wasabi2_block).would_pass
        ≡ true)
      ↔ ((not_before first_wasabi2_block block_height ≡ true)
          × (is_false (address_type_rule inputs) ≡ false)
          × (is_false (address_type_rule outputs) ≡ false)
          × (threshold_or min_input_count (wasabi2_default_input_threshold block_height)
              ≤ length inputs)
          × (values_descending inputs ≡ true)
          × (5 ≤ length (unique_addresses inputs))
          × (values_descending outputs ≡ true)
          × (5 ≤ length (unique_addresses outputs))
          × (exceeds
                (wasabi2_known_denomination_count outputs)
                (length outputs)
                (wasabi2_denomination_ratio block_height)
              ≡ true))
  unfolding explain_wasabi2_heuristic no_failed_rules
  rules_passed = ground arith

  -- What the rules ask of a transaction.
  abbrev pub IsWasabi2 : Type 0
  IsWasabi2 =
      ((h : ℕ) × (block_height ≡ some h) × (first_wasabi2_block ≤ h))
      × AllowsTypes inputs
      × AllowsTypes outputs
      × (least_inputs min_input_count block_height ≤ length inputs)
      × IsDescending inputs
      × HasAddresses 5 inputs
      × IsDescending outputs
      × HasAddresses 5 outputs
      × HasKnown exceeds outputs block_height

  known_iff :
      (exceeds
          (wasabi2_known_denomination_count outputs)
          (length outputs)
          (wasabi2_denomination_ratio block_height)
        ≡ true)
      ↔ HasKnown exceeds outputs block_height
  unfolding wasabi2_known_denomination_count
  known_iff =
      let test : WasabiRecord → Bool = λ r. is_known denominations r.value in
      let count = known_count-picked denominations outputs in
      let ratio = ratio_at block_height in
      (
        λ h. (
          picked test outputs,
          picked-Picks HasDenomination test is_known_iff outputs,
          rw (sym count, sym ratio) h,
        ),
        λ (known, picks, h).
            let same = Picks-picked HasDenomination test is_known_iff outputs known picks in
            rw (count, sym same, ratio) h,
      )

  -- A transaction passes the Wasabi 2 rules exactly when it is in a block that is not before the first
  -- one; each address type that an input or output has is one of two, in either case; it has the given
  -- number of inputs, or else 20 from block 850237 on and 50 before; every input and output has a
  -- value, and neither values rise; the inputs, and the outputs, have five distinct addresses; and the
  -- number of the outputs of a denomination passes the comparison with 0.75 of the outputs from block
  -- 850237 on, and with 0.8 before.
  pub explain_wasabi2_heuristic_iff :
      ((explain_wasabi2_heuristic exceeds inputs outputs block_height min_input_count
          first_wasabi2_block).would_pass
        ≡ true)
      ↔ IsWasabi2
  unfolding address_type_rule
  explain_wasabi2_heuristic_iff = (
    λ h.
        let (block, ins, outs, many, falls, apart, fall, aparts, known) = rules_passed.0 h in
        (
          (not_before_iff first_wasabi2_block block_height).0 block,
          (types_iff inputs).0 ins,
          (types_iff outputs).0 outs,
          rw (sym (least_at min_input_count block_height)) many,
          (values_descending_iff inputs).0 falls,
          (unique_addresses_iff 5 inputs).0 apart,
          (values_descending_iff outputs).0 fall,
          (unique_addresses_iff 5 outputs).0 aparts,
          known_iff.0 known,
        ),
    λ (block, ins, outs, many, falls, apart, fall, aparts, known). rules_passed.1 (
      (not_before_iff first_wasabi2_block block_height).1 block,
      (types_iff inputs).1 ins,
      (types_iff outputs).1 outs,
      rw (least_at min_input_count block_height) many,
      (values_descending_iff inputs).1 falls,
      (unique_addresses_iff 5 inputs).1 apart,
      (values_descending_iff outputs).1 fall,
      (unique_addresses_iff 5 outputs).1 aparts,
      known_iff.1 known,
    ),
  )
