-- ===== src/OptionRules/NameLaws.antt =====
-- `is_valid_run_id` against its rule in words.
use coinjoin_pipeline.Base.{
  ℕ, ◌≡◌, ◌≤◌, ◌↔◌, String, Bool, true, false, List, [], ◌∷◌, length, arith, string_equality, ◌||◌,
  All, codes, has_substring, is_alphanumeric,
}
use coinjoin_pipeline.OptionRules.Names.{is_punctuation, ends_name, matches_run_id, is_valid_run_id}

-- The first and the last element satisfy a test.
abbrev pub StartsWith : (ℕ → Bool) → List ℕ → Type 0
StartsWith p [] = ⊥
StartsWith p (c ∷ cs) = p c ≡ true

abbrev pub EndsWith : (ℕ → Bool) → List ℕ → Type 0
EndsWith p [] = ⊥
EndsWith p (c ∷ []) = p c ≡ true
EndsWith p (c ∷ d ∷ cs) = EndsWith p (d ∷ cs)

abbrev pub IsRunChar : ℕ → Type 0
IsRunChar c = (is_alphanumeric c || is_punctuation c) ≡ true

-- `RUN_ID_RULE`
abbrev pub IsRunId : String → Type 0
IsRunId run_id =
    (length (codes run_id) ≤ 63)
    × StartsWith is_alphanumeric (codes run_id)
    × EndsWith is_alphanumeric (codes run_id)
    × All IsRunChar (codes run_id)
    × (has_substring run_id ".." ≡ false)

ends_name_lem :
    (cs : List ℕ) → (ends_name cs ≡ true) ↔ (EndsWith is_alphanumeric cs × All IsRunChar cs)
unfolding ends_name
ends_name_lem [] = ground arith
ends_name_lem (c ∷ []) = ground arith
ends_name_lem (c ∷ d ∷ cs) = ground (arith, ends_name_lem (d ∷ cs))

matches_run_id_lem :
    (cs : List ℕ)
    → (matches_run_id cs ≡ true)
      ↔ (StartsWith is_alphanumeric cs × EndsWith is_alphanumeric cs × All IsRunChar cs)
unfolding matches_run_id
matches_run_id_lem [] = ground arith
matches_run_id_lem (c ∷ []) = ground arith
matches_run_id_lem (c ∷ d ∷ cs) = ground (arith, ends_name_lem (d ∷ cs))

-- A run ID is valid exactly when it has at most 63 characters, begins and ends with an alphanumeric
-- one, has only letters, digits, `.`, `_` and `-`, and does not contain `..`.
pub is_valid_run_id_lem : (run_id : String) → (is_valid_run_id run_id ≡ true) ↔ IsRunId run_id
unfolding is_valid_run_id
is_valid_run_id_lem run_id = ground (arith, matches_run_id_lem (codes run_id))
