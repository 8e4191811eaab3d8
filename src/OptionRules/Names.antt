-- ===== src/OptionRules/Names.antt =====
-- storage/s3.py: `is_valid_run_id`; verify_chain.py: `is_block_hash`.
use coinjoin_pipeline.Base.{
  ℕ, String, Bool, true, false, List, [], ◌∷◌, length, leb, ◌==◌, string_equality, not, ◌&&◌, ◌||◌,
  codes, has_substring, is_alphanumeric, is_digit, within, nat_equality, list_eq,
}

-- `[._-]`
abbrev pub is_punctuation : ℕ → Bool
is_punctuation c = c == b'.' || c == b'_' || c == b'-'

-- `[A-Za-z0-9._-]*[A-Za-z0-9]`
unfoldable pub ends_name : List ℕ → Bool
ends_name [] = false
ends_name (c ∷ []) = is_alphanumeric c
ends_name (c ∷ d ∷ rest) = (is_alphanumeric c || is_punctuation c) && ends_name (d ∷ rest)

-- `RUN_ID_RE`
unfoldable pub matches_run_id : List ℕ → Bool
unfolding ends_name
matches_run_id [] = false
matches_run_id (c ∷ []) = is_alphanumeric c
matches_run_id (c ∷ d ∷ rest) = is_alphanumeric c && ends_name (d ∷ rest)

unfoldable pub is_valid_run_id : String → Bool
unfolding matches_run_id
is_valid_run_id run_id =
    leb (length (codes run_id)) 63
    && not (has_substring run_id "..")
    && matches_run_id (codes run_id)

abbrev is_lower_hex : ℕ → Bool
is_lower_hex c = is_digit c || within b'a' b'f' c

unfoldable pub all_lower_hex : List ℕ → Bool
all_lower_hex [] = true
all_lower_hex (c ∷ cs) = is_lower_hex c && all_lower_hex cs

unfoldable pub is_block_hash : String → Bool
unfolding all_lower_hex
is_block_hash value = length (codes value) == 64 && all_lower_hex (codes value)

abbrev pub run_id_rule : String
run_id_rule =
    "must be at most 63 characters, begin and end with an alphanumeric character, contain only [A-Za-z0-9._-], and not contain '..'"
