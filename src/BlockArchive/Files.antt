-- ===== src/BlockArchive/Files.antt =====
-- block_archive.py: sidecars, `require_contiguous`, `last_file_needed`, `index_sha256`, `plan_files`
-- and the coverage check at the end of `verify`. Heights, numbers and sizes are what `as_height`
-- admits: natural numbers.
use Prim.Native.String.{◌++◌ as str_append}
use coinjoin_pipeline.Base.{
  ℕ, ◌+◌, String, Bool, false, ◌&&◌, ◌||◌, List, [], ◌∷◌, ◌++◌, take, drop, length, Option, none,
  some, if◌then◌else◌, ltb, leb, nat_beq, not, ◌==◌, string_equality,
}

-- `(start, end)`
pub record Range : Type 0 where
  pub low : ℕ
  pub high : ℕ

-- `read_sidecar` refuses a sidecar without height ranges, so there is a first one.
pub record Sidecar : Type 0 where
  pub number : ℕ
  pub name : String
  pub size : ℕ
  pub sha256 : String
  pub first_range : Range
  pub more_ranges : List Range

abbrev pub ranges : Sidecar → List Range
ranges s = s.first_range ∷ s.more_ranges

-- The `ArchiveError`s of the functions below.
pub data ArchiveError : Type 0 where
  gap_before absent_file no_height not_greater changed_files changed_file checksum_mismatch
        missing_height :
      ArchiveError

pub data Answer (A : Type 0) : Type 0 where
  fine : A → Answer A
  raised : ArchiveError → Answer A

abbrev pub tip_margin : ℕ
tip_margin = 6

abbrev pub minimum : ℕ → ℕ → ℕ
minimum a b = if ltb b a then b else a

abbrev pub maximum : ℕ → ℕ → ℕ
maximum a b = if ltb a b then b else a

unfoldable pub lowest : Range → List Range → ℕ
lowest r [] = r.low
lowest r (q ∷ rest) = minimum r.low (lowest q rest)

unfoldable pub lowest_height : Sidecar → ℕ
unfolding lowest
lowest_height s = lowest s.first_range s.more_ranges

unfoldable pub any_holds : ℕ → ℕ → List Range → Bool
any_holds low high [] = false
any_holds low high (r ∷ rest) = leb r.low high && leb low r.high || any_holds low high rest

unfoldable pub holds_any : Sidecar → ℕ → ℕ → Bool
unfolding any_holds
holds_any s low high = any_holds low high (ranges s)

-- The loop of `require_contiguous`: the number that is expected next.
unfoldable pub expect : ℕ → ℕ → List Sidecar → Answer ℕ
expect first expected [] = fine expected
expect first expected (s ∷ sidecars) =
    let next = expect first (expected + 1) sidecars in
    let skipped = expect first expected sidecars in
    if ltb s.number first
    then skipped
    else if nat_beq s.number expected
    then next
    else raised ArchiveError.gap_before

unfoldable pub require_contiguous : List Sidecar → ℕ → Answer (Unit {0})
require_contiguous sidecars first = elim (expect first first sidecars) [
  | fine expected ↦ if nat_beq expected first then raised ArchiveError.absent_file else fine tt
  | raised e ↦ raised e
]

-- The numbers of the files whose lowest height is within the limit.
unfoldable pub numbers_within : ℕ → List Sidecar → List ℕ
numbers_within limit [] = []
numbers_within limit (s ∷ sidecars) =
    let rest = numbers_within limit sidecars in
    if leb (lowest_height s) limit then s.number ∷ rest else rest

unfoldable pub greatest : ℕ → List ℕ → ℕ
greatest n [] = n
greatest n (m ∷ rest) = maximum n (greatest m rest)

unfoldable pub last_file_needed : List Sidecar → ℕ → Answer ℕ
last_file_needed sidecars max_block = elim (numbers_within (max_block + tip_margin) sidecars) [
  | [] ↦ raised ArchiveError.no_height
  | n ∷ rest ↦ fine (greatest n rest)
]

unfoldable pub holding : ℕ → ℕ → List Sidecar → List Sidecar
holding low high [] = []
holding low high (s ∷ sidecars) =
    let rest = holding low high sidecars in if holds_any s low high then s ∷ rest else rest

-- What `read_source_manifest` returns.
pub record Source : Type 0 where
  pub max_block : ℕ
  pub last_file : ℕ
  pub digest : String

unfoldable pub index_text : List Sidecar → String
index_text [] = ""
index_text (s ∷ sidecars) =
    str_append s.name (str_append " " (str_append s.sha256 (str_append "\n" (index_text sidecars))))

-- `plan_files` of a parse.
unfoldable pub plan_parse : List Sidecar → ℕ → Answer (List Sidecar)
plan_parse sidecars max_block = elim (last_file_needed sidecars max_block) [
  | fine needed ↦ fine (take (needed + 1) sidecars)
  | raised e ↦ raised e
]

-- `hashlib.sha256(...).hexdigest()` of a text
module _ (sha256_hex : String → String) where
  unfoldable pub index_sha256 : List Sidecar → ℕ → String
  index_sha256 sidecars last = sha256_hex (index_text (take (last + 1) sidecars))

  -- `plan_files` of an update, after the first check.
  unfoldable pub plan_update : List Sidecar → ℕ → Source → Answer (List Sidecar)
  plan_update sidecars max_block source =
      if leb max_block source.max_block
      then raised ArchiveError.not_greater
      else if leb (length sidecars) source.last_file
          || not (index_sha256 sidecars source.last_file == source.digest)
      then raised ArchiveError.changed_files
      else elim (last_file_needed sidecars max_block) [
        | fine needed ↦ fine (
            holding (source.max_block + 1) max_block (take source.last_file sidecars)
            ++ drop source.last_file (take (maximum source.last_file needed + 1) sidecars))
        | raised e ↦ raised e
      ]

  unfoldable pub plan_files : List Sidecar → ℕ → Option Source → Answer (List Sidecar)
  plan_files sidecars max_block none = elim (require_contiguous sidecars 0) [
    | fine _ ↦ plan_parse sidecars max_block
    | raised e ↦ raised e
  ]
  plan_files sidecars max_block (some source) = elim (require_contiguous sidecars 0) [
    | fine _ ↦ plan_update sidecars max_block source
    | raised e ↦ raised e
  ]
