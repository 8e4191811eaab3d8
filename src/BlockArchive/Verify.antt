-- ===== src/BlockArchive/Verify.antt =====
-- block_archive.py: `verify`, the check of downloaded files before a parse. The sizes and checksums
-- of the files on disk are parameters.
use coinjoin_pipeline.Base.{
  ℕ, ◌+◌, String, Bool, false, not, ◌&&◌, ◌||◌, List, [], ◌∷◌, ◌++◌, Option, none, some,
  if◌then◌else◌, ltb, leb, nat_beq, ◌==◌, string_equality,
}
use coinjoin_pipeline.BlockArchive.Files.{
  Range, Sidecar, Source, ranges, Answer, fine, raised, ArchiveError, require_contiguous, maximum,
}

-- `(start, end)` pairs in the order of tuples.
unfoldable pub range_leb : Range → Range → Bool
range_leb a b = ltb a.low b.low || nat_beq a.low b.low && leb a.high b.high

unfoldable pub insert_range : Range → List Range → List Range
insert_range r [] = r ∷ []
insert_range r (q ∷ rest) =
    let later = q ∷ insert_range r rest in if range_leb r q then r ∷ q ∷ rest else later

unfoldable pub sort_ranges : List Range → List Range
sort_ranges [] = []
sort_ranges (r ∷ rest) = insert_range r (sort_ranges rest)

-- The loop over the sorted pairs: the next height that no pair up to here holds.
unfoldable pub advance : ℕ → List Range → ℕ
advance next_height [] = next_height
advance next_height (r ∷ rest) =
    let further = advance (maximum next_height (r.high + 1)) rest in
    if ltb next_height r.low then next_height else further

unfoldable pub all_ranges : List Sidecar → List Range
all_ranges [] = []
all_ranges (s ∷ sidecars) = ranges s ++ all_ranges sidecars

unfoldable pub check_heights : List Sidecar → ℕ → ℕ → Answer (Unit {0})
check_heights sidecars from_height max_block =
    if leb (advance from_height (sort_ranges (all_ranges sidecars))) max_block
    then raised ArchiveError.missing_height
    else fine tt

-- The size of a block file when it is a file, and the digest of its bytes.
module _ (file_size : String → Option ℕ) (file_sha256 : String → String) where
  unfoldable pub has_size : String → ℕ → Bool
  has_size name size = elim (file_size name) [ none ↦ false | some found ↦ nat_beq found size ]

  unfoldable pub check_files : List Sidecar → Answer (Unit {0})
  unfolding has_size
  check_files [] = fine tt
  check_files (s ∷ sidecars) =
      let rest = check_files sidecars in
      if not (has_size s.name s.size)
      then raised ArchiveError.changed_file
      else if not (file_sha256 s.name == s.sha256)
      then raised ArchiveError.checksum_mismatch
      else rest

  -- The files numbered without a gap, then their contents, then the heights.
  unfoldable pub verify_from : List Sidecar → ℕ → ℕ → ℕ → Answer (Unit {0})
  verify_from sidecars max_block from_height from_file =
      elim (require_contiguous sidecars from_file) [
        | raised e ↦ raised e
        | fine _ ↦ elim (check_files sidecars) [
          | raised e ↦ raised e
          | fine _ ↦ check_heights sidecars from_height max_block
        ]
      ]

  unfoldable pub verify : List Sidecar → ℕ → Option Source → Answer (Unit {0})
  unfolding verify_from
  verify sidecars max_block none = verify_from sidecars max_block 0 0
  verify sidecars max_block (some source) =
      verify_from sidecars max_block (source.max_block + 1) source.last_file
