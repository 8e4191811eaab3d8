-- ===== src/BlockArchive/Samples.antt =====
-- Sidecars at which the laws of block_archive.py are tried.
use mathlib.Core.List.{Memᴰ}
use coinjoin_pipeline.Base.{
  ℕ, ◌≡◌, refl, ◌↔◌, String, true, List, [], ◌∷◌, Option, some, string_equality,
}
use coinjoin_pipeline.BlockArchive.Files.{
  Sidecar, Source, fine, plan_files, plan_update, require_contiguous, expect, last_file_needed,
  numbers_within, greatest, lowest_height, lowest, holding, holds_any, any_holds, index_sha256,
}
use coinjoin_pipeline.BlockArchive.Plan.{plan_files-holds}
use coinjoin_pipeline.BlockArchive.Slices.{plan_files-contiguous}
use coinjoin_pipeline.BlockArchive.Verify.{verify}
use coinjoin_pipeline.BlockArchive.Coverage.{verify_iff, IsSound}

abbrev blocks : ℕ → String → ℕ → ℕ → Sidecar
blocks number name low high = record {
  number = number;
  name = name;
  size = 100;
  sha256 = name;
  first_range = record { low = low; high = high };
  more_ranges = [];
}

abbrev archived : List Sidecar
archived =
    blocks 0 "blk00000.dat" 0 9
    ∷ blocks 1 "blk00001.dat" 8 19
    ∷ blocks 2 "blk00002.dat" 20 29
    ∷ blocks 3 "blk00003.dat" 40 49
    ∷ []

-- An update from height 10, of which files 0 to 2 were scanned, through height 20.
abbrev scanned : Source
scanned = record { max_block = 10; last_file = 2; digest = "digest" }

abbrev updated : List Sidecar
updated = blocks 1 "blk00001.dat" 8 19 ∷ blocks 2 "blk00002.dat" 20 29 ∷ []

updated_planned : plan_files (λ t. "digest") archived 20 (some scanned) ≡ fine updated
unfolding plan_files plan_update require_contiguous expect last_file_needed numbers_within greatest
    lowest_height lowest holding holds_any any_holds index_sha256
updated_planned = refl

held_in_older : holds_any (blocks 1 "blk00001.dat" 8 19) 11 20 ≡ true
unfolding holds_any any_holds
held_in_older = refl

plan_files-holds_example : Memᴰ (blocks 1 "blk00001.dat" 8 19) updated
plan_files-holds_example =
    plan_files-holds (λ t. "digest") archived updated 20 (some scanned) updated_planned
      (blocks 1 "blk00001.dat" 8 19) (Memᴰ.tail (Memᴰ.head refl)) held_in_older

plan_files-contiguous_example : require_contiguous updated 2 ≡ fine tt
plan_files-contiguous_example =
    plan_files-contiguous (λ t. "digest") archived updated 20 (some scanned) updated_planned

abbrev downloaded : String → Option ℕ
downloaded name = some 100

verify_iff_example :
    (verify downloaded (λ name. name) updated 20 (some scanned) ≡ fine tt)
    ↔ IsSound downloaded (λ name. name) updated 20 11 2
verify_iff_example = verify_iff downloaded (λ name. name) updated 20 (some scanned)
