-- ===== src/BlockArchive/Coverage.antt =====
-- The height check of `verify`: it passes exactly when every height is in some range.
mod Ranges
use Ranges.{check_heights_iff, IsCovered, holds_of, any_holds-IsCovered, held_range}
use mathlib.Core.List.{Memᴰ}
use coinjoin_pipeline.Base.{
  ℕ, suc, ◌+◌, Option-cases, ◌≡◌, ◌≤◌, refl, ◌↔◌, inl, inr, String, true, List, [], ◌∷◌, arith,
  Option, none, some, string_equality,
}
use coinjoin_pipeline.BlockArchive.Files.{
  Source, require_contiguous, ranges, Sidecar, fine, maximum,
}
use coinjoin_pipeline.BlockArchive.Contiguous.{numbers, from_file, upto, require_contiguous_iff}
use coinjoin_pipeline.BlockArchive.Plan.{first_file, first_height}
use coinjoin_pipeline.BlockArchive.Verify.{
  verify, verify_from, check_files, has_size, check_heights,
}

module _ (file_size : String → Option ℕ) (file_sha256 : String → String) where
  -- The file on disk is as the sidecar describes it.
  abbrev pub IsDescribed : Sidecar → Type 0
  IsDescribed s = (file_size s.name ≡ some s.size) × (file_sha256 s.name ≡ s.sha256)

  has_size_iff :
      (s : Sidecar)
      → (has_size file_size file_sha256 s.name s.size ≡ true) ↔ (file_size s.name ≡ some s.size)
  unfolding has_size
  has_size_iff s = elim (Option-cases (file_size s.name)) [
    | inl missing ↦ rw (missing, has_size) (ground arith)
    | inr (n, found) ↦ rw (found, has_size) (ground arith)
  ]

  check_files-all :
      (sidecars : List Sidecar)
      → (check_files file_size file_sha256 sidecars ≡ fine tt)
      → (s : Sidecar) → Memᴰ s sidecars
      → IsDescribed s
  unfolding check_files
  check_files-all [] h s m = elim m [ ]
  check_files-all (t ∷ sidecars) h s (Memᴰ.head e) =
      rw e (
        ground (arith, h, has_size_iff t, string_equality.equals_iff (file_sha256 t.name) t.sha256))
  check_files-all (t ∷ sidecars) h s (Memᴰ.tail m) =
      check_files-all sidecars (ground (arith, h)) s m

  all-check_files :
      (sidecars : List Sidecar)
      → ((s : Sidecar) → Memᴰ s sidecars → IsDescribed s)
      → check_files file_size file_sha256 sidecars ≡ fine tt
  unfolding check_files
  all-check_files [] h = refl
  all-check_files (t ∷ sidecars) h =
      let (size, digest) = h t (Memᴰ.head refl) in
      ground (
        arith,
        size,
        digest,
        has_size_iff t,
        string_equality.equals_iff (file_sha256 t.name) t.sha256,
        all-check_files sidecars (λ s m. h s (Memᴰ.tail m)),
      )

  -- What an accepted download is like.
  abbrev pub IsSound : List Sidecar → ℕ → ℕ → ℕ → Type 0
  IsSound sidecars max_block from_height from_file_number =
      ((n : ℕ) × (numbers (from_file from_file_number sidecars) ≡ upto from_file_number (suc n)))
      × ((s : Sidecar) → Memᴰ s sidecars → IsDescribed s)
      × ((h : ℕ) → from_height ≤ h → h ≤ max_block → IsCovered sidecars h)

  verify_from_iff :
      (sidecars : List Sidecar) (max_block from_height first : ℕ)
      → (verify_from file_size file_sha256 sidecars max_block from_height first ≡ fine tt)
        ↔ IsSound sidecars max_block from_height first
  unfolding verify_from
  verify_from_iff sidecars max_block from_height first =
      let heights = check_heights_iff sidecars from_height max_block in
      (
        λ e.
            let parts : (require_contiguous sidecars first ≡ fine tt)
                × (check_files file_size file_sha256 sidecars ≡ fine tt)
                × (check_heights sidecars from_height max_block ≡ fine tt) =
              ground (arith, e) in
            (
              (require_contiguous_iff sidecars first).0 parts.0,
              check_files-all sidecars parts.1,
              λ h p q. any_holds-IsCovered h sidecars (heights.0 parts.2 h p q),
            ),
        λ (numbered, described, covered).
            let contiguous = (require_contiguous_iff sidecars first).1 numbered in
            let files = all-check_files sidecars described in
            let held = heights.1 (λ h p q.
              let (s, m, (r, k, low, high)) = covered h p q in
              held_range h s sidecars m (holds_of h r (ranges s) k low high)) in
            ground (arith, contiguous, files, held),
      )

  -- `verify` accepts a download exactly when its files, from the one at which the scan starts, are
  -- numbered from that one on without a gap and are at least one, each file on disk has the size and
  -- the checksum of its sidecar, and each height that BlockSci reads, up to the maximum block, is in
  -- a range of some sidecar.
  pub verify_iff :
      (sidecars : List Sidecar) (max_block : ℕ) (source : Option Source)
      → (verify file_size file_sha256 sidecars max_block source ≡ fine tt)
        ↔ IsSound sidecars max_block (first_height source) (first_file source)
  unfolding verify
  verify_iff sidecars max_block none = verify_from_iff sidecars max_block 0 0
  verify_iff sidecars max_block (some source) =
      verify_from_iff sidecars max_block (source.max_block + 1) source.last_file
