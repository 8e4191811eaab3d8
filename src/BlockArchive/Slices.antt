-- ===== src/BlockArchive/Slices.antt =====
-- `plan_files` and `require_contiguous` agree: what the one chooses, the other accepts.
use coinjoin_pipeline.Base.{
  ℕ, zero, suc, ◌+◌, ◌-◌, ◌≡◌, ◌≤◌, ◌<◌, refl, ap, ◌∙◌, String, List, [], ◌∷◌, ◌++◌, take, drop,
  length, arith, Option, none, some, string_equality,
}
use coinjoin_pipeline.BlockArchive.Files.{
  Sidecar, Source, fine, holding, plan_files, require_contiguous, maximum,
}
use coinjoin_pipeline.BlockArchive.Contiguous.{
  numbers, upto, from_file, require_contiguous_iff, numbers-take, numbers-drop, smaller,
}
use coinjoin_pipeline.BlockArchive.Plan.{
  first_file, accepted, parse_accepted, update_accepted, plan_parse-fine, plan_update-fine,
  from_file_zero,
}

from_file-append :
    (first : ℕ) (xs ys : List Sidecar)
    → from_file first (xs ++ ys) ≡ from_file first xs ++ from_file first ys
unfolding from_file
from_file-append first [] ys = refl
from_file-append first (x ∷ xs) ys = ground (arith, from_file-append first xs ys)

-- Of the files before `first` none is from `first` on, and of those from `first` on each is.
from_file-holding :
    (first low high a n : ℕ) (xs : List Sidecar)
    → numbers xs ≡ upto a n
    → a + n ≤ first
    → from_file first (holding low high xs) ≡ []
unfolding from_file holding
from_file-holding first low high a n [] h q = refl
from_file-holding first low high a zero (x ∷ xs) h q = cc
from_file-holding first low high a (suc n) (x ∷ xs) h q =
    ground (arith, h, from_file-holding first low high (suc a) n xs)

from_file-upto :
    (first a n : ℕ) (xs : List Sidecar)
    → numbers xs ≡ upto a n
    → first ≤ a
    → from_file first xs ≡ xs
unfolding from_file
from_file-upto first a n [] h q = refl
from_file-upto first a zero (x ∷ xs) h q = cc
from_file-upto first a (suc n) (x ∷ xs) h q = ground (arith, h, from_file-upto first (suc a) n xs)

smaller-le : (m n : ℕ) → smaller m n ≤ m
smaller-le zero n = omega arith
smaller-le (suc m) zero = omega arith
smaller-le (suc m) (suc n) = omega (arith, smaller-le m n)

smaller-gt : (k m n : ℕ) → k < m → k < n → k < smaller m n
smaller-gt k zero n h q = omega (arith, h)
smaller-gt k (suc m) zero h q = omega (arith, q)
smaller-gt zero (suc m) (suc n) h q = omega arith
smaller-gt (suc k) (suc m) (suc n) h q = omega (arith, h, q, smaller-gt k m n)

length-numbers : (a n : ℕ) (xs : List Sidecar) → numbers xs ≡ upto a n → length xs ≡ n
length-numbers a zero [] h = refl
length-numbers a zero (x ∷ xs) h = cc
length-numbers a (suc n) [] h = cc
length-numbers a (suc n) (x ∷ xs) h = ground (arith, h, length-numbers (suc a) n xs)

-- The files before `first` that a slice of an update keeps do not matter to the numbering.
slice-numbers :
    (low high first end n : ℕ) (xs : List Sidecar)
    → numbers xs ≡ upto 0 n
    → first < n
    → first < end
    → (k : ℕ) × (numbers
          (from_file first (holding low high (take first xs) ++ drop first (take end xs)))
        ≡ upto first (suc k))
slice-numbers low high first end n xs h q r =
    let count = smaller end n in
    let newer : numbers (drop first (take end xs)) ≡ upto first (count - first) =
      ground (arith, numbers-drop 0 count first (take end xs) (numbers-take 0 n end xs h)) in
    let same : from_file first (holding low high (take first xs) ++ drop first (take end xs))
        ≡ drop first (take end xs) =
      from_file-append first (holding low high (take first xs)) (drop first (take end xs))
      ∙ rw
          (from_file-holding first low high 0 (smaller first n) (take first xs)
            (numbers-take 0 n first xs h) (omega (arith, smaller-le first n)))
          (from_file-upto first first (count - first) (drop first (take end xs)) newer
            (omega arith)) in
    let more : count - first ≡ suc (count - first - 1) =
      omega (arith, smaller-gt first end n r q) in
    (count - first - 1, ap numbers same ∙ newer ∙ ap (upto first) more)

module _ (sha256_hex : String → String) where
  -- What `plan_files` chooses, in a parse or an update, passes the `require_contiguous` of `verify`:
  -- from the file at which the scan starts.
  pub plan_files-contiguous :
      (sidecars chosen : List Sidecar) (max_block : ℕ) (source : Option Source)
      → plan_files sha256_hex sidecars max_block source ≡ fine chosen
      → require_contiguous chosen (first_file source) ≡ fine tt
  plan_files-contiguous sidecars chosen max_block none h =
      let (c, p) = parse_accepted sha256_hex sidecars chosen max_block h in
      let (n, nums) = accepted sidecars c in
      let (needed, e, same) = plan_parse-fine sidecars chosen max_block p in
      (require_contiguous_iff chosen 0).1 (
        smaller needed n,
        rw (from_file_zero, same)
            (ground (arith, numbers-take 0 (suc n) (needed + 1) sidecars nums)),
      )
  plan_files-contiguous sidecars chosen max_block (some source) h =
      let (c, p) = update_accepted sha256_hex sidecars chosen max_block source h in
      let (n, nums) = accepted sidecars c in
      let (needed, e, same, q) = plan_update-fine sha256_hex sidecars chosen max_block source p in
      (require_contiguous_iff chosen source.last_file).1 (
        rw same (
          slice-numbers _ _ source.last_file (maximum source.last_file needed + 1) (suc n) sidecars
            nums (omega (arith, q, length-numbers 0 (suc n) sidecars nums)) (ground arith)))
