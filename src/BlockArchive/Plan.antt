-- ===== src/BlockArchive/Plan.antt =====
-- `plan_files`: the files that it chooses hold every height that BlockSci has to read.
use mathlib.Core.List.Memᴰ
use mathlib.Core.List.{Memᴰ}
use coinjoin_pipeline.Base.{
  ℕ, suc, ◌+◌, ◌≡◌, ◌≤◌, ◌<◌, refl, ap, inl, inr, String, Bool, true, false, List, [], ◌∷◌, ◌++◌,
  take, drop, length, arith, if◌then◌else◌, ltb, leb, Bool-cases, Option, none, some,
  string_equality,
}
use coinjoin_pipeline.BlockArchive.Files.{
  Sidecar, Range, Source, fine, raised, ArchiveError, lowest, lowest_height, any_holds, holds_any,
  numbers_within, greatest, last_file_needed, holding, plan_parse, plan_update, plan_files,
  require_contiguous, maximum,
}
use coinjoin_pipeline.BlockArchive.Contiguous.{
  numbers, upto, from_file, require_contiguous_iff, numbers-take, take-mem, drop-mem, Answer-cases,
}

-- A file that holds a height of an interval starts at or below the end of the interval.
lowest-le :
    (low high : ℕ) (r : Range) (rest : List Range)
    → any_holds low high (r ∷ rest) ≡ true
    → lowest r rest ≤ high
unfolding any_holds lowest
lowest-le low high r [] h = ground arith
lowest-le low high r (q ∷ rest) h = ground (arith, lowest-le low high q rest)

lowest_height-le :
    (s : Sidecar) (low high : ℕ) → holds_any s low high ≡ true → lowest_height s ≤ high
unfolding holds_any lowest_height
lowest_height-le s low high h = lowest-le low high s.first_range s.more_ranges h

greatest-le : (m n : ℕ) (ns : List ℕ) → Memᴰ m (n ∷ ns) → m ≤ greatest n ns
unfolding greatest
greatest-le m n [] (Memᴰ.head e) = omega (arith, e)
greatest-le m n [] (Memᴰ.tail k) = elim k [ ]
greatest-le m n (p ∷ ns) (Memᴰ.head e) = ground (arith, e)
greatest-le m n (p ∷ ns) (Memᴰ.tail k) = ground (arith, greatest-le m p ns k)

module _ {A : Type 0} (b : A) (rest : List A) {a : A} where
  kept_head : (test : Bool) → test ≡ true → a ≡ b → Memᴰ a (if test then b ∷ rest else rest)
  kept_head true h e = Memᴰ.head e
  kept_head false h e = absurd (ground (arith, h))

  kept_tail : (test : Bool) → Memᴰ a rest → Memᴰ a (if test then b ∷ rest else rest)
  kept_tail true k = Memᴰ.tail k
  kept_tail false k = k

numbers_within-mem :
    (limit : ℕ) (s : Sidecar) (sidecars : List Sidecar)
    → Memᴰ s sidecars
    → lowest_height s ≤ limit
    → Memᴰ s.number (numbers_within limit sidecars)
unfolding numbers_within
numbers_within-mem limit s [] k h = elim k [ ]
numbers_within-mem limit s (t ∷ sidecars) (Memᴰ.head e) h =
    let below : lowest_height t ≤ limit = rw (← e) h in
    kept_head _ _ (leb (lowest_height t) limit) (ground arith) (ap (λ (x : Sidecar). x.number) e)
numbers_within-mem limit s (t ∷ sidecars) (Memᴰ.tail k) h =
    kept_tail _ _ (leb (lowest_height t) limit) (numbers_within-mem limit s sidecars k h)

greatest_found :
    (found : List ℕ) (n m : ℕ)
    → elim found [ [] ↦ raised ArchiveError.no_height | k ∷ rest ↦ fine (greatest k rest) ] ≡ fine n
    → Memᴰ m found
    → m ≤ n
greatest_found [] n m h k = elim k [ ]
greatest_found (p ∷ found) n m h k = ground (arith, h, greatest-le m p found k)

last_file_needed-le :
    (sidecars : List Sidecar) (max_block n : ℕ) (s : Sidecar)
    → last_file_needed sidecars max_block ≡ fine n
    → Memᴰ s sidecars
    → lowest_height s ≤ max_block + 6
    → s.number ≤ n
unfolding last_file_needed
last_file_needed-le sidecars max_block n s h k q =
    greatest_found (numbers_within (max_block + 6) sidecars) n s.number h
      (numbers_within-mem (max_block + 6) s sidecars k q)

holding-mem :
    (low high : ℕ) (s : Sidecar) (sidecars : List Sidecar)
    → Memᴰ s sidecars
    → holds_any s low high ≡ true
    → Memᴰ s (holding low high sidecars)
unfolding holding
holding-mem low high s [] k h = elim k [ ]
holding-mem low high s (t ∷ sidecars) (Memᴰ.head e) h =
    kept_head _ _ (holds_any t low high) (rw (← e) h) e
holding-mem low high s (t ∷ sidecars) (Memᴰ.tail k) h =
    kept_tail _ _ (holds_any t low high) (holding-mem low high s sidecars k h)

-- The first height that BlockSci reads, and the file at which its scan starts.
abbrev pub first_height : Option Source → ℕ
first_height none = 0
first_height (some source) = source.max_block + 1

abbrev pub first_file : Option Source → ℕ
first_file none = 0
first_file (some source) = source.last_file

pub from_file_zero : (sidecars : List Sidecar) → from_file 0 sidecars ≡ sidecars
unfolding from_file
from_file_zero [] = refl
from_file_zero (s ∷ sidecars) = ground (arith, from_file_zero sidecars)

-- Accepted sidecars are numbered from 0.
pub accepted :
    (sidecars : List Sidecar)
    → require_contiguous sidecars 0 ≡ fine tt
    → (n : ℕ) × (numbers sidecars ≡ upto 0 (suc n))
accepted sidecars h =
    let (n, q) = (require_contiguous_iff sidecars 0).0 h in (n, rw from_file_zero at q)

pub plan_parse-fine :
    (sidecars chosen : List Sidecar) (max_block : ℕ)
    → plan_parse sidecars max_block ≡ fine chosen
    → (needed : ℕ) × (last_file_needed sidecars max_block ≡ fine needed)
      × (chosen ≡ take (needed + 1) sidecars)
unfolding plan_parse
plan_parse-fine sidecars chosen max_block h =
    elim (Answer-cases (last_file_needed sidecars max_block)) [
      | inl (needed, e) ↦ (needed, e, ground (arith, rw (e, plan_parse) at h))
      | inr (x, e) ↦ absurd (ground (arith, rw (e, plan_parse) at h))
    ]

module _ (sha256_hex : String → String) where
  abbrev pub update_of : List Sidecar → Source → ℕ → ℕ → List Sidecar
  update_of sidecars source max_block needed =
      holding (source.max_block + 1) max_block (take source.last_file sidecars)
      ++ drop source.last_file (take (maximum source.last_file needed + 1) sidecars)

  pub plan_update-fine :
      (sidecars chosen : List Sidecar) (max_block : ℕ) (source : Source)
      → plan_update sha256_hex sidecars max_block source ≡ fine chosen
      → (needed : ℕ) × (last_file_needed sidecars max_block ≡ fine needed)
        × (chosen ≡ update_of sidecars source max_block needed)
        × (source.last_file < length sidecars)
  unfolding plan_update
  plan_update-fine sidecars chosen max_block source h =
      elim (Answer-cases (last_file_needed sidecars max_block)) [
        | inl (needed, e) ↦
            let g = rw (e, plan_update) at h in (needed, e, ground (arith, g), ground (arith, g))
        | inr (x, e) ↦ absurd (ground (arith, rw (e, plan_update) at h))
      ]

  pub parse_accepted :
      (sidecars chosen : List Sidecar) (max_block : ℕ)
      → plan_files sha256_hex sidecars max_block none ≡ fine chosen
      → (require_contiguous sidecars 0 ≡ fine tt) × (plan_parse sidecars max_block ≡ fine chosen)
  unfolding plan_files
  parse_accepted sidecars chosen max_block h = elim (Answer-cases (require_contiguous sidecars 0)) [
    | inl (t, e) ↦ (e, rw (e, plan_files) at h)
    | inr (x, e) ↦ absurd (ground (arith, rw (e, plan_files) at h))
  ]

  pub update_accepted :
      (sidecars chosen : List Sidecar) (max_block : ℕ) (source : Source)
      → plan_files sha256_hex sidecars max_block (some source) ≡ fine chosen
      → (require_contiguous sidecars 0 ≡ fine tt)
        × (plan_update sha256_hex sidecars max_block source ≡ fine chosen)
  unfolding plan_files
  update_accepted sidecars chosen max_block source h =
      elim (Answer-cases (require_contiguous sidecars 0)) [
        | inl (t, e) ↦ (e, rw (e, plan_files) at h)
        | inr (x, e) ↦ absurd (ground (arith, rw (e, plan_files) at h))
      ]

  -- When `plan_files` succeeds, for a parse or an update, it chooses each file that holds a height
  -- from the first one that BlockSci reads to the maximum block.
  pub plan_files-holds :
      (sidecars chosen : List Sidecar) (max_block : ℕ) (source : Option Source)
      → plan_files sha256_hex sidecars max_block source ≡ fine chosen
      → (s : Sidecar) → Memᴰ s sidecars
      → holds_any s (first_height source) max_block ≡ true
      → Memᴰ s chosen
  plan_files-holds sidecars chosen max_block none h s k q =
      let (c, p) = parse_accepted sidecars chosen max_block h in
      let (n, nums) = accepted sidecars c in
      let (needed, e, same) = plan_parse-fine sidecars chosen max_block p in
      let low = lowest_height-le s 0 max_block q in
      let last = last_file_needed-le sidecars max_block needed s e k (omega (arith, low)) in
      rw same (take-mem s 0 (suc n) (needed + 1) sidecars nums k (omega (arith, last)))
  plan_files-holds sidecars chosen max_block (some source) h s k q =
      let (c, p) = update_accepted sidecars chosen max_block source h in
      let (n, nums) = accepted sidecars c in
      let (needed, e, same, _) = plan_update-fine sidecars chosen max_block source p in
      let low = lowest_height-le s (source.max_block + 1) max_block q in
      let last = last_file_needed-le sidecars max_block needed s e k (omega (arith, low)) in
      let file = source.last_file in
      let end = maximum file needed + 1 in
      rw same elim (Bool-cases (ltb s.number file)) [
        | inl older ↦ Memᴰ.append_left _ (
            holding-mem _ _ s (take file sidecars)
              (take-mem s 0 (suc n) file sidecars nums k (ground (arith, older))) q)
        | inr newer ↦ Memᴰ.append_right _ (
            drop-mem s 0 _ file (take end sidecars) (numbers-take 0 (suc n) end sidecars nums)
              (take-mem s 0 (suc n) end sidecars nums k (ground (arith, last)))
              (ground (arith, newer)))
      ]
