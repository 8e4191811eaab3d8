-- ===== src/BlockArchive/Contiguous.antt =====
-- `require_contiguous`: which lists of sidecars it accepts, and where a numbered file stands in one.
use mathlib.Core.List.{Memᴰ}
use coinjoin_pipeline.Base.{
  ℕ, zero, suc, ◌+◌, ◌-◌, ◌≡◌, ◌≢◌, ◌≤◌, ◌<◌, refl, ap, ◌∙◌, ◌↔◌, ◌⊎◌, inl, inr, List, [], ◌∷◌,
  take, drop, arith, if◌then◌else◌, ltb, nat_beq, Bool-cases, string_equality,
}
use coinjoin_pipeline.BlockArchive.Files.{
  raised, ArchiveError, require_contiguous, Answer, Sidecar, fine, expect,
}

abbrev pub numbers : List Sidecar → List ℕ
numbers [] = []
numbers (s ∷ sidecars) = s.number ∷ numbers sidecars

-- `n` numbers from `a` on
abbrev pub upto : ℕ → ℕ → List ℕ
upto a zero = []
upto a (suc n) = a ∷ upto (suc a) n

-- The sidecars from file `first` on.
unfoldable pub from_file : ℕ → List Sidecar → List Sidecar
from_file first [] = []
from_file first (s ∷ sidecars) =
    let rest = from_file first sidecars in if ltb s.number first then rest else s ∷ rest

expect-fine :
    (first expected n : ℕ) (sidecars : List Sidecar)
    → numbers (from_file first sidecars) ≡ upto expected n
    → expect first expected sidecars ≡ fine (expected + n)
unfolding expect from_file
expect-fine first expected zero [] h = ground arith
expect-fine first expected (suc n) [] h = ground arith
expect-fine first expected zero (s ∷ sidecars) h =
    ground (arith, expect-fine first expected zero sidecars)
expect-fine first expected (suc n) (s ∷ sidecars) h = ground (
  arith,
  expect-fine first expected (suc n) sidecars,
  expect-fine first (suc expected) n sidecars,
)

-- The count of the files that the loop accepted.
expect-numbers :
    (first expected m : ℕ) (sidecars : List Sidecar)
    → expect first expected sidecars ≡ fine m
    → (n : ℕ) × (numbers (from_file first sidecars) ≡ upto expected n) × (m ≡ expected + n)
unfolding expect from_file
expect-numbers first expected m [] h = (0, refl, ground arith)
expect-numbers first expected m (s ∷ sidecars) h = elim (Bool-cases (ltb s.number first)) [
  | inl below ↦
      let (n, e, q) = expect-numbers first expected m sidecars (ground (arith, h)) in
      (n, rw (below, from_file) e, q)
  | inr above ↦ elim (Bool-cases (nat_beq s.number expected)) [
    | inl same ↦
        let (n, e, q) = expect-numbers first (suc expected) m sidecars (ground (arith, h)) in
        (suc n, ground (arith, e), omega (arith, q))
    | inr other ↦ absurd (ground (arith, h))
  ]
]

pub Answer-cases :
    {A : Type 0} (a : Answer A) → ((n : A) × (a ≡ fine n)) ⊎ ((e : ArchiveError) × (a ≡ raised e))
Answer-cases (fine n) = inl (n, refl)
Answer-cases (raised e) = inr (e, refl)

-- `require_contiguous` accepts exactly the sidecars of which those from `first` on are numbered
-- `first`, `first + 1` and so on, and are at least one.
pub require_contiguous_iff :
    (sidecars : List Sidecar) (first : ℕ)
    → (require_contiguous sidecars first ≡ fine tt)
      ↔ ((n : ℕ) × (numbers (from_file first sidecars) ≡ upto first (suc n)))
unfolding require_contiguous
require_contiguous_iff sidecars first = (
  λ h. elim (Answer-cases (expect first first sidecars)) [
    | inl (m, e) ↦
        let (n, q, r) = expect-numbers first first m sidecars e in
        let more : m ≢ first = ground (arith, h, e) in
        let count : n ≡ suc (n - 1) = omega (arith, r, more) in (n - 1, q ∙ ap (upto first) count)
    | inr (x, e) ↦ absurd (ground (arith, h, e))
  ],
  λ (n, h). ground (arith, expect-fine first first (suc n) sidecars h),
)

pub numbers-mem :
    (s : Sidecar) (a n : ℕ) (sidecars : List Sidecar)
    → numbers sidecars ≡ upto a n
    → Memᴰ s sidecars
    → a ≤ s.number
numbers-mem s a n [] h k = elim k [ ]
numbers-mem s a zero (t ∷ sidecars) h k = cc
numbers-mem s a (suc n) (t ∷ sidecars) h (Memᴰ.head e) =
    ground (arith, h, ap (λ (x : Sidecar). x.number) e)
numbers-mem s a (suc n) (t ∷ sidecars) h (Memᴰ.tail k) =
    omega (arith, numbers-mem s (suc a) n sidecars (ground (arith, h)) k)

-- Where the files are numbered from `a` on, a slice is the files with the numbers in it.
pub take-mem :
    (s : Sidecar) (a n m : ℕ) (sidecars : List Sidecar)
    → numbers sidecars ≡ upto a n
    → Memᴰ s sidecars
    → s.number < a + m
    → Memᴰ s (take m sidecars)
take-mem s a n m [] h k q = elim k [ ]
take-mem s a zero m (t ∷ sidecars) h k q = cc
take-mem s a (suc n) zero (t ∷ sidecars) h k q =
    absurd (ground (arith, numbers-mem s a (suc n) (t ∷ sidecars) h k))
take-mem s a (suc n) (suc m) (t ∷ sidecars) h (Memᴰ.head e) q = Memᴰ.head e
take-mem s a (suc n) (suc m) (t ∷ sidecars) h (Memᴰ.tail k) q =
    Memᴰ.tail (take-mem s (suc a) n m sidecars (ground (arith, h)) k (omega (arith, q)))

pub drop-mem :
    (s : Sidecar) (a n m : ℕ) (sidecars : List Sidecar)
    → numbers sidecars ≡ upto a n
    → Memᴰ s sidecars
    → a + m ≤ s.number
    → Memᴰ s (drop m sidecars)
drop-mem s a n zero sidecars h k q = k
drop-mem s a n (suc m) [] h k q = elim k [ ]
drop-mem s a zero (suc m) (t ∷ sidecars) h k q = cc
drop-mem s a (suc n) (suc m) (t ∷ sidecars) h (Memᴰ.head e) q =
    absurd (ground (arith, h, ap (λ (x : Sidecar). x.number) e))
drop-mem s a (suc n) (suc m) (t ∷ sidecars) h (Memᴰ.tail k) q =
    drop-mem s (suc a) n m sidecars (ground (arith, h)) k (omega (arith, q))

abbrev pub smaller : ℕ → ℕ → ℕ
smaller zero n = zero
smaller (suc m) zero = zero
smaller (suc m) (suc n) = suc (smaller m n)

-- The numbers of a slice.
pub numbers-take :
    (a n m : ℕ) (sidecars : List Sidecar)
    → numbers sidecars ≡ upto a n
    → numbers (take m sidecars) ≡ upto a (smaller m n)
numbers-take a n zero sidecars h = refl
numbers-take a zero (suc m) [] h = refl
numbers-take a zero (suc m) (t ∷ sidecars) h = cc
numbers-take a (suc n) (suc m) [] h = cc
numbers-take a (suc n) (suc m) (t ∷ sidecars) h =
    ground (arith, h, numbers-take (suc a) n m sidecars)

pub numbers-drop :
    (a n m : ℕ) (sidecars : List Sidecar)
    → numbers sidecars ≡ upto a n
    → numbers (drop m sidecars) ≡ upto (a + m) (n - m)
numbers-drop a n zero sidecars h = ground (arith, h)
numbers-drop a zero (suc m) [] h = ground arith
numbers-drop a zero (suc m) (t ∷ sidecars) h = cc
numbers-drop a (suc n) (suc m) [] h = cc
numbers-drop a (suc n) (suc m) (t ∷ sidecars) h =
    ground (arith, h, numbers-drop (suc a) n m sidecars)
