-- ===== src/BlockArchive/Coverage/Ranges.antt =====
-- block_archive.py: the heights that the ranges of the sidecars hold.
use mathlib.Core.List.{Memᴰ}
use coinjoin_pipeline.Base.{
  ℕ, ◌+◌, ◌≡◌, ◌≤◌, ◌<◌, refl, sym, ◌∙◌, ◌↔◌, inl, inr, true, false, List, [], ◌∷◌, arith, ◌++◌,
  ◌||◌, ltb, Bool-cases, subst, string_equality,
}
use coinjoin_pipeline.BlockArchive.Files.{ranges, Range, Sidecar, fine, any_holds, maximum}
use coinjoin_pipeline.BlockArchive.Verify.{
  range_leb, insert_range, sort_ranges, advance, all_ranges, check_heights,
}

any_holds-insert :
    (low high : ℕ) (r : Range) (rs : List Range)
    → any_holds low high (insert_range r rs) ≡ any_holds low high (r ∷ rs)
unfolding any_holds insert_range
any_holds-insert low high r [] = refl
any_holds-insert low high r (q ∷ rs) = ground (arith, any_holds-insert low high r rs)

any_holds-sort :
    (low high : ℕ) (rs : List Range) → any_holds low high (sort_ranges rs) ≡ any_holds low high rs
unfolding any_holds sort_ranges
any_holds-sort low high [] = refl
any_holds-sort low high (r ∷ rs) =
    any_holds-insert low high r (sort_ranges rs) ∙ ground (arith, any_holds-sort low high rs)

-- Ranges that start at `low` or above, and ranges sorted by their start.
abbrev StartFrom : ℕ → List Range → Type 0
StartFrom low [] = Unit
StartFrom low (r ∷ rs) = (low ≤ r.low) × StartFrom low rs

abbrev IsSorted : List Range → Type 0
IsSorted [] = Unit
IsSorted (r ∷ rs) = StartFrom r.low rs × IsSorted rs

StartFrom-le : (a b : ℕ) (rs : List Range) → a ≤ b → StartFrom b rs → StartFrom a rs
StartFrom-le a b [] q h = tt
StartFrom-le a b (r ∷ rs) q h = (omega (arith, q, h.0), StartFrom-le a b rs q h.1)

StartFrom-insert :
    (a : ℕ) (r : Range) (rs : List Range)
    → a ≤ r.low
    → StartFrom a rs
    → StartFrom a (insert_range r rs)
unfolding insert_range
StartFrom-insert a r [] q h = (q, tt)
StartFrom-insert a r (p ∷ rs) q h = ground (arith, q, h, StartFrom-insert a r rs q h.1)

range_leb-le : (r q : Range) → range_leb r q ≡ true → r.low ≤ q.low
unfolding range_leb
range_leb-le r q h = ground arith

range_leb-ge : (r q : Range) → range_leb r q ≡ false → q.low ≤ r.low
unfolding range_leb
range_leb-ge r q h = ground arith

insert_range-IsSorted : (r : Range) (rs : List Range) → IsSorted rs → IsSorted (insert_range r rs)
unfolding insert_range
insert_range-IsSorted r [] h = (tt, tt)
insert_range-IsSorted r (q ∷ rs) h = elim (Bool-cases (range_leb r q)) [
  | inl e ↦
      let le = range_leb-le r q e in
      rw (e, insert_range) ((le, StartFrom-le r.low q.low rs le h.0), h)
  | inr e ↦
      rw (e, insert_range)
        (StartFrom-insert q.low r rs (range_leb-ge r q e) h.0, insert_range-IsSorted r rs h.1)
]

sort_ranges-IsSorted : (rs : List Range) → IsSorted (sort_ranges rs)
unfolding sort_ranges
sort_ranges-IsSorted [] = tt
sort_ranges-IsSorted (r ∷ rs) = insert_range-IsSorted r (sort_ranges rs) (sort_ranges-IsSorted rs)

not_held : (low n : ℕ) (rs : List Range) → StartFrom low rs → n < low → any_holds n n rs ≡ false
unfolding any_holds
not_held low n [] h q = refl
not_held low n (r ∷ rs) h q = ground (arith, h, not_held low n rs h.1 q)

advance-le : (next : ℕ) (rs : List Range) → next ≤ advance next rs
unfolding advance
advance-le next [] = omega arith
advance-le next (r ∷ rs) = ground (arith, advance-le (maximum next (r.high + 1)) rs)

-- The loop passes over heights that some range holds, and stops at one that no range holds.
advance-held :
    (next h : ℕ) (rs : List Range) → next ≤ h → h < advance next rs → any_holds h h rs ≡ true
unfolding any_holds advance
advance-held next h [] p q = ground arith
advance-held next h (r ∷ rs) p q =
    ground (arith, p, q, advance-held (maximum next (r.high + 1)) h rs)

advance-stop :
    (next : ℕ) (r : Range) (rs : List Range) → ltb next r.low ≡ true → advance next (r ∷ rs) ≡ next
unfolding advance
advance-stop next r rs h = rw h refl

advance-go :
    (next : ℕ) (r : Range) (rs : List Range)
    → ltb next r.low ≡ false
    → advance next (r ∷ rs) ≡ advance (maximum next (r.high + 1)) rs
unfolding advance
advance-go next r rs h = rw h refl

advance-not_held :
    (next : ℕ) (rs : List Range)
    → IsSorted rs
    → any_holds (advance next rs) (advance next rs) rs ≡ false
unfolding any_holds
advance-not_held next [] s = refl
advance-not_held next (r ∷ rs) s = elim (Bool-cases (ltb next r.low)) [
  | inl e ↦
      subst (λ n. any_holds n n (r ∷ rs) ≡ false) (sym (advance-stop next r rs e))
        (not_held r.low next (r ∷ rs) (omega arith, s.0) (ground (arith, e)))
  | inr e ↦
      subst (λ n. any_holds n n (r ∷ rs) ≡ false) (sym (advance-go next r rs e))
        (ground (
          arith,
          advance-le (maximum next (r.high + 1)) rs,
          advance-not_held (maximum next (r.high + 1)) rs s.1,
        ))
]

-- `verify` accepts the heights exactly when each height from the first one that BlockSci reads to the
-- maximum block is in a range of some sidecar.
pub check_heights_iff :
    (sidecars : List Sidecar) (from_height max_block : ℕ)
    → (check_heights sidecars from_height max_block ≡ fine tt)
      ↔ ((h : ℕ) → from_height ≤ h → h ≤ max_block → any_holds h h (all_ranges sidecars) ≡ true)
unfolding check_heights
check_heights_iff sidecars from_height max_block = (
  λ e h p q.
      sym (any_holds-sort h h (all_ranges sidecars))
      ∙ advance-held from_height h (sort_ranges (all_ranges sidecars)) p (ground (arith, e, q)),
  λ held.
      let rs = sort_ranges (all_ranges sidecars) in
      let stop = advance from_height rs in
      let at : from_height ≤ stop = advance-le from_height rs in
      let missing : any_holds stop stop (all_ranges sidecars) ≡ false =
        sym (any_holds-sort stop stop (all_ranges sidecars))
        ∙ advance-not_held from_height rs (sort_ranges-IsSorted (all_ranges sidecars)) in
      ground (arith, missing, held stop at),
)

-- Some range of some sidecar holds the height.
abbrev pub IsCovered : List Sidecar → ℕ → Type 0
IsCovered sidecars h =
    (s : Sidecar) × Memᴰ s sidecars × ((r : Range) × Memᴰ r (ranges s) × (r.low ≤ h) × (h ≤ r.high))

range_of :
    (h : ℕ) (rs : List Range)
    → any_holds h h rs ≡ true
    → (r : Range) × Memᴰ r rs × (r.low ≤ h) × (h ≤ r.high)
unfolding any_holds
range_of h [] e = cc e
range_of h (r ∷ rs) e = elim (Bool-cases (any_holds h h rs)) [
  | inl y ↦ let (q, m, low, high) = range_of h rs y in (q, Memᴰ.tail m, low, high)
  | inr n ↦ (r, Memᴰ.head refl, ground (arith, e, n), ground (arith, e, n))
]

pub holds_of :
    (h : ℕ) (r : Range) (rs : List Range)
    → Memᴰ r rs
    → r.low ≤ h
    → h ≤ r.high
    → any_holds h h rs ≡ true
unfolding any_holds
holds_of h r [] m low high = elim m [ ]
holds_of h r (q ∷ rs) (Memᴰ.head e) low high = rw (sym e) (ground (arith, low, high))
holds_of h r (q ∷ rs) (Memᴰ.tail m) low high = ground (arith, holds_of h r rs m low high)

any_holds-append :
    (h : ℕ) (xs ys : List Range) → any_holds h h (xs ++ ys) ≡ (any_holds h h xs || any_holds h h ys)
unfolding any_holds
any_holds-append h [] ys = refl
any_holds-append h (x ∷ xs) ys = ground (arith, any_holds-append h xs ys)

pub any_holds-IsCovered :
    (h : ℕ) (sidecars : List Sidecar)
    → any_holds h h (all_ranges sidecars) ≡ true
    → IsCovered sidecars h
unfolding all_ranges any_holds
any_holds-IsCovered h [] e = cc e
any_holds-IsCovered h (s ∷ sidecars) e = elim (Bool-cases (any_holds h h (ranges s))) [
  | inl y ↦ (s, Memᴰ.head refl, range_of h (ranges s) y)
  | inr n ↦
      let later = any_holds-append h (ranges s) (all_ranges sidecars) in
      let (t, m, r) = any_holds-IsCovered h sidecars (ground (arith, e, later, n)) in
      (t, Memᴰ.tail m, r)
]

pub held_range :
    (h : ℕ) (s : Sidecar) (sidecars : List Sidecar)
    → Memᴰ s sidecars
    → any_holds h h (ranges s) ≡ true
    → any_holds h h (all_ranges sidecars) ≡ true
unfolding all_ranges
held_range h s [] m held = elim m [ ]
held_range h s (t ∷ sidecars) (Memᴰ.head e) held =
    any_holds-append h (ranges t) (all_ranges sidecars)
    ∙ ground (arith, subst (λ x. any_holds h h (ranges x) ≡ true) e held)
held_range h s (t ∷ sidecars) (Memᴰ.tail m) held =
    any_holds-append h (ranges t) (all_ranges sidecars)
    ∙ ground (arith, held_range h s sidecars m held)
