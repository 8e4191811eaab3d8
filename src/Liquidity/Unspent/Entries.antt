-- ===== src/Liquidity/Unspent/Entries.antt =====
-- liquidity.py: the entries of the dictionary of unmoved outputs that are not spent.
use coinjoin_pipeline.Base.{
  ℕ, ◌+◌, ◌≡◌, refl, false, List, [], ◌∷◌, arith, string_equality, contains, nat_equality,
  if◌then◌else◌,
}
use coinjoin_pipeline.Liquidity.Classify.{Outpoint, outpoint_eq, outpoint_beq_iff}
use coinjoin_pipeline.Liquidity.Series.{Unmoved, pop_rest, set_value}
use coinjoin_pipeline.Liquidity.Outstanding.{held, has_key, has_key-pop, has_key-set}

-- No key stands twice.
abbrev pub IsUnique : Unmoved → Type 0
IsUnique [] = Unit
IsUnique ((k, value) ∷ rest) = (has_key k rest ≡ false) × IsUnique rest

-- What the entries hold whose key is not spent.
unfoldable pub left : List Outpoint → Unmoved → ℕ
left spent [] = 0
left spent ((k, value) ∷ rest) =
    let later = left spent rest in if contains k spent then later else value + later

pub left_nil : (u : Unmoved) → left [] u ≡ held u
unfolding left contains
left_nil [] = refl
left_nil ((k, value) ∷ rest) = ground (arith, left_nil rest)

left_absent :
    (key : Outpoint) (spent : List Outpoint) (u : Unmoved)
    → has_key key u ≡ false
    → left (key ∷ spent) u ≡ left spent u
unfolding left contains has_key
left_absent key spent [] h = refl
left_absent key spent ((k, value) ∷ rest) h =
    ground (arith, left_absent key spent rest, outpoint_beq_iff k key, outpoint_beq_iff key k)

pub left-pop_rest :
    (key : Outpoint) (spent : List Outpoint) (u : Unmoved)
    → IsUnique u
    → left spent (pop_rest key u) ≡ left (key ∷ spent) u
unfolding left contains pop_rest has_key
left-pop_rest key spent [] d = refl
left-pop_rest key spent ((k, value) ∷ rest) d = ground (
  arith,
  left-pop_rest key spent rest d.1,
  left_absent key spent rest,
  outpoint_beq_iff k key,
  outpoint_beq_iff key k,
)

pub left-set_value :
    (key : Outpoint) (value : ℕ) (spent : List Outpoint) (u : Unmoved)
    → has_key key u ≡ false
    → left spent (set_value key value u) ≡ (if contains key spent then 0 else value) + left spent u
unfolding left has_key set_value
left-set_value key value spent [] h = ground arith
left-set_value key value spent ((k, old) ∷ rest) h =
    ground
      (arith, left-set_value key value spent rest, outpoint_beq_iff key k, outpoint_beq_iff k key)

pub pop_rest-IsUnique : (key : Outpoint) (u : Unmoved) → IsUnique u → IsUnique (pop_rest key u)
unfolding pop_rest
pop_rest-IsUnique key [] d = tt
pop_rest-IsUnique key ((k, value) ∷ rest) d =
    ground (arith, pop_rest-IsUnique key rest d.1, has_key-pop key k rest d.0)

pub set_value-IsUnique :
    (key : Outpoint) (value : ℕ) (u : Unmoved)
    → has_key key u ≡ false
    → IsUnique u
    → IsUnique (set_value key value u)
unfolding set_value has_key
set_value-IsUnique key value [] h d = (refl, tt)
set_value-IsUnique key value ((k, old) ∷ rest) h d = ground (
  arith,
  set_value-IsUnique key value rest,
  has_key-set key k value rest,
  outpoint_beq_iff key k,
  outpoint_beq_iff k key,
)
