-- ===== src/Heuristics/Tallies.antt =====
-- heuristics.py: dictionaries of sums, as `grouped[key] = grouped.get(key, 0) + amount` builds them, and
-- the item of the greatest value.
mod Most
unfoldable pub use Most.{value_at, in_order}
pub use Most.{names, IsFirstMost, first_most_unique, most_frequent_value-cases}
use Most.{first_most-value, first_most-max}
use coinjoin_pipeline.Base.{
  ◌∙◌, ◌++◌, Option-cases, ℕ, ◌+◌, ◌≡◌, ◌<◌, ◌↔◌, inl, inr, refl, ap, String, Bool, false, List, [],
  ◌∷◌, arith, if◌then◌else◌, Equality, contains, IsDistinct, ◌==◌, ◌||◌, Option, none, some,
  string_equality, nat_equality,
}
use coinjoin_pipeline.Heuristics.Definite.{
  IoRecord, add_to, grouped_add, group_from, grouped_input_values_by_address, most_frequent_value,
}
use coinjoin_pipeline.Heuristics.Possible.{count_value, counts_from, output_value_counts}

module _ {K : Type 0} ⦃e : Equality K⦄ where
  contains-add_to :
      (a k : K) (n : ℕ) (rows : List (K × ℕ))
      → contains a (names (add_to k n rows)) ≡ (a == k || contains a (names rows))
  unfolding add_to contains
  contains-add_to a k n [] = ground arith
  contains-add_to a k n ((j, m) ∷ rows) =
      ground
        (arith, contains-add_to a k n rows, e.equals_iff j k, e.equals_iff a j, e.equals_iff a k)

  value_at-add_to :
      (a k : K) (n : ℕ) (rows : List (K × ℕ))
      → value_at a (add_to k n rows) ≡ (if a == k then n else 0) + value_at a rows
  unfolding add_to value_at
  value_at-add_to a k n [] = ground arith
  value_at-add_to a k n ((j, m) ∷ rows) =
      ground
        (arith, value_at-add_to a k n rows, e.equals_iff j k, e.equals_iff a j, e.equals_iff a k)

  add_to-IsDistinct :
      (k : K) (n : ℕ) (rows : List (K × ℕ))
      → IsDistinct (names rows)
      → IsDistinct (names (add_to k n rows))
  unfolding add_to contains
  add_to-IsDistinct k n [] d = (refl, tt)
  add_to-IsDistinct k n ((j, m) ∷ rows) d = ground (
    arith,
    add_to-IsDistinct k n rows d.1,
    contains-add_to j k n rows,
    e.equals_iff j k,
    e.equals_iff k j,
  )

  pub names-add_to :
      (k : K) (n : ℕ) (rows : List (K × ℕ))
      → names (add_to k n rows)
        ≡ (if contains k (names rows) then names rows else names rows ++ k ∷ [])
  unfolding add_to contains
  names-add_to k n [] = refl
  names-add_to k n ((j, m) ∷ rows) =
      ground (arith, names-add_to k n rows, e.equals_iff j k, e.equals_iff k j)

  -- The rows sum up amounts: each key once, the keys that have an amount, and its total.
  abbrev pub SumsUp : (K → Bool) → (K → ℕ) → List (K × ℕ) → Type 0
  SumsUp has total rows =
      IsDistinct (names rows)
      × ((a : K) → contains a (names rows) ≡ has a)
      × ((a : K) → value_at a rows ≡ total a)

-- An input has the address, and a value.
abbrev pub has_amount : String → Option String → Option ℕ → Bool
has_amount a (some address) (some value) = a == address
has_amount a _ _ = false

unfoldable pub is_paid : List IoRecord → String → Bool
is_paid [] a = false
is_paid (i ∷ inputs) a = has_amount a i.address i.value || is_paid inputs a

-- The total of the values of the inputs with the address.
abbrev pub amount_of : String → Option String → Option ℕ → ℕ
amount_of a (some address) (some value) = if a == address then value else 0
amount_of a _ _ = 0

unfoldable pub total_of : List IoRecord → String → ℕ
total_of [] a = 0
total_of (i ∷ inputs) a = amount_of a i.address i.value + total_of inputs a

abbrev pub IsGrouping : List IoRecord → List (String × ℕ) → Type 0
IsGrouping inputs rows = SumsUp (is_paid inputs) (total_of inputs) rows

grouped_add-contains :
    (a : String) (address : Option String) (value : Option ℕ) (rows : List (String × ℕ))
    → contains a (names (grouped_add address value rows))
      ≡ (has_amount a address value || contains a (names rows))
grouped_add-contains a (some address) (some value) rows = contains-add_to a address value rows
grouped_add-contains a (some address) none rows = refl
grouped_add-contains a none value rows = refl

grouped_add-value :
    (a : String) (address : Option String) (value : Option ℕ) (rows : List (String × ℕ))
    → value_at a (grouped_add address value rows) ≡ amount_of a address value + value_at a rows
grouped_add-value a (some address) (some value) rows = value_at-add_to a address value rows
grouped_add-value a (some address) none rows = omega arith
grouped_add-value a none value rows = omega arith

grouped_add-IsDistinct :
    (address : Option String) (value : Option ℕ) (rows : List (String × ℕ))
    → IsDistinct (names rows)
    → IsDistinct (names (grouped_add address value rows))
grouped_add-IsDistinct (some address) (some value) rows d = add_to-IsDistinct address value rows d
grouped_add-IsDistinct (some address) none rows d = d
grouped_add-IsDistinct none value rows d = d

group_from-kept :
    (inputs : List IoRecord) (rows : List (String × ℕ))
    → IsDistinct (names rows)
    → SumsUp
        (λ a. is_paid inputs a || contains a (names rows))
        (λ a. total_of inputs a + value_at a rows)
        (group_from inputs rows)
unfolding group_from is_paid total_of
group_from-kept [] rows d = (d, λ a. refl, λ a. omega arith)
group_from-kept (i ∷ inputs) rows d =
    let (distinct, there, total) =
      group_from-kept inputs (grouped_add i.address i.value rows)
        (grouped_add-IsDistinct i.address i.value rows d) in
    (
      distinct,
      λ a. ground (arith, there a, grouped_add-contains a i.address i.value rows),
      λ a. omega (arith, total a, grouped_add-value a i.address i.value rows),
    )

pub grouped_input_values-IsGrouping :
    (inputs : List IoRecord) → IsGrouping inputs (grouped_input_values_by_address inputs)
unfolding grouped_input_values_by_address contains value_at
grouped_input_values-IsGrouping inputs =
    let (distinct, there, total) = group_from-kept inputs [] tt in
    (distinct, λ a. ground (arith, there a), λ a. omega (arith, total a))

abbrev pub is_value : ℕ → Option ℕ → Bool
is_value v none = false
is_value v (some value) = v == value

-- The number of the outputs with the value.
unfoldable pub count_of : List IoRecord → ℕ → ℕ
count_of [] v = 0
count_of (o ∷ outputs) v = (if is_value v o.value then 1 else 0) + count_of outputs v

unfoldable pub has_value : List IoRecord → ℕ → Bool
has_value [] v = false
has_value (o ∷ outputs) v = is_value v o.value || has_value outputs v

abbrev pub value_list : Option ℕ → List ℕ
value_list none = []
value_list (some x) = x ∷ []

abbrev pub values_of : List IoRecord → List ℕ
values_of [] = []
values_of (o ∷ outputs) = value_list o.value ++ values_of outputs

-- The rows count the outputs of each value, in the order in which the values come first.
abbrev pub IsTally : List IoRecord → List (ℕ × ℕ) → Type 0
IsTally outputs rows =
    SumsUp (has_value outputs) (count_of outputs) rows
    × (names rows ≡ in_order [] (values_of outputs))

counts_from-names :
    (outputs : List IoRecord) (rows : List (ℕ × ℕ))
    → names (counts_from outputs rows) ≡ in_order (names rows) (values_of outputs)
unfolding counts_from in_order
counts_from-names [] rows = refl
counts_from-names (o ∷ outputs) rows = elim (Option-cases o.value) [
  | inl e ↦ rw e (counts_from-names outputs rows)
  | inr (v, e) ↦
      rw e (counts_from-names outputs (add_to v 1 rows) ∙ rw (names-add_to v 1 rows) refl)
]

count_value-contains :
    (v : ℕ) (value : Option ℕ) (rows : List (ℕ × ℕ))
    → contains v (names (count_value value rows)) ≡ (is_value v value || contains v (names rows))
count_value-contains v none rows = refl
count_value-contains v (some value) rows = contains-add_to v value 1 rows

count_value-value :
    (v : ℕ) (value : Option ℕ) (rows : List (ℕ × ℕ))
    → value_at v (count_value value rows) ≡ (if is_value v value then 1 else 0) + value_at v rows
count_value-value v none rows = omega arith
count_value-value v (some value) rows = value_at-add_to v value 1 rows

count_value-IsDistinct :
    (value : Option ℕ) (rows : List (ℕ × ℕ))
    → IsDistinct (names rows)
    → IsDistinct (names (count_value value rows))
count_value-IsDistinct none rows d = d
count_value-IsDistinct (some value) rows d = add_to-IsDistinct value 1 rows d

counts_from-kept :
    (outputs : List IoRecord) (rows : List (ℕ × ℕ))
    → IsDistinct (names rows)
    → SumsUp
        (λ v. has_value outputs v || contains v (names rows))
        (λ v. count_of outputs v + value_at v rows)
        (counts_from outputs rows)
unfolding counts_from has_value count_of
counts_from-kept [] rows d = (d, λ v. refl, λ v. omega arith)
counts_from-kept (o ∷ outputs) rows d =
    let (distinct, there, total) =
      counts_from-kept outputs (count_value o.value rows) (count_value-IsDistinct o.value rows d) in
    (
      distinct,
      λ v. ground (arith, there v, count_value-contains v o.value rows),
      λ v. omega (arith, total v, count_value-value v o.value rows),
    )

pub output_value_counts-IsTally :
    (outputs : List IoRecord) → IsTally outputs (output_value_counts outputs)
unfolding output_value_counts contains value_at
output_value_counts-IsTally outputs =
    let (distinct, there, total) = counts_from-kept outputs [] tt in
    (
      (distinct, λ v. ground (arith, there v), λ v. omega (arith, total v)),
      counts_from-names outputs [],
    )

value_at_nil : (v : ℕ) → value_at v [] ≡ 0
unfolding value_at
value_at_nil v = refl

-- Some value stands more than once.
abbrev pub HasRepeated : List IoRecord → Type 0
HasRepeated outputs = (v : ℕ) × (1 < count_of outputs v)

pub repeated_iff :
    (outputs : List IoRecord)
    → (1 < (most_frequent_value (output_value_counts outputs)).1) ↔ HasRepeated outputs
repeated_iff outputs =
    let rows = output_value_counts outputs in
    let ((distinct, _, total), _) = output_value_counts-IsTally outputs in
    elim (most_frequent_value-cases rows) [
      | inl (e, f) ↦ (
        λ h. absurd (ground (arith, rw f at h)),
        λ (v, h). absurd (omega (arith, h, total v, ap (value_at v) e, value_at_nil v)),
      )
      | inr (best, most, f) ↦ rw f (
        λ h.
            let (_, same) = first_most-value rows best distinct most in
            (best.0, omega (arith, h, same, total best.0)),
        λ (v, h). omega (arith, h, total v, first_most-max v rows best most),
      )
    ]
