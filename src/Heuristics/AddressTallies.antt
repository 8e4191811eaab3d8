-- ===== src/Heuristics/AddressTallies.antt =====
-- heuristics.py: the addresses of the outputs of each value, and the goals of the participants.
use coinjoin_pipeline.Base.{
  ℕ, suc, zero, ◌+◌, ◌-◌, ◌≡◌, ◌≢◌, ◌↔◌, refl, sym, ap, ◌∙◌, String, Bool, true, false, List, [],
  ◌∷◌, ◌++◌, length, arith, if◌then◌else◌, leb, nat_beq, contains, IsDistinct, ◌==◌, ◌||◌, ◌&&◌,
  not, Option, none, some, string_equality, nat_equality, Option-cases, Bool-cases, inl, inr,
}
use coinjoin_pipeline.Heuristics.Definite.{
  IoRecord, add_address, addresses_add, addresses_from, output_addresses_by_value, address_counts,
  replicate, other_value, other_values, add_values, after_fee,
}
use coinjoin_pipeline.Heuristics.Picks.{picked}
use coinjoin_pipeline.Heuristics.Tallies.{
  names, in_order, value_list, values_of, value_at, is_value,
}

abbrev pub is_address : String → Option String → Bool
is_address a none = false
is_address a (some address) = a == address

-- An output of the value goes to the address; one of the value goes to some address.
unfoldable pub pays : List IoRecord → ℕ → String → Bool
pays [] v a = false
pays (o ∷ outputs) v a = is_value v o.value && is_address a o.address || pays outputs v a

abbrev pub is_given_address : Option String → Bool
is_given_address none = false
is_given_address (some address) = true

unfoldable pub pays_any : List IoRecord → ℕ → Bool
pays_any [] v = false
pays_any (o ∷ outputs) v = is_value v o.value && is_given_address o.address || pays_any outputs v

-- The values of the outputs that go to an address.
abbrev pub paid_value : Option ℕ → Option String → List ℕ
paid_value (some v) (some address) = v ∷ []
paid_value _ _ = []

abbrev pub paid_values : List IoRecord → List ℕ
paid_values [] = []
paid_values (o ∷ outputs) = paid_value o.value o.address ++ paid_values outputs

-- The rows have each value that goes to an address once, with the number of its distinct addresses, in the order in
-- which the values come first.
abbrev pub IsAddressTally : List IoRecord → List (ℕ × ℕ) → Type 0
IsAddressTally outputs rows =
    IsDistinct (names rows)
    × ((v : ℕ) → contains v (names rows) ≡ pays_any outputs v)
    × ((v : ℕ)
        → (found : List String) × IsDistinct found
          × (length found ≡ value_at v rows)
          × ((a : String) → contains a found ≡ pays outputs v a))
    × (names rows ≡ in_order [] (paid_values outputs))

abbrev Grouped : Type 0
Grouped = List (ℕ × List String)

abbrev values : Grouped → List ℕ
values [] = []
values ((v, found) ∷ rows) = v ∷ values rows

unfoldable found_at : ℕ → Grouped → List String
found_at v [] = []
found_at v ((w, found) ∷ rows) = let later = found_at v rows in if v == w then found else later

contains-add_address :
    (v w : ℕ) (a : String) (rows : Grouped)
    → contains v (values (add_address w a rows)) ≡ (v == w || contains v (values rows))
unfolding add_address contains
contains-add_address v w a [] = ground arith
contains-add_address v w a ((x, found) ∷ rows) = ground (arith, contains-add_address v w a rows)

add_address-IsDistinct :
    (w : ℕ) (a : String) (rows : Grouped)
    → IsDistinct (values rows)
    → IsDistinct (values (add_address w a rows))
unfolding add_address contains
add_address-IsDistinct w a [] d = (refl, tt)
add_address-IsDistinct w a ((x, found) ∷ rows) d =
    ground (arith, add_address-IsDistinct w a rows d.1, contains-add_address x w a rows)

found_at-add_address :
    (v w : ℕ) (a b : String) (rows : Grouped)
    → contains b (found_at v (add_address w a rows))
      ≡ (v == w && b == a || contains b (found_at v rows))
unfolding add_address contains found_at
found_at-add_address v w a b [] = ground arith
found_at-add_address v w a b ((x, found) ∷ rows) =
    ground (arith, found_at-add_address v w a b rows, string_equality.equals_iff b a)

found_at-IsDistinct :
    (v w : ℕ) (a : String) (rows : Grouped)
    → IsDistinct (found_at v rows)
    → IsDistinct (found_at v (add_address w a rows))
unfolding add_address contains found_at
found_at-IsDistinct v w a [] d = ground arith
found_at-IsDistinct v w a ((x, found) ∷ rows) d = ground (arith, found_at-IsDistinct v w a rows)

-- What the loop keeps true of one value.
abbrev AtValue : List IoRecord → ℕ → Grouped → Grouped → Type 0
AtValue outputs v rows result =
    (contains v (values result) ≡ (pays_any outputs v || contains v (values rows)))
    × IsDistinct (found_at v result)
    × ((a : String)
        → contains a (found_at v result) ≡ (pays outputs v a || contains a (found_at v rows)))

addresses_add-AtValue :
    (v : ℕ) (value : Option ℕ) (address : Option String) (rows : Grouped)
    → IsDistinct (found_at v rows)
    → (contains v (values (addresses_add value address rows))
        ≡ (is_value v value && is_given_address address || contains v (values rows)))
      × IsDistinct (found_at v (addresses_add value address rows))
      × ((a : String)
          → contains a (found_at v (addresses_add value address rows))
            ≡ (is_value v value && is_address a address || contains a (found_at v rows)))
addresses_add-AtValue v (some w) (some address) rows d = (
  ground (arith, contains-add_address v w address rows),
  found_at-IsDistinct v w address rows d,
  λ a. found_at-add_address v w address a rows,
)
addresses_add-AtValue v (some w) none rows d = (ground arith, d, λ a. ground arith)
addresses_add-AtValue v none address rows d = (refl, d, λ a. refl)

addresses_add-IsDistinct :
    (value : Option ℕ) (address : Option String) (rows : Grouped)
    → IsDistinct (values rows)
    → IsDistinct (values (addresses_add value address rows))
addresses_add-IsDistinct (some w) (some address) rows d = add_address-IsDistinct w address rows d
addresses_add-IsDistinct (some w) none rows d = d
addresses_add-IsDistinct none address rows d = d

addresses_from-AtValue :
    (outputs : List IoRecord) (v : ℕ) (rows : Grouped)
    → IsDistinct (found_at v rows)
    → AtValue outputs v rows (addresses_from outputs rows)
unfolding addresses_from pays pays_any
addresses_from-AtValue [] v rows d = (refl, d, λ a. refl)
addresses_from-AtValue (o ∷ outputs) v rows d =
    let (there, distinct, found) = addresses_add-AtValue v o.value o.address rows d in
    let (later, kept, all) =
      addresses_from-AtValue outputs v (addresses_add o.value o.address rows) distinct in
    (ground (arith, there, later), kept, λ a. ground (arith, found a, all a))

addresses_from-IsDistinct :
    (outputs : List IoRecord) (rows : Grouped)
    → IsDistinct (values rows)
    → IsDistinct (values (addresses_from outputs rows))
unfolding addresses_from
addresses_from-IsDistinct [] rows d = d
addresses_from-IsDistinct (o ∷ outputs) rows d =
    addresses_from-IsDistinct outputs (addresses_add o.value o.address rows)
      (addresses_add-IsDistinct o.value o.address rows d)

address_counts-names : (rows : Grouped) → names (address_counts rows) ≡ values rows
unfolding address_counts
address_counts-names [] = refl
address_counts-names (row ∷ rows) = ap (λ l. row.0 ∷ l) (address_counts-names rows)

address_counts-value :
    (v : ℕ) (rows : Grouped) → value_at v (address_counts rows) ≡ length (found_at v rows)
unfolding address_counts value_at found_at
address_counts-value v [] = refl
address_counts-value v (row ∷ rows) = ground (arith, address_counts-value v rows)

values-add_address :
    (w : ℕ) (a : String) (rows : Grouped)
    → values (add_address w a rows)
      ≡ (if contains w (values rows) then values rows else values rows ++ w ∷ [])
unfolding add_address contains
values-add_address w a [] = refl
values-add_address w a ((x, found) ∷ rows) = ground (arith, values-add_address w a rows)

order_step :
    (value : Option ℕ) (address : Option String) (rows : Grouped) (later : List ℕ)
    → in_order (values (addresses_add value address rows)) later
      ≡ in_order (values rows) (paid_value value address ++ later)
unfolding in_order
order_step (some w) (some address) rows later = rw (values-add_address w address rows) refl
order_step (some w) none rows later = refl
order_step none address rows later = refl

addresses_from-values :
    (outputs : List IoRecord) (rows : Grouped)
    → values (addresses_from outputs rows) ≡ in_order (values rows) (paid_values outputs)
unfolding addresses_from in_order
addresses_from-values [] rows = refl
addresses_from-values (o ∷ outputs) rows =
    addresses_from-values outputs (addresses_add o.value o.address rows)
    ∙ order_step o.value o.address rows (paid_values outputs)

pub address_counts-IsAddressTally :
    (outputs : List IoRecord)
    → IsAddressTally outputs (address_counts (output_addresses_by_value outputs))
unfolding output_addresses_by_value found_at contains
address_counts-IsAddressTally outputs =
    let rows = addresses_from outputs [] in
    let same = address_counts-names rows in
    (
      rw same (addresses_from-IsDistinct outputs [] tt),
      λ v.
          let (there, _, _) = addresses_from-AtValue outputs v [] tt in
          rw same (ground (arith, there)),
      λ v.
          let (_, distinct, found) = addresses_from-AtValue outputs v [] tt in
          (
            found_at v rows,
            distinct,
            sym (address_counts-value v rows),
            λ a. ground (arith, found a),
          ),
      same ∙ addresses_from-values outputs [],
    )

-- An output has a value, and it is another one.
abbrev pub IsOther : ℕ → IoRecord → Type 0
IsOther value o = (x : ℕ) × (o.value ≡ some x) × (x ≢ value)

-- The share of each participant: the value, with the next of the other values while there is one,
-- without the fee, and no less than 0.
abbrev pub shares : ℕ → ℕ → ℕ → List ℕ → List ℕ
shares zero value fee others = []
shares (suc n) value fee [] = (value - fee) ∷ shares n value fee []
shares (suc n) value fee (x ∷ others) = (value + x - fee) ∷ shares n value fee others

abbrev pub greater : ℕ → ℕ → ℕ
greater a b = if leb a b then b else a

plain-shares : (n value fee : ℕ) → after_fee fee (replicate n value) ≡ shares n value fee []
unfolding after_fee replicate
plain-shares zero value fee = refl
plain-shares (suc n) value fee = ground (arith, plain-shares n value fee)

pub goals-shares :
    (n value fee : ℕ) (others : List ℕ)
    → after_fee fee (add_values (replicate n value) others) ≡ shares n value fee others
unfolding after_fee add_values replicate
goals-shares zero value fee others = refl
goals-shares (suc n) value fee [] = ground (arith, plain-shares n value fee)
goals-shares (suc n) value fee (x ∷ others) = ground (arith, goals-shares n value fee others)

abbrev pub is_other : ℕ → Option ℕ → Bool
is_other value none = false
is_other value (some x) = not (nat_beq x value)

pub is_other_iff : (value : ℕ) (o : IoRecord) → (is_other value o.value ≡ true) ↔ IsOther value o
is_other_iff value o = elim (Option-cases o.value) [
  | inl e ↦ rw e (λ h. cc h, λ (x, f, n). cc f)
  | inr (y, e) ↦ rw e (
    λ h. (y, refl, ground (arith, h)),
    λ (x, f, n). let same : y ≡ x = cc f in rw same (ground (arith, n)),
  )
]

other-cons :
    (value : ℕ) (v : Option ℕ) (rest : List ℕ)
    → other_value value v ++ rest ≡ (if is_other value v then value_list v ++ rest else rest)
other-cons value none rest = refl
other-cons value (some x) rest = ground arith

pub other_values-picked :
    (value : ℕ) (outputs : List IoRecord)
    → other_values value outputs ≡ values_of (picked (λ o. is_other value o.value) outputs)
unfolding other_values picked
other_values-picked value [] = refl
other_values-picked value (o ∷ outputs) = elim (Bool-cases (is_other value o.value)) [
  | inl y ↦
      other-cons value o.value (other_values value outputs)
      ∙ rw (y, picked) (ap (λ l. value_list o.value ++ l) (other_values-picked value outputs))
  | inr n ↦
      other-cons value o.value (other_values value outputs)
      ∙ rw (n, picked) (other_values-picked value outputs)
]
