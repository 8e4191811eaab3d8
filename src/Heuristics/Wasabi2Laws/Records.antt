-- ===== src/Heuristics/Wasabi2Laws/Records.antt =====
-- heuristics.py: the order of the values of Wasabi 2 inputs and outputs, and their texts.
use mathlib.Core.List.{Memᴰ}
use coinjoin_pipeline.Base.{
  ◌++◌, ◌≢◌, ◌∙◌, contains-append, Bool-cases, ℕ, ◌≡◌, ◌≤◌, refl, sym, ◌↔◌, inl, inr, String, true,
  List, [], ◌∷◌, arith, Option, none, some, string_equality, Option-cases, contains, ◌∈◌,
  nat_equality,
}
use coinjoin_pipeline.Heuristics.Wasabi2.{
  given_text, WasabiRecord, all_values, descending, descends, values_descending,
}

-- Every record has a value, and none is greater than the one before it.
abbrev pub IsDescending : List WasabiRecord → Type 0
IsDescending [] = Unit
IsDescending (r ∷ []) = (v : ℕ) × (r.value ≡ some v)
IsDescending (r ∷ s ∷ records) =
    ((v : ℕ) × (r.value ≡ some v) × ((w : ℕ) × (s.value ≡ some w) × (w ≤ v)))
    × IsDescending (s ∷ records)

all_values-cons :
    (r : WasabiRecord) (records : List WasabiRecord)
    → (descends (all_values (r ∷ records)) ≡ true)
    → (v : ℕ) × (r.value ≡ some v)
      × ((rest : List ℕ) × (all_values records ≡ some rest) × (descending (v ∷ rest) ≡ true))
unfolding descends all_values
all_values-cons r records h = elim (Option-cases r.value) [
  | inl e ↦ absurd (ground (arith, rw e at h))
  | inr (v, e) ↦ elim (Option-cases (all_values records)) [
    | inl f ↦ absurd (ground (arith, rw (e, f) at h))
    | inr (rest, f) ↦ (v, e, (rest, f, rw (e, f) at h))
  ]
]

cons-all_values :
    (r : WasabiRecord) (records : List WasabiRecord) (v : ℕ) (rest : List ℕ)
    → r.value ≡ some v
    → all_values records ≡ some rest
    → all_values (r ∷ records) ≡ some (v ∷ rest)
unfolding all_values
cons-all_values r records v rest e f = rw (e, f) refl

all_values-head :
    (r : WasabiRecord) (records : List WasabiRecord) (values : List ℕ)
    → all_values (r ∷ records) ≡ some values
    → (v : ℕ) × (r.value ≡ some v) × ((rest : List ℕ) × (values ≡ v ∷ rest))
unfolding all_values
all_values-head r records values h = elim (Option-cases r.value) [
  | inl e ↦ absurd (ground (arith, rw e at h))
  | inr (v, e) ↦ elim (Option-cases (all_values records)) [
    | inl f ↦ absurd (ground (arith, rw (e, f) at h))
    | inr (rest, f) ↦ let same : v ∷ rest ≡ values = cc (rw (e, f) at h) in (v, e, (rest, sym same))
  ]
]

descends-IsDescending :
    (records : List WasabiRecord) → descends (all_values records) ≡ true → IsDescending records
unfolding descends descending
descends-IsDescending [] h = tt
descends-IsDescending (r ∷ []) h = let (v, e, _) = all_values-cons r [] h in (v, e)
descends-IsDescending (r ∷ s ∷ records) h =
    let (v, e, (rest, f, falls)) = all_values-cons r (s ∷ records) h in
    let (w, g, (later, same)) = all_values-head s records rest f in
    let both : (w ≤ v) × (descending (w ∷ later) ≡ true) = ground (arith, rw same at falls) in
    ((v, e, (w, g, both.0)), descends-IsDescending (s ∷ records) (rw (f, same) both.1))

IsDescending-values :
    (records : List WasabiRecord)
    → IsDescending records
    → (values : List ℕ) × (all_values records ≡ some values) × (descending values ≡ true)
unfolding descending all_values
IsDescending-values [] d = ([], refl, refl)
IsDescending-values (r ∷ []) (v, e) = (v ∷ [], cons-all_values r [] v [] e refl, refl)
IsDescending-values (r ∷ s ∷ records) ((v, e, (w, f, le)), d) =
    let (values, g, falls) = IsDescending-values (s ∷ records) d in
    let (x, first, (later, same)) = all_values-head s records values g in
    let value : x ≡ w = cc (first, f) in
    (
      v ∷ values,
      cons-all_values r (s ∷ records) v values e g,
      rw same (ground (arith, rw same at falls)),
    )

pub values_descending_iff :
    (records : List WasabiRecord) → (values_descending records ≡ true) ↔ IsDescending records
unfolding values_descending descends
values_descending_iff records = (
  descends-IsDescending records,
  λ d. let (values, e, falls) = IsDescending-values records d in rw e falls,
)

-- Every address type that is given is one of four.
abbrev pub AllowsTypes : List WasabiRecord → Type 0
AllowsTypes records =
    (r : WasabiRecord)
    → Memᴰ r records
    → (t : String) → r.address_type ≡ some t
    → t ≢ ""
    → t ∈ "WITNESS_PUBKEYHASH" ∷ "WITNESS_UNKNOWN" ∷ "witness_pubkeyhash" ∷ "witness_unknown" ∷ []

given_text_iff : (o : Option String) (t : String) → (t ∈ given_text o) ↔ ((o ≡ some t) × (t ≢ ""))
unfolding contains
given_text_iff none t = (λ h. cc h, λ (e, n). cc e)
given_text_iff (some x) t =
    ground (arith, string_equality.equals_iff x "", string_equality.equals_iff t x)

module _ (texts : List WasabiRecord → List String) (text : WasabiRecord → Option String)
    (nil : texts [] ≡ [])
    (cons : (r : WasabiRecord) (records : List WasabiRecord)
      → texts (r ∷ records) ≡ given_text (text r) ++ texts records) where
  pub text_of :
      (records : List WasabiRecord) (t : String)
      → t ∈ texts records
      → (r : WasabiRecord) × Memᴰ r records × (text r ≡ some t) × (t ≢ "")
  unfolding contains
  text_of [] t h = absurd (ground (arith, rw nil at h))
  text_of (r ∷ records) t h = elim (Bool-cases (contains t (given_text (text r)))) [
    | inl y ↦ let (e, n) = (given_text_iff (text r) t).0 y in (r, Memᴰ.head refl, e, n)
    | inr n ↦
        let all = contains-append t (given_text (text r)) (texts records) in
        let (s, m, e, g) = text_of records t (ground (arith, all, n, rw (cons r records) at h)) in
        (s, Memᴰ.tail m, e, g)
  ]

  pub text-mem :
      (records : List WasabiRecord) (r : WasabiRecord) (t : String)
      → Memᴰ r records
      → text r ≡ some t
      → t ≢ ""
      → t ∈ texts records
  text-mem [] r t m e n = elim m [ ]
  text-mem (x ∷ records) r t (Memᴰ.head same) e n =
      let found = (given_text_iff (text x) t).1 (rw same at e, n) in
      rw (cons x records)
        (contains-append t (given_text (text x)) (texts records) ∙ ground (arith, found))
  text-mem (x ∷ records) r t (Memᴰ.tail m) e n = rw (cons x records) (
      contains-append t (given_text (text x)) (texts records)
      ∙ ground (arith, text-mem records r t m e n))
