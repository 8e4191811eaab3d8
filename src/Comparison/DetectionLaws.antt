-- ===== src/Comparison/DetectionLaws.antt =====
-- What the confusion matrix counts and lists.
use coinjoin_pipeline.Base.{
  ℕ, suc, ◌+◌, ◌≡◌, refl, ap, ◌∙◌, String, Bool, true, false, List, [], ◌∷◌, length, arith, some,
  ◌==◌, string_equality, not, ◌&&◌, ◌||◌, contains, length-append, contains-append,
}
use coinjoin_pipeline.Comparison.Detection.{
  Label, Labelled, Counts, Matrix, EmulatorData, no_counts, tally, count_all, txids, intersection,
  difference, confusion_matrix, build_detection_confusion_matrix,
}

abbrev pub seen : Counts → ℕ
seen c = c.true_positive + c.false_positive + c.true_negative + c.false_negative + c.unknown

abbrev pub tp_fp : Counts → ℕ
tp_fp c = c.true_positive + c.false_positive

tally_one :
    (l : Label) (d : Bool) (txid : String) (c : Counts) (n : ℕ)
    → seen (tally l d txid c) + n ≡ seen c + suc n
unfolding tally
tally_one Label.coinjoin true txid c n = omega arith
tally_one Label.coinjoin false txid c n = omega arith
tally_one Label.not_coinjoin true txid c n = omega arith
tally_one Label.not_coinjoin false txid c n = omega arith
tally_one Label.unlabelled d txid c n = omega arith

-- Each transaction is counted once.
count_all-seen :
    (in_scope : List String) (ts : List Labelled) (c : Counts)
    → seen (count_all in_scope ts c) ≡ seen c + length (txids ts)
unfolding count_all
count_all-seen in_scope [] c = omega arith
count_all-seen in_scope (t ∷ ts) c =
    count_all-seen in_scope ts (tally t.expected (contains t.txid in_scope) t.txid c)
    ∙ tally_one t.expected (contains t.txid in_scope) t.txid c (length (txids ts))

-- The lists are as long as the counts say.
abbrev Listed : Counts → Type 0
Listed c =
    (length c.false_positives ≡ c.false_positive) × (length c.false_negatives ≡ c.false_negative)

tally-Listed :
    (l : Label) (d : Bool) (txid : String) (c : Counts) → Listed c → Listed (tally l d txid c)
unfolding tally
tally-Listed Label.coinjoin true txid c h = h
tally-Listed Label.coinjoin false txid c h =
    (h.0, length-append c.false_negatives (txid ∷ []) ∙ ap (λ n. n + 1) h.1)
tally-Listed Label.not_coinjoin true txid c h =
    (length-append c.false_positives (txid ∷ []) ∙ ap (λ n. n + 1) h.0, h.1)
tally-Listed Label.not_coinjoin false txid c h = h
tally-Listed Label.unlabelled d txid c h = h

count_all-Listed :
    (in_scope : List String) (ts : List Labelled) (c : Counts)
    → Listed c
    → Listed (count_all in_scope ts c)
unfolding count_all
count_all-Listed in_scope [] c h = h
count_all-Listed in_scope (t ∷ ts) c h =
    count_all-Listed in_scope ts _ (tally-Listed t.expected (contains t.txid in_scope) t.txid c h)

length-intersection :
    (xs ys : List String) → length (intersection xs ys) + length (difference xs ys) ≡ length xs
unfolding intersection difference
length-intersection [] ys = omega arith
length-intersection (x ∷ xs) ys = ground (arith, length-intersection xs ys)

-- Whether a transaction of a list has the txid, the label, and a detection as given.
abbrev is_label : Label → Label → Bool
is_label Label.coinjoin Label.coinjoin = true
is_label Label.not_coinjoin Label.not_coinjoin = true
is_label Label.unlabelled Label.unlabelled = true
is_label _ _ = false

unfoldable pub has_label : String → Label → List Labelled → Bool
has_label txid l [] = false
has_label txid l (t ∷ ts) = t.txid == txid && is_label t.expected l || has_label txid l ts

contains-intersection :
    (a : String) (xs ys : List String)
    → contains a (intersection xs ys) ≡ (contains a xs && contains a ys)
unfolding contains intersection
contains-intersection a [] ys = refl
contains-intersection a (x ∷ xs) ys =
    ground (arith, contains-intersection a xs ys, string_equality.equals_iff a x)

tally-false_positives :
    (a : String) (l : Label) (d : Bool) (txid : String) (c : Counts)
    → contains a (tally l d txid c).false_positives
      ≡ (contains a c.false_positives || (a == txid && is_label l Label.not_coinjoin && d))
unfolding tally contains
tally-false_positives a Label.coinjoin true txid c = ground arith
tally-false_positives a Label.coinjoin false txid c = ground arith
tally-false_positives a Label.not_coinjoin true txid c =
    ground (arith, contains-append a c.false_positives (txid ∷ []))
tally-false_positives a Label.not_coinjoin false txid c = ground arith
tally-false_positives a Label.unlabelled d txid c = ground arith

count_all-false_positives :
    (a : String) (in_scope : List String) (ts : List Labelled) (c : Counts)
    → contains a (count_all in_scope ts c).false_positives
      ≡ (contains a c.false_positives || (has_label a Label.not_coinjoin ts && contains a in_scope))
unfolding count_all has_label
count_all-false_positives a in_scope [] c = ground arith
count_all-false_positives a in_scope (t ∷ ts) c =
    count_all-false_positives a in_scope ts (tally t.expected (contains t.txid in_scope) t.txid c)
    ∙ ground (
      arith,
      tally-false_positives a t.expected (contains t.txid in_scope) t.txid c,
      string_equality.equals_iff a t.txid,
      string_equality.equals_iff t.txid a,
    )

tally-false_negatives :
    (a : String) (l : Label) (d : Bool) (txid : String) (c : Counts)
    → contains a (tally l d txid c).false_negatives
      ≡ (contains a c.false_negatives || (a == txid && is_label l Label.coinjoin && not d))
unfolding tally contains
tally-false_negatives a Label.coinjoin true txid c = ground arith
tally-false_negatives a Label.coinjoin false txid c =
    ground (arith, contains-append a c.false_negatives (txid ∷ []))
tally-false_negatives a Label.not_coinjoin true txid c = ground arith
tally-false_negatives a Label.not_coinjoin false txid c = ground arith
tally-false_negatives a Label.unlabelled d txid c = ground arith

count_all-false_negatives :
    (a : String) (in_scope : List String) (ts : List Labelled) (c : Counts)
    → contains a (count_all in_scope ts c).false_negatives ≡ (
        contains a c.false_negatives
        || (has_label a Label.coinjoin ts && not (contains a in_scope)))
unfolding count_all has_label
count_all-false_negatives a in_scope [] c = ground arith
count_all-false_negatives a in_scope (t ∷ ts) c =
    count_all-false_negatives a in_scope ts (tally t.expected (contains t.txid in_scope) t.txid c)
    ∙ ground (
      arith,
      tally-false_negatives a t.expected (contains t.txid in_scope) t.txid c,
      string_equality.equals_iff a t.txid,
      string_equality.equals_iff t.txid a,
    )

-- A labelled transaction is one of the transactions.
has_label-txids :
    (a : String) (l : Label) (ts : List Labelled)
    → has_label a l ts ≡ true
    → contains a (txids ts) ≡ true
unfolding has_label contains
has_label-txids a l [] h = ground (arith, h)
has_label-txids a l (t ∷ ts) h = ground (
  arith,
  h,
  has_label-txids a l ts,
  string_equality.equals_iff t.txid a,
  string_equality.equals_iff a t.txid,
)

module _ {R : Type 0} (divide : ℕ → ℕ → R) (has_positive_sum : R → R → Bool) (harmonic : R → R → R)
    (emulated : EmulatorData) (detected : List String) (m : Matrix R) where
  abbrev BuiltFrom : Type 0
  BuiltFrom = m ≡ confusion_matrix divide has_positive_sum harmonic emulated.transactions detected

  built :
      build_detection_confusion_matrix divide has_positive_sum harmonic (some emulated) detected
        ≡ some m
      → BuiltFrom
  unfolding build_detection_confusion_matrix
  built h = ground (arith, h)

  -- In a matrix the five counts add up to the evaluated transactions, the listed false positives and
  -- false negatives are as many as their counts say, and the detections within and outside the
  -- evaluated transactions add up to all detections.
  pub confusion_counts :
      build_detection_confusion_matrix divide has_positive_sum harmonic (some emulated) detected
        ≡ some m
      → (seen m.counts ≡ m.evaluated_transactions)
        × (length m.counts.false_positives ≡ m.counts.false_positive)
        × (length m.counts.false_negatives ≡ m.counts.false_negative)
        × (m.detected_in_scope + m.out_of_scope_detected ≡ m.detected_transactions)
  unfolding confusion_matrix
  confusion_counts h =
      let known = txids emulated.transactions in
      let in_scope = intersection detected known in
      let listed = count_all-Listed in_scope emulated.transactions no_counts (refl, refl) in
      let total : seen (count_all in_scope emulated.transactions no_counts) ≡ length known =
        omega (arith, count_all-seen in_scope emulated.transactions no_counts) in
      rw (built h) (total, listed.0, listed.1, length-intersection detected known)

  -- A matrix lists as false positives the transactions that are labelled as no CoinJoin and were
  -- detected, and as false negatives those that are labelled as a CoinJoin and were not.
  pub confusion_lists :
      build_detection_confusion_matrix divide has_positive_sum harmonic (some emulated) detected
        ≡ some m
      → (txid : String)
      → (contains txid m.counts.false_positives
          ≡ (has_label txid Label.not_coinjoin emulated.transactions && contains txid detected))
        × (contains txid m.counts.false_negatives
            ≡ (has_label txid Label.coinjoin emulated.transactions && not (contains txid detected)))
  unfolding confusion_matrix contains
  confusion_lists h txid =
      let ts = emulated.transactions in
      let in_scope = intersection detected (txids ts) in
      let scope = contains-intersection txid detected (txids ts) in
      rw (built h) (
        count_all-false_positives txid in_scope ts no_counts
            ∙ ground (arith, scope, has_label-txids txid Label.not_coinjoin ts),
        count_all-false_negatives txid in_scope ts no_counts
            ∙ ground (arith, scope, has_label-txids txid Label.coinjoin ts),
      )
