-- ===== src/Comparison/Detection.antt =====
-- comparison.py: `build_detection_confusion_matrix`. The transactions are an association list with
-- distinct txids, and the detected records are the list of their txids. The lists of txids are kept
-- in the order in which they are met; the source sorts them.
use coinjoin_pipeline.Base.{
  ℕ, ◌+◌, String, Bool, true, false, List, [], ◌∷◌, ◌++◌, length, if◌then◌else◌, nat_beq, Option,
  none, some, string_equality, contains,
}

-- `tx.get("is_coinjoin")`: True, False, or something else.
pub data Label : Type 0 where
  coinjoin not_coinjoin unlabelled : Label

-- `(txid, label)`
pub record Labelled : Type 0 where
  pub txid : String
  pub expected : Label

-- The counts of the loop over the transactions, with the txids that it collects.
pub record Counts : Type 0 where
  pub true_positive : ℕ
  pub false_positive : ℕ
  pub true_negative : ℕ
  pub false_negative : ℕ
  pub unknown : ℕ
  pub false_positives : List String
  pub false_negatives : List String

abbrev pub no_counts : Counts
no_counts = record {
  true_positive = 0;
  false_positive = 0;
  true_negative = 0;
  false_negative = 0;
  unknown = 0;
  false_positives = [];
  false_negatives = [];
}

-- One round of the loop, by the label and whether the transaction was detected.
unfoldable pub tally : Label → Bool → String → Counts → Counts
tally Label.coinjoin true txid c = record {
  true_positive = c.true_positive + 1;
  false_positive = c.false_positive;
  true_negative = c.true_negative;
  false_negative = c.false_negative;
  unknown = c.unknown;
  false_positives = c.false_positives;
  false_negatives = c.false_negatives;
}
tally Label.coinjoin false txid c = record {
  true_positive = c.true_positive;
  false_positive = c.false_positive;
  true_negative = c.true_negative;
  false_negative = c.false_negative + 1;
  unknown = c.unknown;
  false_positives = c.false_positives;
  false_negatives = c.false_negatives ++ txid ∷ [];
}
tally Label.not_coinjoin true txid c = record {
  true_positive = c.true_positive;
  false_positive = c.false_positive + 1;
  true_negative = c.true_negative;
  false_negative = c.false_negative;
  unknown = c.unknown;
  false_positives = c.false_positives ++ txid ∷ [];
  false_negatives = c.false_negatives;
}
tally Label.not_coinjoin false txid c = record {
  true_positive = c.true_positive;
  false_positive = c.false_positive;
  true_negative = c.true_negative + 1;
  false_negative = c.false_negative;
  unknown = c.unknown;
  false_positives = c.false_positives;
  false_negatives = c.false_negatives;
}
tally Label.unlabelled detected txid c = record {
  true_positive = c.true_positive;
  false_positive = c.false_positive;
  true_negative = c.true_negative;
  false_negative = c.false_negative;
  unknown = c.unknown + 1;
  false_positives = c.false_positives;
  false_negatives = c.false_negatives;
}

unfoldable pub count_all : List String → List Labelled → Counts → Counts
count_all in_scope [] c = c
count_all in_scope (t ∷ transactions) c =
    count_all in_scope transactions (tally t.expected (contains t.txid in_scope) t.txid c)

abbrev pub txids : List Labelled → List String
txids [] = []
txids (t ∷ transactions) = t.txid ∷ txids transactions

-- `a & b` and `a - b` of sets of txids
unfoldable pub intersection : List String → List String → List String
intersection [] ys = []
intersection (x ∷ xs) ys = let rest = intersection xs ys in if contains x ys then x ∷ rest else rest

unfoldable pub difference : List String → List String → List String
difference [] ys = []
difference (x ∷ xs) ys = let rest = difference xs ys in if contains x ys then rest else x ∷ rest

-- The result, with rates of type `R`.
pub record Matrix (R : Type 0) : Type 0 where
  pub evaluated_transactions : ℕ
  pub detected_transactions : ℕ
  pub detected_in_scope : ℕ
  pub out_of_scope_detected : ℕ
  pub counts : Counts
  pub precision : Option R
  pub recall : Option R
  pub f1 : Option R
  pub specificity : Option R
  pub false_positive_rate : Option R
  pub out_of_scope_detected_txids : List String

-- The emulator data that the matrix reads: `label_provenance.independent` and the transactions.
pub record EmulatorData : Type 0 where
  pub independent : Bool
  pub transactions : List Labelled

-- The operations in floating point: the rounded quotient of two counts, whether the sum of two rates
-- is above zero, and their rounded harmonic mean.
module _ {R : Type 0} (divide : ℕ → ℕ → R) (has_positive_sum : R → R → Bool)
    (harmonic : R → R → R) where
  unfoldable pub compute_optional_rate : ℕ → ℕ → Option R
  compute_optional_rate numerator denominator =
      if nat_beq denominator 0 then none else some (divide numerator denominator)

  unfoldable pub f1_score : Option R → Option R → Option R
  f1_score none recall = none
  f1_score (some precision) none = none
  f1_score (some precision) (some recall) =
      if has_positive_sum precision recall then some (harmonic precision recall) else none

  unfoldable pub confusion_matrix : List Labelled → List String → Matrix R
  confusion_matrix transactions detected =
      let in_scope = intersection detected (txids transactions) in
      let out_of_scope = difference detected (txids transactions) in
      let c = count_all in_scope transactions no_counts in
      let precision = compute_optional_rate c.true_positive (c.true_positive + c.false_positive) in
      let recall = compute_optional_rate c.true_positive (c.true_positive + c.false_negative) in
      record {
        evaluated_transactions = length (txids transactions);
        detected_transactions = length detected;
        detected_in_scope = length in_scope;
        out_of_scope_detected = length out_of_scope;
        counts = c;
        precision = precision;
        recall = recall;
        f1 = f1_score precision recall;
        specificity = compute_optional_rate c.true_negative (c.true_negative + c.false_positive);
        false_positive_rate =
            compute_optional_rate c.false_positive (c.false_positive + c.true_negative);
        out_of_scope_detected_txids = out_of_scope;
      }

  -- Without emulator data, or without independent labels, there is no matrix.
  unfoldable pub build_detection_confusion_matrix :
      Option EmulatorData → List String → Option (Matrix R)
  build_detection_confusion_matrix none detected = none
  build_detection_confusion_matrix (some data_of_run) detected =
      if data_of_run.independent
      then some (confusion_matrix data_of_run.transactions detected)
      else none
