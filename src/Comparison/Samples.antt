-- ===== src/Comparison/Samples.antt =====
-- Labels and detections at which the laws of comparison.py are tried.
use coinjoin_pipeline.Base.{
  ℕ, ◌+◌, ◌≡◌, refl, String, true, List, [], ◌∷◌, length, some, string_equality, not, ◌&&◌,
  contains,
}
use coinjoin_pipeline.Comparison.Detection.{
  Label, Labelled, EmulatorData, Matrix, confusion_matrix, build_detection_confusion_matrix,
}
use coinjoin_pipeline.Comparison.DetectionLaws.{confusion_counts, confusion_lists, seen, has_label}

abbrev labelled : List Labelled
labelled =
    record { txid = "a"; expected = Label.coinjoin }
    ∷ record { txid = "b"; expected = Label.not_coinjoin }
    ∷ record { txid = "c"; expected = Label.coinjoin }
    ∷ record { txid = "d"; expected = Label.unlabelled }
    ∷ []

abbrev emulated : EmulatorData
emulated = record { independent = true; transactions = labelled }

abbrev detections : List String
detections = "a" ∷ "b" ∷ "elsewhere" ∷ []

-- A rate that is its numerator.
abbrev numerator : ℕ → ℕ → ℕ
numerator a b = a

abbrev matrix : Matrix ℕ
matrix = confusion_matrix numerator (λ p r. true) (λ p r. p) labelled detections

matrix_built :
    build_detection_confusion_matrix numerator (λ p r. true) (λ p r. p) (some emulated) detections
    ≡ some matrix
unfolding build_detection_confusion_matrix
matrix_built = refl

confusion_counts_example :
    (seen matrix.counts ≡ matrix.evaluated_transactions)
    × (length matrix.counts.false_positives ≡ matrix.counts.false_positive)
    × (length matrix.counts.false_negatives ≡ matrix.counts.false_negative)
    × (matrix.detected_in_scope + matrix.out_of_scope_detected ≡ matrix.detected_transactions)
confusion_counts_example =
    confusion_counts numerator (λ p r. true) (λ p r. p) emulated detections matrix matrix_built

confusion_lists_example :
    (contains "b" matrix.counts.false_positives
      ≡ (has_label "b" Label.not_coinjoin labelled && contains "b" detections))
    × (contains "b" matrix.counts.false_negatives
        ≡ (has_label "b" Label.coinjoin labelled && not (contains "b" detections)))
confusion_lists_example =
    confusion_lists numerator (λ p r. true) (λ p r. p) emulated detections matrix matrix_built "b"
