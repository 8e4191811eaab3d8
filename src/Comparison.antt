-- ===== src/Comparison.antt =====
-- pipeline/exporters/comparison.py: the metrics of BlockSci's detection.
pub mod Detection
pub mod DetectionLaws
pub mod Samples
