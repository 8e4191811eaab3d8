-- ===== src/BlockArchive.antt =====
-- src/coinjoin_pipeline/execution/block_archive.py: which archived block files a BlockSci parse or
-- update downloads, and the check of what was downloaded.
pub mod Files
pub mod Contiguous
pub mod Plan
pub mod Slices
pub mod Verify
pub mod Coverage
pub mod Samples
