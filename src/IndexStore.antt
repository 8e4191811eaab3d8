-- ===== src/IndexStore.antt =====
-- src/coinjoin_pipeline/execution/pbs/index_store.py: the lock, the working copy and the backup of the
-- persistent BlockSci index.
pub mod Lock
mod Copy
mod Backup
mod PublishLaws
mod BackupLaws
pub mod Exclusion
pub mod Samples
