-- ===== src/Vault.antt =====
-- The vault: tombstones of deleted records, merging an imported bundle, and sync envelopes.
pub mod Deletions
pub mod Gather
pub mod Compaction
pub mod Marking
pub mod Tombstones
pub mod Merge
pub mod MergeSteps
pub mod MergeLaws
pub mod MergeTally
pub mod Collections
pub mod Resolution
pub mod Contract
pub mod Trust
pub mod Records
pub mod Plans
pub mod PlanLaws
pub mod Import
pub mod ImportLaws
pub mod Tests
mod ImportTests
