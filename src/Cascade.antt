-- ===== src/Cascade.antt =====
-- Deleting a host from all stores, apps/desktop/src/store/cascade-actions.ts.
pub mod Stores
pub mod Gone
mod Tests
