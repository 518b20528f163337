-- ===== src/Hosts.antt =====
-- Hosts: apps/desktop/src/types/host.ts, apps/desktop/src/store/hosts-store.ts and what deleting a host reaches.
pub mod Types
pub mod Normal
pub mod Form
pub mod Samples
pub mod Store
pub mod Trimming
pub mod NormalLaws
pub mod Sorting
pub mod Keeping
pub mod Reach
pub mod Groups
mod Tests
