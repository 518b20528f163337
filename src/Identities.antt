-- ===== src/Identities.antt =====
-- Identities that hosts share, apps/desktop/src/types/identity.ts and apps/desktop/src/lib/identity-migration.ts.
pub mod Migration
pub mod Rounds
pub mod Settled
mod Tests
