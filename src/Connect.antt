-- ===== src/Connect.antt =====
-- Connecting to a host: the identity and the jump hosts of a connection, and the keys it trusts.
pub mod Types
pub mod Build
pub mod Ending
pub mod Routes
pub mod Faults
pub mod KnownHosts
pub mod Trusting
pub mod Launch
pub mod Launching
pub mod Prompts
pub mod Bus
mod Tests
