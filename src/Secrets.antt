-- ===== src/Secrets.antt =====
-- The passwords and passphrases of the hosts, in memory and in the keychain.
pub mod Keychain
pub mod Routing
pub mod Store
pub mod Found
pub mod Moving
pub mod Loading
pub mod Relaunch
pub mod Tests
