-- ===== src/Migration.antt =====
-- src/migration: the lockout of an address that has moved away.
pub mod Lockout
mod Tests
