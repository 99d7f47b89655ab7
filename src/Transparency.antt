-- ===== src/Transparency.antt =====
-- src/transparency: the key-transparency log.
pub mod Platform
pub mod Merkle
pub mod Log
mod Toy
mod Tests
