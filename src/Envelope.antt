-- ===== src/Envelope.antt =====
-- src/envelope: what hides an envelope's size.
pub mod Buckets
mod Tests
