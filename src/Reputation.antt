-- ===== src/Reputation.antt =====
-- src/reputation: the metrics that an observation publishes.
pub mod Bucketize
mod Tests
