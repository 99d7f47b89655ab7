-- ===== src/Delivery.antt =====
-- src/delivery: the sending side's queue and the receiving side's pipeline.
pub mod Queue
pub mod Retry
pub mod Submission
pub mod Scheduler
pub mod Disposition
pub mod Staged
pub mod Partition
pub mod Ack
pub mod Blocklist
pub mod Inbox
pub mod Pipeline
pub mod Silence
mod Tests
mod Receiving
