-- ===== src/Delivery/Ack.antt =====
-- src/delivery/ack.ts: the outcomes that a recipient's server reports.
pub data Acknowledgment : Type 0 where
  delivered rejected silent : Acknowledgment
