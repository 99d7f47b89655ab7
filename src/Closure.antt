-- ===== src/Closure.antt =====
-- src/closure: the closure of an account, from the signed request to the retention of its end.
pub mod Record
pub mod Store
pub mod Driver
