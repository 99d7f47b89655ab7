-- ===== src/Session.antt =====
-- src/session: the live session after the handshake, and the loop that reads its messages.
pub mod Live
pub mod Dispatcher
mod Tests
