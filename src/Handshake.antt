-- ===== src/Handshake.antt =====
-- src/handshake: the messages of a handshake and the server's side of it.
pub mod Messages
pub mod Platform
pub mod Server
