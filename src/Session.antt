-- ===== src/Session.antt =====
-- session.rs: the session port. The handshake, reading the power state, and the commands.
pub mod Handshake
pub mod Power
pub mod Wake
pub mod Commands
pub mod Closed
