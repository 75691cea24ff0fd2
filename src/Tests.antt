-- ===== src/Tests.antt =====
-- Runs at concrete inputs, and the theorems there.
mod Fixture
mod Framing
mod Session
mod Wake
mod Pairing
mod Cli
mod Discover
mod Main
mod Dialogue
mod Paired
