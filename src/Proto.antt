-- ===== src/Proto.antt =====
-- proto/remotemessage.proto and proto/polo.proto: the generated message types, as far as the code
-- touches them. A text is its bytes, an i32 its bit pattern below 2 ^ 32.
pub mod Remote
pub mod Polo
