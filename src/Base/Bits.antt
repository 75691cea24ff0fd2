-- ===== src/Base/Bits.antt =====
-- The bit operations at variables, from their digit recursions.
pub mod Digits
pub mod Masks
pub mod Join
pub mod Laws
pub use atv.Base.Bits.Masks.{bit_and_low, bit_and_top}
pub use atv.Base.Bits.Join.{bit_or_disjoint}
pub use atv.Base.Bits.Laws.{bit_and_assoc, bit_and_comm, bit_and-le, bit_and_self}
