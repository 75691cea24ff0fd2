-- ===== src/Base/Bits/Laws.antt =====
-- The laws of `&` that the negotiation of features rests on.
use Prim.Native.Nat.{ℕ, suc, ◌/◌, ◌%◌, ◌≤◌, min, bit_and}
use mathlib.Core.Path.{◌≡◌, sym, ap, ◌∙◌}
use native.Mathlib.Omega.{arith}
use atv.Base.Bits.Digits.{halving, zero-bit_and, bit_and-peel, bit_and-zero}

bit_and_half : (a b : ℕ) → bit_and a b / 2 ≡ bit_and (a / 2) (b / 2)
bit_and_half a b = omega (arith, bit_and-peel a b)

bit_and_parity : (a b : ℕ) → bit_and a b % 2 ≡ min (a % 2) (b % 2)
bit_and_parity a b = omega (arith, bit_and-peel a b)

pub bit_and_assoc : (a b c : ℕ) → bit_and (bit_and a b) c ≡ bit_and a (bit_and b c)
bit_and_assoc =
    halving (λ a. (b c : ℕ) → bit_and (bit_and a b) c ≡ bit_and a (bit_and b c))
      (λ b c.
        ap (λ (t : ℕ). bit_and t c) (zero-bit_and b)
        ∙ zero-bit_and c
        ∙ sym (zero-bit_and (bit_and b c)))
      (λ a half b c. omega (
        arith,
        bit_and-peel (bit_and (suc a) b) c,
        bit_and-peel (suc a) (bit_and b c),
        bit_and_parity (suc a) b,
        bit_and_parity b c,
        ap (λ (t : ℕ). bit_and t (c / 2)) (bit_and_half (suc a) b),
        ap (λ (t : ℕ). bit_and (suc a / 2) t) (bit_and_half b c),
        half (b / 2) (c / 2),
      ))

pub bit_and_comm : (a b : ℕ) → bit_and a b ≡ bit_and b a
bit_and_comm =
    halving (λ a. (b : ℕ) → bit_and a b ≡ bit_and b a) (λ b. zero-bit_and b ∙ sym (bit_and-zero b))
      (λ a half b. omega (arith, bit_and-peel (suc a) b, bit_and-peel b (suc a), half (b / 2)))

pub bit_and-le : (a b : ℕ) → bit_and a b ≤ a
bit_and-le =
    halving (λ a. (b : ℕ) → bit_and a b ≤ a) (λ b. omega (arith, zero-bit_and b))
      (λ a half b. omega (arith, bit_and-peel (suc a) b, half (b / 2)))

pub bit_and_self : (a : ℕ) → bit_and a a ≡ a
bit_and_self =
    halving (λ a. bit_and a a ≡ a) (zero-bit_and 0)
      (λ a half. omega (arith, bit_and-peel (suc a) (suc a), half))
