-- ===== src/Base/Bits/Join.antt =====
-- `|` of numbers whose digits stand at different places.
use Prim.Native.Nat.{ℕ, zero, suc, ◌+◌, ◌*◌, ◌/◌, ◌^◌, ◌<◌, bit_or}
use mathlib.Core.Path.{◌≡◌, ap}
use native.Mathlib.Omega.{arith}
use native.Mathlib.Nat.{pow-suc}
use atv.Base.Bits.Digits.{zero-bit_or, bit_or-peel}
use atv.Base.Bits.Masks.{half_double}

double : (c k : ℕ) → c * 2 ^ suc k ≡ c * 2 ^ k * 2
double c k = omega (arith, ap (λ (t : ℕ). c * t) (pow-suc 2 k))

-- Digits at disjoint positions add up.
pub bit_or_disjoint : (k a c : ℕ) → a < 2 ^ k → bit_or a (c * 2 ^ k) ≡ a + c * 2 ^ k
bit_or_disjoint zero zero c h = omega (arith, zero-bit_or (c * 1))
bit_or_disjoint zero (suc a) c h = absurd (omega arith)
bit_or_disjoint (suc k) a c h = rw (double c k) (
    omega (
      arith,
      bit_or-peel a (c * 2 ^ k * 2),
      ap (λ (t : ℕ). bit_or (a / 2) t) (half_double (c * 2 ^ k)),
      bit_or_disjoint k (a / 2) c (omega (arith, pow-suc 2 k)),
    ))
