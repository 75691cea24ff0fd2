-- ===== src/Base/Bits/Masks.antt =====
-- The masks of framing.rs, `0x7f` and `0x80`, as a remainder and a quotient.
use Prim.Native.Nat.{ℕ, ◌*◌, ◌/◌, ◌%◌, ◌<◌, bit_and}
use mathlib.Core.Path.{◌≡◌, ap, ◌∙◌}
use native.Mathlib.Omega.{arith}
use atv.Base.Bits.Digits.{bit_and-peel, bit_and-zero}

-- `x & 0x7f`, by one more bit at a time.
low1 : (a : ℕ) → bit_and a 1 ≡ a % 2
low1 a = omega (arith, bit_and-peel a 1, bit_and-zero (a / 2))

low2 : (a : ℕ) → bit_and a 3 ≡ a % 4
low2 a = omega (arith, bit_and-peel a 3, low1 (a / 2))

low3 : (a : ℕ) → bit_and a 7 ≡ a % 8
low3 a = omega (arith, bit_and-peel a 7, low2 (a / 2))

low4 : (a : ℕ) → bit_and a 15 ≡ a % 16
low4 a = omega (arith, bit_and-peel a 15, low3 (a / 2))

low5 : (a : ℕ) → bit_and a 31 ≡ a % 32
low5 a = omega (arith, bit_and-peel a 31, low4 (a / 2))

low6 : (a : ℕ) → bit_and a 63 ≡ a % 64
low6 a = omega (arith, bit_and-peel a 63, low5 (a / 2))

pub bit_and_low : (a : ℕ) → bit_and a 0x7f ≡ a % 128
bit_and_low a = omega (arith, bit_and-peel a 127, low6 (a / 2))

pub half_double : (n : ℕ) → n * 2 / 2 ≡ n
half_double n = omega arith

bit_and-double : (a m : ℕ) → bit_and a (m * 2) ≡ bit_and (a / 2) m * 2
bit_and-double a m =
    bit_and-peel a (m * 2) ∙ omega (arith, ap (λ (t : ℕ). bit_and (a / 2) t) (half_double m))

-- `b & 0x80` likewise: the top bit of a number of so many bits.
top1 : (a : ℕ) → a < 4 → bit_and a 2 ≡ a / 2 * 2
top1 a h = omega (arith, h, bit_and-double a 1, low1 (a / 2))

top2 : (a : ℕ) → a < 8 → bit_and a 4 ≡ a / 4 * 4
top2 a h = omega (arith, h, bit_and-double a 2, top1 (a / 2) (omega (arith, h)))

top3 : (a : ℕ) → a < 16 → bit_and a 8 ≡ a / 8 * 8
top3 a h = omega (arith, h, bit_and-double a 4, top2 (a / 2) (omega (arith, h)))

top4 : (a : ℕ) → a < 32 → bit_and a 16 ≡ a / 16 * 16
top4 a h = omega (arith, h, bit_and-double a 8, top3 (a / 2) (omega (arith, h)))

top5 : (a : ℕ) → a < 64 → bit_and a 32 ≡ a / 32 * 32
top5 a h = omega (arith, h, bit_and-double a 16, top4 (a / 2) (omega (arith, h)))

top6 : (a : ℕ) → a < 128 → bit_and a 64 ≡ a / 64 * 64
top6 a h = omega (arith, h, bit_and-double a 32, top5 (a / 2) (omega (arith, h)))

pub bit_and_top : (a : ℕ) → a < 256 → bit_and a 0x80 ≡ a / 128 * 128
bit_and_top a h = omega (arith, h, bit_and-double a 64, top6 (a / 2) (omega (arith, h)))
