-- ===== src/Base/Bits/Digits.antt =====
-- The digit recursions of the bit operations, unrolled by one digit.
use Prim.Native.Nat.{
  ℕ, zero, suc, ◌+◌, ◌*◌, ◌/◌, ◌%◌, ◌≤◌, min, max, bit_and, bit_or, digits, bit_and-bitwise,
  bit_or-bitwise,
}
use mathlib.Core.Path.{◌≡◌, refl, sym, ap, ◌∙◌}
use native.Mathlib.Omega.{arith}

-- Induction on the binary digits: zero, and a positive number from its half.
halve_upto :
    (P : ℕ → Type 0) → P 0 → ((a : ℕ) → P (suc a / 2) → P (suc a)) → (bound a : ℕ) → a ≤ bound → P a
halve_upto P base half bound zero below = base
halve_upto P base half zero (suc a) below = absurd (omega arith)
halve_upto P base half (suc bound) (suc a) below =
    half a (halve_upto P base half bound (suc a / 2) (omega arith))

pub halving : (P : ℕ → Type 0) → P 0 → ((a : ℕ) → P (suc a / 2) → P (suc a)) → (a : ℕ) → P a
halving P base half a = halve_upto P base half a a (omega arith)

pub zero-bit_and : (b : ℕ) → bit_and 0 b ≡ 0
zero-bit_and = bit_and-bitwise 0

pub zero-bit_or : (b : ℕ) → bit_or 0 b ≡ b
zero-bit_or = bit_or-bitwise 0

-- A number's digits run out before it does, so fuel beyond it is not used.
module _ (rest : ℕ → ℕ) (op : ℕ → ℕ → ℕ) where
  abbrev Settles : ℕ → Type 0
  Settles a = (fuel : ℕ) → a ≤ fuel → (b : ℕ) → digits rest op fuel a b ≡ digits rest op a a b

  Settles-zero : Settles 0
  Settles-zero zero enough b = refl
  Settles-zero (suc fuel) enough b = refl

  Settles-suc : (a : ℕ) → Settles (suc a / 2) → Settles (suc a)
  Settles-suc a half zero enough b = absurd (omega arith)
  Settles-suc a half (suc fuel) enough b =
      ap (λ (t : ℕ). t * 2 + op (suc a % 2) (b % 2))
        (half fuel (omega arith) (b / 2) ∙ sym (half a (omega arith) (b / 2)))

  settles : (a : ℕ) → Settles a
  settles = halving Settles Settles-zero Settles-suc

  digits-peel :
      (a b : ℕ)
      → digits rest op (suc a) (suc a) b
        ≡ digits rest op (suc a / 2) (suc a / 2) (b / 2) * 2 + op (suc a % 2) (b % 2)
  digits-peel a b =
      ap (λ (t : ℕ). t * 2 + op (suc a % 2) (b % 2)) (settles (suc a / 2) a (omega arith) (b / 2))

-- The lowest digit and the rest.
pub bit_and-peel : (a b : ℕ) → bit_and a b ≡ bit_and (a / 2) (b / 2) * 2 + min (a % 2) (b % 2)
bit_and-peel zero b = omega (arith, bit_and-bitwise 0 b, bit_and-bitwise 0 (b / 2))
bit_and-peel (suc a) b =
    bit_and-bitwise (suc a) b
    ∙ digits-peel (λ _. zero) min a b
    ∙ ap (λ (t : ℕ). t * 2 + min (suc a % 2) (b % 2)) (sym (bit_and-bitwise (suc a / 2) (b / 2)))

pub bit_or-peel : (a b : ℕ) → bit_or a b ≡ bit_or (a / 2) (b / 2) * 2 + max (a % 2) (b % 2)
bit_or-peel zero b = omega (arith, bit_or-bitwise 0 b, bit_or-bitwise 0 (b / 2))
bit_or-peel (suc a) b =
    bit_or-bitwise (suc a) b
    ∙ digits-peel (λ y. y) max a b
    ∙ ap (λ (t : ℕ). t * 2 + max (suc a % 2) (b % 2)) (sym (bit_or-bitwise (suc a / 2) (b / 2)))

pub bit_and-zero : (a : ℕ) → bit_and a 0 ≡ 0
bit_and-zero =
    halving (λ a. bit_and a 0 ≡ 0) refl (λ a half. omega (arith, bit_and-peel (suc a) 0, half))

bit_or-zero : (a : ℕ) → bit_or a 0 ≡ a
bit_or-zero =
    halving (λ a. bit_or a 0 ≡ a) refl (λ a half. omega (arith, bit_or-peel (suc a) 0, half))
