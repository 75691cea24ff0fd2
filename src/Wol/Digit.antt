-- ===== src/Wol/Digit.antt =====
-- `char::to_digit(16)` against the digits of either case.
use atv.Base.{ℕ, ◌+◌, ◌-◌, ◌≤◌, ◌<◌, ◌≡◌, ◌⊎◌, some, arith}
use atv.Wol.{hex_digit}

-- The character `c` is the hexadecimal digit of value `v`, in either case.
abbrev pub IsHex : ℕ → ℕ → Type 0
IsHex c v =
    ((v < 10) × (c ≡ b'0' + v))
    ⊎ ((10 ≤ v) × (v < 16) × ((c ≡ b'a' + (v - 10)) ⊎ (c ≡ b'A' + (v - 10))))

pub hex_digit-IsHex : (c v : ℕ) → hex_digit c ≡ some v → IsHex c v
unfolding hex_digit
hex_digit-IsHex c v e = ground arith

pub IsHex-hex_digit : (c v : ℕ) → IsHex c v → hex_digit c ≡ some v
unfolding hex_digit
IsHex-hex_digit c v h = ground arith
