-- ===== src/Cli/Number.antt =====
-- `str::parse::<i32>` and the decimal text that it reads.
pub mod Decimal
use atv.Base.{
  ℕ, zero, suc, ◌+◌, ◌-◌, ◌*◌, ◌^◌, ◌≤◌, Bool, ◌&&◌, Option, none, some, List, [], ◌∷◌, leb, ltb,
  ◌==◌, if◌then◌else◌,
}

-- `negsuc n` is -(n + 1).
pub data ℤ : Type 0 where
  pos : ℕ → ℤ
  negsuc : ℕ → ℤ

-- `char::to_digit(10)`
unfoldable pub decimal_digit : ℕ → Option ℕ
decimal_digit c = if leb b'0' c && leb c b'9' then some (c - b'0') else none

-- The digits, most significant first; `none` on a bad digit and past `limit`.
unfoldable pub digits_loop : ℕ → ℕ → List ℕ → Option ℕ
digits_loop limit acc [] = some acc
digits_loop limit acc (c ∷ s) = elim (decimal_digit c) [
  | none ↦ none
  | some d ↦
      let acc' = acc * 10 + d in
      let rest = digits_loop limit acc' s in if ltb limit acc' then none else rest
]

-- `i32::MAX`, and the magnitude of `i32::MIN`
abbrev pub i32_max : ℕ
i32_max = 2 ^ 31 - 1

abbrev pub i32_min : ℕ
i32_min = 2 ^ 31

abbrev pub negate : ℕ → ℤ
negate zero = pos 0
negate (suc n) = negsuc n

abbrev pub positive : List ℕ → Option ℤ
positive s = elim (digits_loop i32_max 0 s) [ some n ↦ some (pos n) | none ↦ none ]

abbrev pub negative : List ℕ → Option ℤ
negative s = elim (digits_loop i32_min 0 s) [ some n ↦ some (negate n) | none ↦ none ]

-- What is left of a sign must not be empty.
unfoldable pub signed : ℕ → List ℕ → Option ℤ
signed c [] = positive (c ∷ [])
signed c (d ∷ s) =
    if c == b'+'
    then positive (d ∷ s)
    else if c == b'-'
    then negative (d ∷ s)
    else positive (c ∷ d ∷ s)

unfoldable pub parse_i32 : List ℕ → Option ℤ
unfolding signed
parse_i32 [] = none
parse_i32 (c ∷ s) = signed c s
