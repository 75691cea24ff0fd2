-- ===== src/Cli/Number/Decimal.antt =====
-- Decimal texts, as `str::parse::<i32>` reads them.
use mathlib.Core.Path.{subst}
use atv.Base.{
  ℕ, zero, suc, ◌+◌, ◌*◌, ◌/◌, ◌%◌, ◌^◌, ◌≤◌, ◌<◌, ◌≡◌, refl, ap, ◌∙◌, Option, none, some, List, [],
  ◌∷◌, ◌++◌, length, length-append, leb, ltb, ◌==◌, if◌then◌else◌, Bool-cases, Option-cases, inl,
  inr, arith,
}
use atv.Cli.Number.{
  ℤ, pos, negsuc, decimal_digit, digits_loop, i32_max, i32_min, negate, positive, negative, signed,
  parse_i32,
}

-- `Display` of a number: its digits, with no leading zero.
unfoldable pub decimal_fuel : ℕ → ℕ → List ℕ
decimal_fuel zero n = []
decimal_fuel (suc fuel) n =
    let more = decimal_fuel fuel (n / 10) in
    let digit = n % 10 + b'0' in if ltb n 10 then digit ∷ [] else more ++ (digit ∷ [])

abbrev pub decimal : ℕ → List ℕ
decimal n = decimal_fuel (suc n) n

abbrev pub i32_text : ℤ → List ℕ
i32_text (pos n) = decimal n
i32_text (negsuc n) = b'-' ∷ decimal (suc n)

abbrev pub IsI32 : ℤ → Type 0
IsI32 (pos n) = n < 2 ^ 31
IsI32 (negsuc n) = n < 2 ^ 31

decimal_digit-text : (d : ℕ) → d < 10 → decimal_digit (d + b'0') ≡ some d
unfolding decimal_digit
decimal_digit-text d h = ground arith

digits_loop-last :
    (limit acc v d : ℕ) (s : List ℕ)
    → digits_loop limit acc s ≡ some v
    → d < 10
    → v * 10 + d ≤ limit
    → digits_loop limit acc (s ++ ((d + b'0') ∷ [])) ≡ some (v * 10 + d)
unfolding digits_loop
digits_loop-last limit acc v d [] e h k = ground (arith, e, decimal_digit-text d h)
digits_loop-last limit acc v d (c ∷ s) e h k = elim (Option-cases (decimal_digit c)) [
  | inl f ↦ ground (arith, e, f)
  | inr (x, f) ↦ ground (arith, e, f, digits_loop-last limit (acc * 10 + x) v d s)
]

digits_loop-one :
    (limit d : ℕ) → d < 10 → d ≤ limit → digits_loop limit 0 ((d + b'0') ∷ []) ≡ some d
unfolding digits_loop
digits_loop-one limit d h k = ground (arith, decimal_digit-text d h)

digits_loop-decimal :
    (limit fuel n : ℕ) → n < fuel → n ≤ limit → digits_loop limit 0 (decimal_fuel fuel n) ≡ some n
unfolding decimal_fuel
digits_loop-decimal limit zero n h k = absurd (omega arith)
digits_loop-decimal limit (suc fuel) n h k = elim (Bool-cases (ltb n 10)) [
  | inl f ↦
      rw f
        (digits_loop-one limit (n % 10) (omega arith) (omega arith) ∙ ap some (ground (arith, f)))
  | inr f ↦ rw f (
      digits_loop-last limit 0 (n / 10) (n % 10) (decimal_fuel fuel (n / 10))
        (digits_loop-decimal limit fuel (n / 10) (ground (arith, f)) (omega arith)) (omega arith)
        (omega arith)
      ∙ ap some (omega arith))
]

length-decimal : (fuel n : ℕ) → 1 ≤ length (decimal_fuel (suc fuel) n)
unfolding decimal_fuel
length-decimal fuel n = elim (Bool-cases (ltb n 10)) [
  | inl f ↦ rw f (omega arith)
  | inr f ↦ rw f (omega (arith, length-append (decimal_fuel fuel (n / 10)) ((n % 10 + b'0') ∷ [])))
]

-- A sign is no digit.
signed-positive : (c : ℕ) (s : List ℕ) (z : ℤ) → positive (c ∷ s) ≡ some z → signed c s ≡ some z
unfolding signed digits_loop decimal_digit
signed-positive c [] z e = e
signed-positive c (d ∷ s) z e = elim (Bool-cases (leb b'0' c)) [
  | inl f ↦ ground (arith, e, f)
  | inr f ↦ ground (arith, e, f)
]

parse_i32-positive :
    (s : List ℕ) (z : ℤ) → 1 ≤ length s → positive s ≡ some z → parse_i32 s ≡ some z
unfolding parse_i32
parse_i32-positive [] z h e = absurd (omega arith)
parse_i32-positive (c ∷ s) z h e = signed-positive c s z e

parse_i32-negative :
    (s : List ℕ) (z : ℤ) → 1 ≤ length s → negative s ≡ some z → parse_i32 (b'-' ∷ s) ≡ some z
unfolding parse_i32 signed
parse_i32-negative [] z h e = absurd (omega arith)
parse_i32-negative (c ∷ s) z h e = e

-- Every i32 is read back from its decimal text, the least one included.
pub parse_i32-i32_text : (z : ℤ) → IsI32 z → parse_i32 (i32_text z) ≡ some z
parse_i32-i32_text (pos n) h =
    parse_i32-positive (decimal n) (pos n) (length-decimal n n)
      (rw (positive, digits_loop-decimal i32_max (suc n) n (omega arith) (omega arith)) refl)
parse_i32-i32_text (negsuc n) h =
    parse_i32-negative (decimal (suc n)) (negsuc n) (length-decimal (suc n) (suc n)) (
      rw (negative, digits_loop-decimal i32_min (suc (suc n)) (suc n) (omega arith) (omega arith))
        refl)

digits_loop-le :
    (limit acc v : ℕ) (s : List ℕ) → acc ≤ limit → digits_loop limit acc s ≡ some v → v ≤ limit
unfolding digits_loop
digits_loop-le limit acc v [] h e = ground (arith, e)
digits_loop-le limit acc v (c ∷ s) h e = elim (Option-cases (decimal_digit c)) [
  | inl f ↦ ground (arith, e, f)
  | inr (x, f) ↦ ground (arith, e, f, digits_loop-le limit (acc * 10 + x) v s)
]

abbrev Fits : Option ℤ → Type 0
Fits none = Unit
Fits (some z) = IsI32 z

negate-IsI32 : (n : ℕ) → n ≤ 2 ^ 31 → IsI32 (negate n)
negate-IsI32 zero h = omega arith
negate-IsI32 (suc n) h = omega arith

positive-Fits : (s : List ℕ) → Fits (positive s)
positive-Fits s = elim (Option-cases (digits_loop i32_max 0 s)) [
  | inl e ↦ rw (positive, e) tt
  | inr (n, e) ↦ rw (positive, e) (omega (arith, digits_loop-le i32_max 0 n s (omega arith) e))
]

negative-Fits : (s : List ℕ) → Fits (negative s)
negative-Fits s = elim (Option-cases (digits_loop i32_min 0 s)) [
  | inl e ↦ rw (negative, e) tt
  | inr (n, e) ↦ rw (negative, e) (negate-IsI32 n (digits_loop-le i32_min 0 n s (omega arith) e))
]

parse_i32-Fits : (s : List ℕ) → Fits (parse_i32 s)
unfolding parse_i32 signed
parse_i32-Fits [] = tt
parse_i32-Fits (c ∷ []) = positive-Fits (c ∷ [])
parse_i32-Fits (c ∷ d ∷ s) = elim (Bool-cases (c == b'+')) [
  | inl e ↦ rw (parse_i32, e) (positive-Fits (d ∷ s))
  | inr e ↦ elim (Bool-cases (c == b'-')) [
    | inl f ↦ rw (parse_i32, e, f) (negative-Fits (d ∷ s))
    | inr f ↦ rw (parse_i32, e, f) (positive-Fits (c ∷ d ∷ s))
  ]
]

-- Whatever the text, what `parse_i32` reads is an i32.
pub parse_i32-IsI32 : (s : List ℕ) (z : ℤ) → parse_i32 s ≡ some z → IsI32 z
parse_i32-IsI32 s z e = subst Fits e (parse_i32-Fits s)
