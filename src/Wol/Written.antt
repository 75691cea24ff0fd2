-- ===== src/Wol/Written.antt =====
-- Which texts parse_mac accepts, and as what.
use atv.Base.{
  ℕ, ◌+◌, ◌*◌, ◌<◌, ◌≡◌, ◌↔◌, refl, ap, ◌∙◌, ◌⊎◌, inl, inr, true, false, some, List, [], ◌∷◌,
  length, ◌==◌, arith, Bool-cases, Option-cases,
}
use atv.Base.Exec.{ok, Result-cases}
use atv.Wol.{
  parse_mac, parse_parts, split, is_separator, push, from_str_radix, radix_loop, hex_digit,
}
use atv.Wol.Digit.{IsHex, hex_digit-IsHex, IsHex-hex_digit}
use atv.Wol.Parsing.{from_str_radix-pair}

-- Two characters write a byte: two digits, or a plus and one digit.
abbrev pub IsGroup : ℕ → ℕ → ℕ → Type 0
IsGroup a b v =
    ((x : ℕ) × (y : ℕ) × IsHex a x × IsHex b y × (v ≡ x * 16 + y)) ⊎ ((a ≡ b'+') × IsHex b v)

-- The groups of the bytes, one separator between two of them.
abbrev pub Writes : List ℕ → List ℕ → Type 0
Writes (a ∷ b ∷ []) (v ∷ []) = IsGroup a b v
Writes (a ∷ b ∷ sep ∷ s) (v ∷ mac) = IsGroup a b v × ((sep ≡ b':') ⊎ (sep ≡ b'-')) × Writes s mac
Writes _ _ = ⊥

radix_loop-digit : (b v : ℕ) → radix_loop 0 (b ∷ []) ≡ some v → hex_digit b ≡ some v
unfolding radix_loop
radix_loop-digit b v e = elim (Option-cases (hex_digit b)) [
  | inl f ↦ cc
  | inr (d, f) ↦ ground (arith, f)
]

radix_loop-digits :
    (a b v : ℕ)
    → radix_loop 0 (a ∷ b ∷ []) ≡ some v
    → (x : ℕ) × (y : ℕ) × (hex_digit a ≡ some x) × (hex_digit b ≡ some y) × (v ≡ x * 16 + y)
unfolding radix_loop
radix_loop-digits a b v e = elim (Option-cases (hex_digit a)) [
  | inl f ↦ let no : ⊥ = cc in absurd no
  | inr (x, f) ↦ elim (Option-cases (hex_digit b)) [
    | inl g ↦ let no : ⊥ = ground (arith, f, g) in absurd no
    | inr (y, g) ↦ (x, y, f, g, ground (arith, f, g))
  ]
]

from_str_radix-IsGroup : (a b v : ℕ) → from_str_radix (a ∷ b ∷ []) ≡ some v → IsGroup a b v
unfolding from_str_radix
from_str_radix-IsGroup a b v e = elim (Bool-cases (a == b'+')) [
  | inl f ↦
      let one : radix_loop 0 (b ∷ []) ≡ some v = cc in
      inr (ground (arith, f), hex_digit-IsHex b v (radix_loop-digit b v one))
  | inr f ↦
      let two : radix_loop 0 (a ∷ b ∷ []) ≡ some v = cc in
      let (x, y, ha, hb, same) = radix_loop-digits a b v two in
      inl (x, y, hex_digit-IsHex a x ha, hex_digit-IsHex b y hb, same)
]

IsHex-bound : (b v : ℕ) → IsHex b v → v < 16
IsHex-bound b v h = ground arith

IsGroup-from_str_radix : (a b v : ℕ) → IsGroup a b v → from_str_radix (a ∷ b ∷ []) ≡ some v
unfolding from_str_radix radix_loop
IsGroup-from_str_radix a b v (inl (x, y, ha, hb, same)) =
    from_str_radix-pair a b x y (IsHex-hex_digit a x ha) (IsHex-hex_digit b y hb)
    ∙ ap (λ (n : ℕ). some n) (omega (arith, same))
IsGroup-from_str_radix a b v (inr (plus, hb)) =
    let digit = IsHex-hex_digit b v hb in
    let small = IsHex-bound b v hb in ground (arith, plus, digit, small)

parse_parts-fails :
    (t part : List ℕ) (parts : List (List ℕ)) (mac : List ℕ)
    → (length part == 2) ≡ false
    → ¬ (parse_parts t (part ∷ parts) ≡ ok mac)
unfolding parse_parts
parse_parts-fails t part parts mac h e = let no : ⊥ = cc in no

parse_parts-two :
    (t : List ℕ) (a b : ℕ) (parts : List (List ℕ)) (mac : List ℕ)
    → parse_parts t ((a ∷ b ∷ []) ∷ parts) ≡ ok mac
    → (v : ℕ) × (bytes : List ℕ) × (from_str_radix (a ∷ b ∷ []) ≡ some v)
      × (parse_parts t parts ≡ ok bytes)
      × (mac ≡ v ∷ bytes)
unfolding parse_parts
parse_parts-two t a b parts mac e = elim (Option-cases (from_str_radix (a ∷ b ∷ []))) [
  | inl g ↦ let no : ⊥ = cc in absurd no
  | inr (v, g) ↦ elim (Result-cases (parse_parts t parts)) [
    | inr (x, k) ↦ let no : ⊥ = cc in absurd no
    | inl (bytes, k) ↦ (v, bytes, g, k, cc)
  ]
]

last_group :
    (t : List ℕ) (a b : ℕ) (mac : List ℕ)
    → parse_parts t ((a ∷ b ∷ []) ∷ []) ≡ ok mac
    → Writes (a ∷ b ∷ []) mac
unfolding parse_parts
last_group t a b mac e =
    let (v, bytes, first, rest, same) = parse_parts-two t a b [] mac e in
    let ends : mac ≡ v ∷ [] = cc in rw ends (from_str_radix-IsGroup a b v first)

is_separator-cases : (c : ℕ) → is_separator c ≡ true → (c ≡ b':') ⊎ (c ≡ b'-')
is_separator-cases c h = ground arith

-- A first group of three characters or more.
parse_parts-long :
    (t : List ℕ) (a b c : ℕ) (parts : List (List ℕ)) (mac : List ℕ)
    → ¬ (parse_parts t (push a (push b (push c parts))) ≡ ok mac)
parse_parts-long t a b c [] mac e = parse_parts-fails t (a ∷ b ∷ c ∷ []) [] mac refl e
parse_parts-long t a b c (part ∷ parts) mac e =
    parse_parts-fails t (a ∷ b ∷ c ∷ part) parts mac (ground arith) e

parse_parts-Writes : (t s mac : List ℕ) → parse_parts t (split s) ≡ ok mac → Writes s mac
unfolding split
parse_parts-Writes t [] mac e = absurd (parse_parts-fails t [] [] mac refl e)
parse_parts-Writes t (a ∷ []) mac e = elim (Bool-cases (is_separator a)) [
  | inl f ↦ absurd (parse_parts-fails t [] _ mac refl (rw f at e))
  | inr f ↦ absurd (parse_parts-fails t (a ∷ []) [] mac refl (rw f at e))
]
parse_parts-Writes t (a ∷ b ∷ []) mac e = elim (Bool-cases (is_separator a)) [
  | inl f ↦ absurd (parse_parts-fails t [] _ mac refl (rw f at e))
  | inr f ↦ elim (Bool-cases (is_separator b)) [
    | inl g ↦ absurd (parse_parts-fails t (a ∷ []) _ mac refl (rw (f, g) at e))
    | inr g ↦ last_group t a b mac (rw (f, g) at e)
  ]
]
parse_parts-Writes t (a ∷ b ∷ c ∷ s) mac e = elim (Bool-cases (is_separator a)) [
  | inl f ↦ absurd (parse_parts-fails t [] _ mac refl (rw f at e))
  | inr f ↦ elim (Bool-cases (is_separator b)) [
    | inl g ↦ absurd (parse_parts-fails t (a ∷ []) _ mac refl (rw (f, g) at e))
    | inr g ↦ elim (Bool-cases (is_separator c)) [
      | inr h ↦ absurd (parse_parts-long t a b c (split s) mac (rw (f, g, h) at e))
      | inl h ↦
          let (v, bytes, first, rest, same) =
            parse_parts-two t a b (split s) mac (rw (f, g, h) at e) in
          rw same (
            from_str_radix-IsGroup a b v first,
            is_separator-cases c h,
            parse_parts-Writes t s bytes rest,
          )
    ]
  ]
]

-- The other way round.
IsHex-ne-separator : (c v : ℕ) → IsHex c v → is_separator c ≡ false
IsHex-ne-separator c v h = ground arith

IsGroup-ne-separator :
    (a b v : ℕ) → IsGroup a b v → (is_separator a ≡ false) × (is_separator b ≡ false)
IsGroup-ne-separator a b v (inl (x, y, ha, hb, same)) =
    (IsHex-ne-separator a x ha, IsHex-ne-separator b y hb)
IsGroup-ne-separator a b v (inr (plus, hb)) = (ground arith, IsHex-ne-separator b v hb)

separator-true : (c : ℕ) → (c ≡ b':') ⊎ (c ≡ b'-') → is_separator c ≡ true
separator-true c h = ground arith

Writes-parse_parts :
    (t s mac : List ℕ)
    → Writes s mac
    → (parse_parts t (split s) ≡ ok mac) × (length (split s) ≡ length mac)
unfolding split parse_parts
Writes-parse_parts t (a ∷ b ∷ []) (v ∷ []) h =
    let (fa, fb) = IsGroup-ne-separator a b v h in
    rw (fa, fb, IsGroup-from_str_radix a b v h) (refl, refl)
Writes-parse_parts t (a ∷ b ∷ c ∷ s) (v ∷ mac) (h, between, more) =
    let (fa, fb) = IsGroup-ne-separator a b v h in
    let (rest, groups) = Writes-parse_parts t s mac more in
    rw (fa, fb, separator-true c between, IsGroup-from_str_radix a b v h, rest)
      (refl, omega (arith, groups))
Writes-parse_parts t [] mac h = absurd h
Writes-parse_parts t (a ∷ []) mac h = absurd h
Writes-parse_parts t (a ∷ b ∷ []) [] h = absurd h
Writes-parse_parts t (a ∷ b ∷ []) (v ∷ _ ∷ _) h = absurd h
Writes-parse_parts t (a ∷ b ∷ c ∷ s) [] h = absurd h

parse_mac-accepts : (s mac : List ℕ) → parse_mac s ≡ ok mac → (length mac ≡ 6) × Writes s mac
unfolding parse_mac
parse_mac-accepts s mac e = elim (Bool-cases (length (split s) == 6)) [
  | inr f ↦ let no : ⊥ = cc in absurd no
  | inl f ↦
      let parts : parse_parts s (split s) ≡ ok mac = cc in
      let written = parse_parts-Writes s s mac parts in
      let (_, groups) = Writes-parse_parts s s mac written in (ground (arith, groups, f), written)
]

-- `parse_mac` accepts a text just where it is six groups of two characters with a colon or a dash
-- between two of them, each of two hexadecimal digits in either case, or of a plus and one digit;
-- and the bytes are the numbers that the groups write.
pub parse_mac-written :
    (s mac : List ℕ) → (parse_mac s ≡ ok mac) ↔ ((length mac ≡ 6) × Writes s mac)
unfolding parse_mac
parse_mac-written s mac = (
  parse_mac-accepts s mac,
  (λ (six, written).
      let (parts, groups) = Writes-parse_parts s s mac written in
      let enough : (length (split s) == 6) ≡ true = ground (arith, groups, six) in rw enough parts),
)
