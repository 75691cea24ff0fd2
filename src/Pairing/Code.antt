-- ===== src/Pairing/Code.antt =====
-- The code that the user types: six hexadecimal digits, and the three bytes that they write.
use atv.Base.{
  ℕ, ◌+◌, ◌*◌, ◌≡◌, refl, inl, inr, Bool, true, false, ◌&&◌, some, List, [], ◌∷◌, length, is_some,
  arith, Option-cases,
}
use atv.Wol.{hex_digit}
use atv.Wol.Digit.{IsHex, hex_digit-IsHex}
use atv.Wol.Parsing.{from_str_radix-pair}
use atv.Pairing.Secret.{all_hex, two_at, hex_byte}

-- The code is written with digits of these values.
abbrev pub Spells : List ℕ → List ℕ → Type 0
Spells [] [] = Unit
Spells (c ∷ code) (v ∷ values) = IsHex c v × Spells code values
Spells _ _ = ⊥

-- A character that passes the check is a digit.
pub digit_of : (c : ℕ) → is_some (hex_digit c) ≡ true → (v : ℕ) × (hex_digit c ≡ some v) × IsHex c v
digit_of c h = elim (Option-cases (hex_digit c)) [
  | inl f ↦ let no : ⊥ = cc in absurd no
  | inr (v, f) ↦ (v, f, hex_digit-IsHex c v f)
]

pub hex_byte-pair :
    (a b x y : ℕ) → hex_digit a ≡ some x → hex_digit b ≡ some y → hex_byte (a ∷ b ∷ []) ≡ x * 16 + y
unfolding hex_byte
hex_byte-pair a b x y e f = rw (from_str_radix-pair a b x y e f, hex_byte) refl

pub both : (p q : Bool) → (p && q) ≡ true → (p ≡ true) × (q ≡ true)
both true true e = (refl, refl)
both true false e = cc
both false q e = cc

-- The digits of a code, by their values, and the three bytes that are read from it.
abbrev pub Reads : List ℕ → Type 0
Reads code =
    (a : ℕ) × (b : ℕ) × (c : ℕ) × (d : ℕ) × (e : ℕ) × (f : ℕ) × Spells code
      (a ∷ b ∷ c ∷ d ∷ e ∷ f ∷ [])
    × (hex_byte (two_at 0 code) ≡ a * 16 + b)
    × (hex_byte (two_at 2 code) ≡ c * 16 + d)
    × (hex_byte (two_at 4 code) ≡ e * 16 + f)

pub all_hex-Reads : (code : List ℕ) → length code ≡ 6 → all_hex code ≡ true → Reads code
unfolding all_hex
all_hex-Reads [] six h = absurd (omega arith)
all_hex-Reads (_ ∷ []) six h = absurd (omega arith)
all_hex-Reads (_ ∷ _ ∷ []) six h = absurd (omega arith)
all_hex-Reads (_ ∷ _ ∷ _ ∷ []) six h = absurd (omega arith)
all_hex-Reads (_ ∷ _ ∷ _ ∷ _ ∷ []) six h = absurd (omega arith)
all_hex-Reads (_ ∷ _ ∷ _ ∷ _ ∷ _ ∷ []) six h = absurd (omega arith)
all_hex-Reads (k ∷ l ∷ m ∷ n ∷ o ∷ p ∷ []) six h =
    let (hk, tk) = both _ _ h in
    let (hl, tl) = both _ _ tk in
    let (hm, tm) = both _ _ tl in
    let (hn, tn) = both _ _ tm in
    let (ho, to) = both _ _ tn in
    let (hp, _) = both _ _ to in
    let (a, ea, ia) = digit_of k hk in
    let (b, eb, ib) = digit_of l hl in
    let (c, ec, ic) = digit_of m hm in
    let (d, ed, id) = digit_of n hn in
    let (e, ee, ie) = digit_of o ho in
    let (f, ef, if_) = digit_of p hp in
    (
      a,
      b,
      c,
      d,
      e,
      f,
      (ia, (ib, (ic, (id, (ie, (if_, tt)))))),
      hex_byte-pair k l a b ea eb,
      hex_byte-pair m n c d ec ed,
      hex_byte-pair o p e f ee ef,
    )
all_hex-Reads (_ ∷ _ ∷ _ ∷ _ ∷ _ ∷ _ ∷ _ ∷ _) six h = absurd (omega arith)
