-- ===== src/Pairing/Digest.antt =====
-- What the pairing secret is, and that computing it does not panic.
use atv.Base.{
  ℕ, zero, suc, ◌+◌, ◌*◌, ◌≡◌, ◌≢◌, refl, sym, true, ◌||◌, not, none, some, List, [], ◌∷◌, ◌++◌,
  replicate, length, is_some, ◌==◌, arith, Bool-cases, Option-cases, inl, inr, ap, ◌∙◌,
}
use atv.Base.Exec.{ok, Result-cases}
use atv.World.{Env}
use atv.Wol.{hex_digit, from_str_radix}
use atv.Wol.Parsing.{from_str_radix-pair}
use atv.Pairing.Code.{Spells, Reads, both, all_hex-Reads}
use atv.Pairing.Secret.{
  all_hex, two_at, hex_byte, first_byte, strip_leading_zeros, rsa_numbers, hashed, checked_secret,
  compute_pairing_secret,
}

from_str_radix_hex :
    (a b : ℕ)
    → is_some (hex_digit a) ≡ true
    → is_some (hex_digit b) ≡ true
    → is_some (from_str_radix (a ∷ b ∷ [])) ≡ true
from_str_radix_hex a b ha hb = elim (Option-cases (hex_digit a)) [
  | inl f ↦ cc
  | inr (x, f) ↦ elim (Option-cases (hex_digit b)) [
    | inl g ↦ cc
    | inr (y, g) ↦ ap is_some (from_str_radix-pair a b x y f g)
  ]
]

-- For a code that passes the check, none of the three numbers read from it is a panic.
pub hex_byte_total :
    (code : List ℕ)
    → length code ≡ 6
    → all_hex code ≡ true
    → (is_some (from_str_radix (two_at 0 code)) ≡ true)
      × (is_some (from_str_radix (two_at 2 code)) ≡ true)
      × (is_some (from_str_radix (two_at 4 code)) ≡ true)
unfolding all_hex
hex_byte_total [] six h = absurd (omega arith)
hex_byte_total (_ ∷ []) six h = absurd (omega arith)
hex_byte_total (_ ∷ _ ∷ []) six h = absurd (omega arith)
hex_byte_total (_ ∷ _ ∷ _ ∷ []) six h = absurd (omega arith)
hex_byte_total (_ ∷ _ ∷ _ ∷ _ ∷ []) six h = absurd (omega arith)
hex_byte_total (_ ∷ _ ∷ _ ∷ _ ∷ _ ∷ []) six h = absurd (omega arith)
hex_byte_total (a ∷ b ∷ c ∷ d ∷ e ∷ f ∷ []) six h =
    let (ha, ta) = both _ _ h in
    let (hb, tb) = both _ _ ta in
    let (hc, tc) = both _ _ tb in
    let (hd, td) = both _ _ tc in
    let (he, te) = both _ _ td in
    let (hf, _) = both _ _ te in
    (from_str_radix_hex a b ha hb, from_str_radix_hex c d hc hd, from_str_radix_hex e f he hf)
hex_byte_total (_ ∷ _ ∷ _ ∷ _ ∷ _ ∷ _ ∷ _ ∷ _) six h = absurd (omega arith)

-- The number without the zeros that it begins with.
abbrev NoLead : List ℕ → Type 0
NoLead [] = Unit
NoLead (b ∷ _) = b ≢ 0

abbrev pub Stripped : List ℕ → List ℕ → Type 0
Stripped bytes rest = (n : ℕ) × (bytes ≡ replicate n 0 ++ rest) × NoLead rest

strip_leading_zeros-Stripped : (bytes : List ℕ) → Stripped bytes (strip_leading_zeros bytes)
unfolding strip_leading_zeros
strip_leading_zeros-Stripped [] = (0, refl, tt)
strip_leading_zeros-Stripped (zero ∷ bytes) =
    let (n, same, first) = strip_leading_zeros-Stripped bytes in
    (suc n, ap (λ (l : List ℕ). 0 ∷ l) same, first)
strip_leading_zeros-Stripped (suc b ∷ bytes) = (0, refl, λ e. omega arith)

module _ (env : Env) where
  -- The certificate's key is an RSA key of this modulus and exponent, without leading zeros.
  abbrev pub KeyNumbers : List ℕ → List ℕ → List ℕ → Type 0
  KeyNumbers cert m x =
      (modulus : List ℕ) × (exponent : List ℕ) × (env.rsa_public_key cert
        ≡ ok (some (modulus, exponent)))
      × Stripped modulus m
      × Stripped exponent x

  rsa_numbers-KeyNumbers :
      (cert : List ℕ) (c : List ℕ × List ℕ) → rsa_numbers env cert ≡ ok c → KeyNumbers cert c.0 c.1
  unfolding rsa_numbers
  rsa_numbers-KeyNumbers cert c e = elim (Result-cases (env.rsa_public_key cert)) [
    | inr (x, f) ↦ let no : ⊥ = cc in absurd no
    | inl (none, f) ↦ let no : ⊥ = cc in absurd no
    | inl (some (modulus, exponent), f) ↦
        let same : c ≡ (strip_leading_zeros modulus, strip_leading_zeros exponent) = cc in
        rw same (
          modulus,
          exponent,
          f,
          strip_leading_zeros-Stripped modulus,
          strip_leading_zeros-Stripped exponent,
        )
  ]

  -- What a secret is, and for which code: one of six hexadecimal digits `abcdef`. With the client's
  -- numbers `m`, `x` and the server's `n`, `y`, it is the SHA-256 of `m`, `x`, `n`, `y` and the
  -- bytes `cd` and `ef`, and begins with the byte `ab`.
  abbrev pub IsSecret : List ℕ → List ℕ → List ℕ → List ℕ → Type 0
  IsSecret client server code digest =
      (a : ℕ) × (b : ℕ) × (c : ℕ) × (d : ℕ) × (e : ℕ) × (f : ℕ) × Spells code
        (a ∷ b ∷ c ∷ d ∷ e ∷ f ∷ [])
      × (m : List ℕ) × (x : List ℕ) × (n : List ℕ) × (y : List ℕ) × KeyNumbers client m x
      × KeyNumbers server n y
      × (digest ≡ env.sha256 (m ++ (x ++ (n ++ (y ++ ((c * 16 + d) ∷ (e * 16 + f) ∷ []))))))
      × ((rest : List ℕ) × (digest ≡ (a * 16 + b) ∷ rest))

  starts :
      (digest : List ℕ) (n v : ℕ)
      → length digest ≡ suc n
      → first_byte digest ≡ v
      → (rest : List ℕ) × (digest ≡ v ∷ rest)
  starts [] n v e f = absurd (omega arith)
  starts (b ∷ rest) n v e f = (rest, ap (λ h. h ∷ rest) f)

  IsSecret-of :
      (client server code digest : List ℕ) (c s : List ℕ × List ℕ)
      → Reads code
      → rsa_numbers env client ≡ ok c
      → rsa_numbers env server ≡ ok s
      → digest ≡ env.sha256 (hashed env c s code)
      → length digest ≡ 32
      → first_byte digest ≡ hex_byte (two_at 0 code)
      → IsSecret client server code digest
  IsSecret-of client server code digest c s (v0, v1, v2, v3, v4, v5, spelled, ab, cd, ef) g k same
        long begins =
      (
        v0,
        v1,
        v2,
        v3,
        v4,
        v5,
        spelled,
        c.0,
        c.1,
        s.0,
        s.1,
        rsa_numbers-KeyNumbers client c g,
        rsa_numbers-KeyNumbers server s k,
        rw (sym cd, sym ef) same,
        starts digest 31 (v0 * 16 + v1) long (begins ∙ ab),
      )

  -- Where the SHA-256 has 32 bytes, a secret is returned only for a code of six hexadecimal digits
  -- and certificates with RSA keys. It is the SHA-256 of the client's modulus and exponent, the
  -- server's modulus and exponent, all without their leading zeros, and the two bytes that the
  -- code's last four digits write; and its first byte is the one that the first two digits write.
  pub compute_pairing_secret-digest :
      ((message : List ℕ) → length (env.sha256 message) ≡ 32)
      → (client server code digest : List ℕ)
      → compute_pairing_secret env client server code ≡ ok digest
      → IsSecret client server code digest
  unfolding compute_pairing_secret checked_secret
  compute_pairing_secret-digest long client server code digest e =
      elim (Bool-cases (not (length code == 6) || not (all_hex code))) [
        | inl f ↦ let no : ⊥ = cc in absurd no
        | inr f ↦ elim (Result-cases (rsa_numbers env client)) [
          | inr (x, g) ↦ let no : ⊥ = cc in absurd no
          | inl (c, g) ↦ elim (Result-cases (rsa_numbers env server)) [
            | inr (x, k) ↦ let no : ⊥ = cc in absurd no
            | inl (s, k) ↦
                let d = env.sha256 (hashed env c s code) in
                elim (Bool-cases (first_byte d == hex_byte (two_at 0 code))) [
                  | inr q ↦ let no : ⊥ = cc in absurd no
                  | inl q ↦
                      let same : digest ≡ d = cc in
                      let begins : first_byte d ≡ hex_byte (two_at 0 code) = ground (arith, q) in
                      IsSecret-of client server code digest c s
                        (all_hex-Reads code (ground (arith, f)) (ground (arith, f))) g k same
                        (ap (λ (l : List ℕ). length l) same ∙ long (hashed env c s code))
                        (ap first_byte same ∙ begins)
                ]
          ]
        ]
      ]
