-- ===== src/Wol/Parsing.antt =====
-- parse_mac reads back what a MAC address prints as.
use atv.Base.{
  ℕ, ◌+◌, ◌-◌, ◌*◌, ◌/◌, ◌%◌, ◌<◌, ◌≡◌, refl, true, false, some, List, [], ◌∷◌, ◌++◌, All, map, ap,
  ◌∙◌, length, ltb, ◌==◌, if◌then◌else◌, arith,
}
use atv.Base.Exec.{ok}
use atv.Stream.{IsByte}
use atv.Wol.{parse_mac, parse_parts, split, is_separator, from_str_radix, radix_loop, hex_digit}

-- A lower-case hexadecimal digit, as `{:02x}` prints it.
abbrev digit : ℕ → ℕ
digit d = if ltb d 10 then d + b'0' else d - 10 + b'a'

abbrev byte_text : ℕ → List ℕ
byte_text b = digit (b / 16) ∷ digit (b % 16) ∷ []

-- The six groups, with the separator between them.
abbrev pub mac_text : ℕ → List ℕ → List ℕ
mac_text sep [] = []
mac_text sep (b ∷ []) = byte_text b
mac_text sep (b ∷ c ∷ bs) = byte_text b ++ (sep ∷ mac_text sep (c ∷ bs))

hex_digit-digit : (d : ℕ) → d < 16 → hex_digit (digit d) ≡ some d
unfolding hex_digit
hex_digit-digit d h = ground arith

digit-ne-separator : (d : ℕ) → d < 16 → is_separator (digit d) ≡ false
digit-ne-separator d h = ground arith

digit-ne-plus : (d : ℕ) → d < 16 → (digit d == b'+') ≡ false
digit-ne-plus d h = ground arith

from_str_radix-byte_text : (b : ℕ) → b < 256 → from_str_radix (byte_text b) ≡ some b
unfolding from_str_radix radix_loop
from_str_radix-byte_text b h = ground (
  arith,
  hex_digit-digit (b / 16) (omega arith),
  hex_digit-digit (b % 16) (omega arith),
  digit-ne-plus (b / 16) (omega arith),
)

hex_digit_bound : (c d : ℕ) → hex_digit c ≡ some d → (d < 16) × ((c == b'+') ≡ false)
unfolding hex_digit
hex_digit_bound c d e = ground (arith, e)

-- Two digits are a byte.
pub from_str_radix-pair :
    (a b x y : ℕ)
    → hex_digit a ≡ some x
    → hex_digit b ≡ some y
    → from_str_radix (a ∷ b ∷ []) ≡ some (x * 16 + y)
unfolding from_str_radix radix_loop
from_str_radix-pair a b x y e f =
    let (small, not_plus) = hex_digit_bound a x e in
    let (small', _) = hex_digit_bound b y f in ground (arith, e, f, small, small', not_plus)

split-mac_text_step :
    (b sep : ℕ) (s : List ℕ)
    → b < 256
    → is_separator sep ≡ true
    → split (byte_text b ++ (sep ∷ s)) ≡ byte_text b ∷ split s
unfolding split
split-mac_text_step b sep s h e =
    rw (digit-ne-separator (b / 16) (omega arith), digit-ne-separator (b % 16) (omega arith), e)
      refl

split-mac_text :
    (sep b : ℕ) (bs : List ℕ)
    → is_separator sep ≡ true
    → All IsByte (b ∷ bs)
    → split (mac_text sep (b ∷ bs)) ≡ map byte_text (b ∷ bs)
unfolding split
split-mac_text sep b [] e h =
    rw (digit-ne-separator (b / 16) (omega (arith, h.0)), digit-ne-separator (b % 16) (omega arith))
      refl
split-mac_text sep b (c ∷ bs) e h =
    split-mac_text_step b sep (mac_text sep (c ∷ bs)) h.0 e
    ∙ ap (λ (t : List (List ℕ)). byte_text b ∷ t) (split-mac_text sep c bs e h.1)

parse_parts-byte_text : (s bs : List ℕ) → All IsByte bs → parse_parts s (map byte_text bs) ≡ ok bs
unfolding parse_parts
parse_parts-byte_text s [] h = refl
parse_parts-byte_text s (b ∷ bs) h =
    rw (from_str_radix-byte_text b h.0, parse_parts-byte_text s bs h.1) refl

length-map : (bs : List ℕ) → length (map byte_text bs) ≡ length bs
length-map [] = refl
length-map (b ∷ bs) = omega (arith, length-map bs)

-- A MAC of six bytes that is printed with colons or with dashes is read back.
pub parse_mac-mac_text :
    (sep : ℕ) (mac : List ℕ)
    → is_separator sep ≡ true
    → length mac ≡ 6
    → All IsByte mac
    → parse_mac (mac_text sep mac) ≡ ok mac
unfolding parse_mac
parse_mac-mac_text sep [] e six h = absurd (omega arith)
parse_mac-mac_text sep (b ∷ bs) e six h =
    let groups : length (map byte_text (b ∷ bs)) ≡ 6 = omega (arith, length-map bs) in
    rw
      (
        split-mac_text sep b bs e h,
        groups,
        parse_parts-byte_text (mac_text sep (b ∷ bs)) (b ∷ bs) h,
      )
      refl
