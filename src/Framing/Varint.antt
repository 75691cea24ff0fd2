-- ===== src/Framing/Varint.antt =====
-- The length prefix in plain arithmetic: what the writer's loop pushes, and what one round of the
-- reader's loop does with it.
use atv.Base.{
  ℕ, zero, suc, ◌+◌, ◌*◌, ◌/◌, ◌%◌, ◌^◌, ◌≤◌, ◌<◌, ◌≡◌, ◌≢◌, bit_and, bit_or, List, [], ◌∷◌, ◌++◌,
  arith,
}
use native.Mathlib.Decide.{dec_lt}
use native.Mathlib.Nat.{mod-eq_of_lt, pow-suc}
use atv.Base.Bits.{bit_and_low, bit_and_top, bit_or_disjoint}
use atv.Base.Exec.{returns, fails}
use atv.Stream.{Read}
use atv.Framing.{encode_len, read_len, varint_too_long}

pub encode_len-last : (n v : ℕ) → v < 128 → encode_len (suc n) v ≡ v ∷ []
unfolding encode_len
encode_len-last n v h = ground (arith, bit_and_low v)

set_top : (g : ℕ) → g < 128 → bit_or g 0x80 ≡ g + 128
set_top g h = bit_or_disjoint 7 g 1 h

pub encode_len-more :
    (n v : ℕ) → 128 ≤ v → encode_len (suc n) v ≡ (v % 128 + 128) ∷ encode_len n (v / 128)
unfolding encode_len
encode_len-more n v h = ground (arith, bit_and_low v, set_top (v % 128) (omega arith))

encode_len-injective_step :
    (n v w : ℕ) (x y : List ℕ)
    → 128 ≤ v
    → 128 ≤ w
    → encode_len (suc (suc n)) v ++ x ≡ encode_len (suc (suc n)) w ++ y
    → (encode_len (suc n) (v / 128) ++ x ≡ encode_len (suc n) (w / 128) ++ y
        → (v / 128 ≡ w / 128) × (x ≡ y))
    → (v ≡ w) × (x ≡ y)
encode_len-injective_step n v w x y hv hw e ih =
    let both : (v % 128 ≡ w % 128)
        × (encode_len (suc n) (v / 128) ++ x ≡ encode_len (suc n) (w / 128) ++ y) =
      ground (arith, e, encode_len-more (suc n) v hv, encode_len-more (suc n) w hw) in
    let (q, same) = ih both.1 in let low = both.0 in (omega arith, same)

-- Two prefixes that begin the same stream are the same prefix.
pub encode_len-injective :
    (n v w : ℕ) (x y : List ℕ)
    → v < 128 ^ suc n
    → w < 128 ^ suc n
    → encode_len (suc n) v ++ x ≡ encode_len (suc n) w ++ y
    → (v ≡ w) × (x ≡ y)
encode_len-injective zero v w x y hv hw e =
    ground (arith, e, encode_len-last 0 v (omega arith), encode_len-last 0 w (omega arith))
encode_len-injective (suc n) v w x y hv hw e = elim (dec_lt v 128) [
  | yes sv ↦ elim (dec_lt w 128) [
    | yes sw ↦ ground (arith, e, encode_len-last (suc n) v sv, encode_len-last (suc n) w sw)
    | no lw ↦
        ground (arith, e, encode_len-last (suc n) v sv, encode_len-more (suc n) w (omega arith))
  ]
  | no lv ↦ elim (dec_lt w 128) [
    | yes sw ↦
        ground (arith, e, encode_len-more (suc n) v (omega arith), encode_len-last (suc n) w sw)
    | no lw ↦ encode_len-injective_step n v w x y (omega arith) (omega arith) e (
        encode_len-injective n (v / 128) (w / 128) x y (omega (arith, pow-suc 128 (suc n)))
          (omega (arith, pow-suc 128 (suc n))))
  ]
]

module _ (R : Read) where
  open R use {Source, read_exact}

  add_group :
      (len byte shift : ℕ)
      → len < 2 ^ (7 * shift)
      → byte % 128 * 2 ^ (7 * shift) < 2 ^ 64
      → bit_or len (bit_and byte 0x7f * 2 ^ (7 * shift) % 2 ^ 64)
        ≡ len + byte % 128 * 2 ^ (7 * shift)
  add_group len byte shift h fits =
      rw (bit_and_low byte, mod-eq_of_lt fits) (bit_or_disjoint (7 * shift) len (byte % 128) h)

  pub read_len-last :
      (rounds shift len b : ℕ) (s t : Source)
      → b < 128
      → len < 2 ^ (7 * shift)
      → b * 2 ^ (7 * shift) < 2 ^ 64
      → read_exact 1 s ≡ returns (b ∷ []) t
      → read_len R (suc rounds) shift len s ≡ returns (len + b * 2 ^ (7 * shift)) t
  unfolding read_len
  read_len-last rounds shift len b s t hb hl fits e =
      let small : b % 128 ≡ b = omega arith in
      ground (arith, add_group len b shift hl (rw small fits), bit_and_top b, small)

  pub read_len-more :
      (rounds shift len g : ℕ) (s t : Source)
      → g < 128
      → shift ≢ 4
      → len < 2 ^ (7 * shift)
      → g * 2 ^ (7 * shift) < 2 ^ 64
      → read_exact 1 s ≡ returns ((g + 128) ∷ []) t
      → read_len R (suc rounds) shift len s
        ≡ read_len R rounds (shift + 1) (len + g * 2 ^ (7 * shift)) t
  unfolding read_len
  read_len-more rounds shift len g s t hg hs hl fits e =
      let low : (g + 128) % 128 ≡ g = omega arith in
      ground (arith, add_group len (g + 128) shift hl (rw low fits), bit_and_top (g + 128), low)

  -- A fifth byte with its top bit set.
  pub read_len-fifth :
      (rounds len b : ℕ) (s t : Source)
      → 128 ≤ b
      → b < 256
      → read_exact 1 s ≡ returns (b ∷ []) t
      → read_len R (suc rounds) 4 len s ≡ fails varint_too_long t
  unfolding read_len
  read_len-fifth rounds len b s t lo hi e = ground (arith, bit_and_top b)
