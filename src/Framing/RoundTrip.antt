-- ===== src/Framing/RoundTrip.antt =====
-- `read_message` on what `write_message` wrote, over any reader that keeps the promises of `Read`.
use atv.Base.{
  All, ◌-◌, ℕ, zero, suc, ◌+◌, ◌*◌, ◌/◌, ◌%◌, ◌^◌, ◌≤◌, ◌<◌, ◌≡◌, refl, ap, ◌∙◌, List, [], ◌∷◌,
  ◌++◌, length, arith, sym, append_assoc,
}
use native.Mathlib.Decide.{dec_lt}
use native.Mathlib.Nat.{pow-suc, div-add-mod}
use native.Mathlib.Numerals.{towards_suc}
use atv.Base.Exec.{Result, returns, fails, ok, lift}
use atv.Stream.{Read, IsRead, Yields, Codec, read_exact-Yields, Yields-append}
use atv.Framing.{
  encode_len, read_len, varint_too_long, frame_exceeds, max_frame, frame, read_message, decode_body,
}
use atv.Framing.Varint.{
  encode_len-last, encode_len-more, encode_len-injective, read_len-last, read_len-more,
  read_len-fifth,
}

append-injective :
    (xs ys x y : List ℕ) → length xs ≡ length ys → xs ++ x ≡ ys ++ y → (xs ≡ ys) × (x ≡ y)
append-injective [] [] x y h e = (refl, e)
append-injective [] (b ∷ ys) x y h e = absurd (omega arith)
append-injective (a ∷ xs) [] x y h e = absurd (omega arith)
append-injective (a ∷ xs) (b ∷ ys) x y h e =
    let both : (a ≡ b) × (xs ++ x ≡ ys ++ y) = ground arith in
    let (same, rest) = append-injective xs ys x y (omega arith) both.1 in
    (ground (arith, both.0, same), rest)

ok-injective : {E A : Type 0} {a b : A} → ◌≡◌ {A = Result E A} (ok a) (ok b) → a ≡ b
ok-injective e = cc

seven_more : (s : ℕ) → 2 ^ (s + 7) ≡ 128 * 2 ^ s
seven_more s = simp towards_suc (omega arith)

group_weight : (shift : ℕ) → 2 ^ (7 * (shift + 1)) ≡ 128 * 2 ^ (7 * shift)
group_weight shift =
    let e : 7 * (shift + 1) ≡ 7 * shift + 7 = omega arith in rw e (seven_more (7 * shift))

-- The lowest group of `v` and the other groups, each at its weight.
split_groups :
    (v shift : ℕ)
    → v * 2 ^ (7 * shift) ≡ v % 128 * 2 ^ (7 * shift) + v / 128 * 2 ^ (7 * (shift + 1))
split_groups v shift = omega (
  arith,
  ap (λ (t : ℕ). t * 2 ^ (7 * shift)) (div-add-mod v 128),
  ap (λ (t : ℕ). v / 128 * t) (group_weight shift),
)

group_room :
    (len v shift : ℕ)
    → len < 2 ^ (7 * shift)
    → len + v % 128 * 2 ^ (7 * shift) < 2 ^ (7 * (shift + 1))
group_room len v shift h =
    let weight = 2 ^ (7 * shift) in
    let small : v % 128 * weight ≤ 127 * weight = room (v % 128) weight (omega arith) in
    omega (arith, group_weight shift)
  where
    room : (g w : ℕ) → g ≤ 127 → g * w ≤ 127 * w
    room g w p = grind arith

weight-le : (shift : ℕ) → shift ≤ 4 → 2 ^ (7 * shift) ≤ 2 ^ 28
weight-le zero h = omega arith
weight-le (suc zero) h = omega arith
weight-le (suc (suc zero)) h = omega arith
weight-le (suc (suc (suc zero))) h = omega arith
weight-le (suc (suc (suc (suc zero)))) h = omega arith
weight-le (suc (suc (suc (suc (suc n))))) h = absurd (omega arith)

group_fits : (g shift : ℕ) → g < 128 → shift ≤ 4 → g * 2 ^ (7 * shift) < 2 ^ 64
group_fits g shift hg hs = below (2 ^ (7 * shift)) (weight-le shift hs)
  where
    below : (w : ℕ) → w ≤ 2 ^ 28 → g * w < 2 ^ 64
    below w h = let bound : g * w ≤ 127 * w = grind arith in omega arith

-- A byte of a length prefix that another one follows.
abbrev pub IsContinued : ℕ → Type 0
IsContinued b = (128 ≤ b) × (b < 256)

module _ (R : Read) where
  open R use {Source, read_exact}

  read_len-encode_len :
      (k n shift len v : ℕ) (s t : Source)
      → shift + suc k ≡ 5
      → k ≤ n
      → v < 128 ^ suc k
      → len < 2 ^ (7 * shift)
      → v * 2 ^ (7 * shift) < 2 ^ 64
      → Yields R s (encode_len (suc n) v) t
      → read_len R (suc k) shift len s ≡ returns (len + v * 2 ^ (7 * shift)) t
  read_len-encode_len zero n shift len v s t hs hk hv hl fits y =
      let (m, e, same) = rw (encode_len-last n v (omega arith)) at y in
      rw (← same) (read_len-last R 0 shift len v s m (omega arith) hl fits e)
  read_len-encode_len (suc k) zero shift len v s t hs hk hv hl fits y = absurd (omega arith)
  read_len-encode_len (suc k) (suc n) shift len v s t hs hk hv hl fits y = elim (dec_lt v 128) [
    | yes sv ↦
        let (m, e, same) = rw (encode_len-last (suc n) v sv) at y in
        rw (← same) (read_len-last R (suc k) shift len v s m sv hl fits e)
    | no lv ↦
        let (m, e, rest) = rw (encode_len-more (suc n) v (omega arith)) at y in
        read_len-more R (suc k) shift len (v % 128) s m (omega arith) (omega arith) hl
          (omega (arith, split_groups v shift)) e
        ∙ read_len-encode_len k n (shift + 1) (len + v % 128 * 2 ^ (7 * shift)) (v / 128) m t
            (omega arith) (omega arith) (omega (arith, pow-suc 128 (suc k)))
            (group_room len v shift hl) (omega (arith, split_groups v shift)) rest
        ∙ ap (λ (x : ℕ). returns x t) (omega (arith, split_groups v shift))
  ]

  read_len-unended :
      (k shift len : ℕ) (bs : List ℕ) (s t : Source)
      → shift + suc k ≡ 5
      → len < 2 ^ (7 * shift)
      → length bs ≡ suc k
      → All IsContinued bs
      → Yields R s bs t
      → read_len R (suc k) shift len s ≡ fails varint_too_long t
  read_len-unended k shift len [] s t hs hl size h y = absurd (omega arith)
  read_len-unended zero shift len (b ∷ []) s t hs hl size (hb, _) (m, e, same) =
      let four : shift ≡ 4 = omega arith in
      rw (four, ← same) (read_len-fifth R 0 len b s m hb.0 hb.1 e)
  read_len-unended zero shift len (b ∷ x ∷ bs) s t hs hl size h y = absurd (omega arith)
  read_len-unended (suc k) shift len (b ∷ bs) s t hs hl size (hb, h) (m, e, y) =
      let whole : b - 128 + 128 ≡ b = omega arith in
      let low : b % 128 ≡ b - 128 = omega arith in
      read_len-more R (suc k) shift len (b - 128) s m (omega arith) (omega arith) hl
        (group_fits (b - 128) shift (omega arith) (omega arith)) (rw whole e)
      ∙ read_len-unended k (shift + 1) (len + (b - 128) * 2 ^ (7 * shift)) bs m t (omega arith)
          (rw (← low) (group_room len b shift hl)) (omega arith) h y

  read_len-prefix :
      (n : ℕ) (s t : Source)
      → n < 2 ^ 35
      → Yields R s (encode_len 10 n) t
      → read_len R 5 0 0 s ≡ returns n t
  read_len-prefix n s t h y =
      read_len-encode_len 4 9 0 0 n s t (omega arith) (omega arith) (omega arith) (omega arith)
        (omega arith) y
      ∙ ap (λ (x : ℕ). returns x t) (omega arith)

module _ (R : Read) (L : IsRead R) {M : Type 0} (c : Codec M) where
  read_message_body :
      (n : ℕ) (body : List ℕ) (s m t : R.Source)
      → read_len R 5 0 0 s ≡ returns n m
      → n ≤ max_frame
      → R.read_exact n m ≡ returns body t
      → read_message R c s ≡ lift (decode_body R c body) t
  unfolding read_message
  read_message_body n body s m t e h r = ground arith

  -- A reader that delivers what `write_message` wrote for `msg`, a body of at most 1 MiB, makes
  -- `read_message` return `msg`, and stands right behind the frame.
  pub read_message-frame :
      (msg : M) (s t : R.Source)
      → c.decode (c.encode msg) ≡ ok msg
      → length (c.encode msg) ≤ max_frame
      → Yields R s (frame c msg) t
      → read_message R c s ≡ returns msg t
  unfolding frame
  read_message-frame msg s t decodes fits y =
      let size = length (c.encode msg) in
      let (m, before, after) = Yields-append R (encode_len 10 size) (c.encode msg) s t y in
      read_message_body size (c.encode msg) s m t (read_len-prefix R size s m (omega arith) before)
        fits (read_exact-Yields R L (c.encode msg) m t after)
      ∙ ground arith

  -- A prefix that announces more than 1 MiB, in at most five bytes, is refused before any of the
  -- body is read.
  pub read_message_oversize :
      (n : ℕ) (s t : R.Source)
      → max_frame < n
      → n < 2 ^ 35
      → Yields R s (encode_len 10 n) t
      → read_message R c s ≡ fails frame_exceeds t
  unfolding read_message
  read_message_oversize n s t big fits y = ground (arith, read_len-prefix R n s t fits y)

  -- Five bytes with their top bits set are refused; no sixth byte is read.
  read_message_unended :
      (bs : List ℕ) (s t : R.Source)
      → length bs ≡ 5
      → All IsContinued bs
      → Yields R s bs t
      → read_message R c s ≡ fails varint_too_long t
  unfolding read_message
  read_message_unended bs s t size h y =
      ground (arith, read_len-unended R 4 0 0 bs s t (omega arith) (omega arith) size h y)

module _ {M : Type 0} (c : Codec M) where
  -- Two streams of frames that are equal begin with the same message. So a frame tells its message,
  -- for bodies of any length that a u64 can count, of which `read_message` accepts only some.
  pub frame-injective :
      (a b : M) (x y : List ℕ)
      → c.decode (c.encode a) ≡ ok a
      → c.decode (c.encode b) ≡ ok b
      → length (c.encode a) < 2 ^ 64
      → length (c.encode b) < 2 ^ 64
      → frame c a ++ x ≡ frame c b ++ y
      → (a ≡ b) × (x ≡ y)
  unfolding frame
  frame-injective a b x y da db ha hb e =
      let (len, rest) =
        encode_len-injective 9 (length (c.encode a)) (length (c.encode b)) (c.encode a ++ x)
          (c.encode b ++ y) (omega arith) (omega arith)
          (sym (append_assoc _ (c.encode a) x) ∙ e ∙ append_assoc _ (c.encode b) y) in
      let (body, more) = append-injective (c.encode a) (c.encode b) x y len rest in
      (ok-injective (sym da ∙ ap c.decode body ∙ db), more)
