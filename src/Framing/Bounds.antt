-- ===== src/Framing/Bounds.antt =====
-- How much a message takes from its stream.
use atv.Base.{bit_and, ◌==◌, ℕ, zero, suc, ◌+◌, ◌≤◌, ltb, arith}
use atv.Base.Exec.{Run, lift, ◌>>=◌}
use atv.Base.Ends.{Ends, Ends-bind, Ends-mono, Ends-if, Keeps-lift}
use atv.Stream.{Read, Codec, IoError}
use atv.Framing.{first_byte, read_len, read_message, decode_body, max_frame}

-- `at` is the position in the stream: a read of up to 1 MiB moves it on by no more than it asks
-- for. Of larger reads nothing is assumed.
module _ (R : Read) (at : R.Source → ℕ)
    (moves : (n : ℕ) (s : R.Source)
      → n ≤ max_frame
      → Ends (λ _ t. at t ≤ at s + n) (λ _ t. at t ≤ at s + n) (R.read_exact n s)) where
  abbrev Upto : {A : Type 0} → ℕ → Run R.Source IoError A → Type 0
  Upto limit r = Ends (λ _ t. at t ≤ limit) (λ _ t. at t ≤ limit) r

  read_len-Upto :
      (rounds shift len limit : ℕ) (s : R.Source)
      → at s + rounds ≤ limit
      → Upto limit (read_len R rounds shift len s)
  unfolding read_len
  read_len-Upto zero shift len limit s h = omega arith
  read_len-Upto (suc rounds) shift len limit s h =
      Ends-bind (λ _ t. at t + rounds ≤ limit) (λ _ t. at t ≤ limit) (λ _ t. at t ≤ limit)
        (R.read_exact 1) _ s
        (Ends-mono (λ _ t. at t ≤ at s + 1) (λ _ t. at t + rounds ≤ limit) (λ _ t. at t ≤ at s + 1)
          (λ _ t. at t ≤ limit) (R.read_exact 1 s) (λ a t k. omega (arith, k, h))
          (λ e t k. omega (arith, k, h)) (moves 1 s (omega arith)))
        λ buffer t k.
          Ends-if (λ _ t. at t ≤ limit) (λ _ t. at t ≤ limit)
            (bit_and (first_byte buffer) 0x80 == 0) _ _ t (λ _. omega (arith, k))
            λ _.
              Ends-if (λ _ t. at t ≤ limit) (λ _ t. at t ≤ limit) (shift == 4) _ _ t
                (λ _. omega (arith, k))
                (λ _. read_len-Upto rounds (shift + 1) _ limit t (omega (arith, k)))

  body :
      {M : Type 0} (c : Codec M) (len : ℕ) (s : R.Source) (limit : ℕ)
      → len ≤ max_frame
      → at s + len ≤ limit
      → Upto limit ((R.read_exact len >>= λ bytes. lift (decode_body R c bytes)) s)
  body c len s limit fits h =
      Ends-bind (λ _ t. at t ≤ limit) (λ _ t. at t ≤ limit) (λ _ t. at t ≤ limit) (R.read_exact len)
        _ s
        (Ends-mono (λ _ t. at t ≤ at s + len) (λ _ t. at t ≤ limit) (λ _ t. at t ≤ at s + len)
          (λ _ t. at t ≤ limit) (R.read_exact len s) (λ a t k. omega (arith, k, h))
          (λ e t k. omega (arith, k, h)) (moves len s fits))
        λ bytes t k. (Keeps-lift (λ u. at u ≤ limit) (decode_body R c bytes)).at t k

  -- Whatever the peer sends, a message takes at most five bytes and the 1 MiB of a frame from the
  -- stream, also where it is refused, and no read asks for more than 1 MiB at once.
  pub read_message-Upto :
      {M : Type 0} (c : Codec M) (s : R.Source)
      → Ends
          (λ _ t. at t ≤ at s + (5 + max_frame))
          (λ _ t. at t ≤ at s + (5 + max_frame))
          (read_message R c s)
  unfolding read_message
  read_message-Upto c s =
      let limit = at s + (5 + max_frame) in
      Ends-bind (λ _ t. at t ≤ at s + 5) (λ _ t. at t ≤ limit) (λ _ t. at t ≤ limit)
        (read_len R 5 0 0) _ s
        (Ends-mono (λ _ t. at t ≤ at s + 5) (λ _ t. at t ≤ at s + 5) (λ _ t. at t ≤ at s + 5)
          (λ _ t. at t ≤ limit) (read_len R 5 0 0 s) (λ a t k. k) (λ e t k. omega (arith, k))
          (read_len-Upto 5 0 0 (at s + 5) s (omega arith)))
        λ len t k.
          Ends-if (λ _ t. at t ≤ limit) (λ _ t. at t ≤ limit) (ltb max_frame len) _ _ t
            (λ _. omega (arith, k))
            λ fits. body c len t limit (ground (arith, fits)) (ground (arith, k, fits))
