-- ===== src/Framing/Effects.antt =====
-- What reading a message does to its source, and that it ends.
use atv.Base.{ℕ, zero, suc, ◌+◌}
use atv.Base.Exec.{Exec, Run}
use atv.Base.Halts.{Halting, Halting-pure, Halting-throw, Halting-lift, Halting-bind, Halting-if}
use atv.Base.Ends.{
  Ends, Ends-bind, Ends-mono, Keeps, Keeps-pure, Keeps-throw, Keeps-lift, Keeps-bind, Keeps-if,
}
use atv.Stream.{Read, Codec}
use atv.Framing.{read_len, read_message, decode_body, varint_too_long, frame_exceeds}

module _ {κ} (R : Read) (P : R.Source → Type κ) (kept : (n : ℕ) → Keeps P (R.read_exact n)) where
  read_len-Keeps : (rounds shift len : ℕ) → Keeps P (read_len R rounds shift len)
  unfolding read_len
  read_len-Keeps zero shift len = Keeps-pure P len
  read_len-Keeps (suc rounds) shift len = Keeps-bind P _ _ (kept 1) λ buffer.
      Keeps-if P _ _ _ (Keeps-pure P _)
        (Keeps-if P _ _ _ (Keeps-throw P varint_too_long) (read_len-Keeps rounds (shift + 1) _))

  -- Reading a message does to the source what `read_exact` does.
  pub read_message-Keeps : {M : Type 0} (c : Codec M) → Keeps P (read_message R c)
  unfolding read_message
  read_message-Keeps c = Keeps-bind P _ _ (read_len-Keeps 5 0 0) λ len.
      Keeps-if P _ _ _ (Keeps-throw P frame_exceeds)
        (Keeps-bind P _ _ (kept len) λ body. Keeps-lift P (decode_body R c body))

module _ (R : Read) (halts : (n : ℕ) → Halting (R.read_exact n)) where
  read_len-Halting : (rounds shift len : ℕ) → Halting (read_len R rounds shift len)
  unfolding read_len
  read_len-Halting zero shift len = Halting-pure len
  read_len-Halting (suc rounds) shift len = Halting-bind _ _ (halts 1) λ buffer.
      Halting-if _ _ _ (Halting-pure _)
        (Halting-if _ _ _ (Halting-throw varint_too_long) (read_len-Halting rounds (shift + 1) _))

  -- Reading a message halts.
  pub read_message-Halting : {M : Type 0} (c : Codec M) → Halting (read_message R c)
  unfolding read_message
  read_message-Halting c = Halting-bind _ _ (read_len-Halting 5 0 0) λ len.
      Halting-if _ _ _ (Halting-throw frame_exceeds)
        (Halting-bind _ _ (halts len) λ body. Halting-lift (decode_body R c body))

module _ {κ} (R : Read) (P : R.Source → Type κ) (kept : (n : ℕ) → Keeps P (R.read_exact n)) where
  abbrev AfterByte : {E A : Type 0} → Run R.Source E A → Type κ
  AfterByte r = Ends (λ _ t. P t) (λ _ _. Unit) r

  after_byte :
      {E A : Type 0} (m : Exec R.Source E A) (s : R.Source) → Keeps P m → P s → AfterByte (m s)
  after_byte m s k h =
      Ends-mono (λ _ t. P t) (λ _ t. P t) (λ _ t. P t) (λ _ _. Unit) (m s) (λ _ _ q. q)
        (λ _ _ _. tt) (k.at s h)

  read_len-first_byte :
      (rounds shift len : ℕ) (s : R.Source)
      → AfterByte (R.read_exact 1 s)
      → AfterByte (read_len R (suc rounds) shift len s)
  unfolding read_len
  read_len-first_byte rounds shift len s first =
      Ends-bind (λ _ t. P t) (λ _ t. P t) (λ _ _. Unit) (R.read_exact 1) _ s first
        λ buffer t h.
          after_byte _ t
            (Keeps-if P _ _ _ (Keeps-pure P _) (
              Keeps-if P _ _ _ (Keeps-throw P varint_too_long)
                (read_len-Keeps R P kept rounds (shift + 1) _)))
            h

  -- A message that is read has at least one byte, and leaves what reading that byte leaves.
  pub read_message-first_byte :
      {M : Type 0} (c : Codec M) (s : R.Source)
      → AfterByte (R.read_exact 1 s)
      → AfterByte (read_message R c s)
  unfolding read_message
  read_message-first_byte c s first =
      Ends-bind (λ _ t. P t) (λ _ t. P t) (λ _ _. Unit) (read_len R 5 0 0) _ s
        (read_len-first_byte 4 0 0 s first)
        λ len t h.
          after_byte _ t
            (Keeps-if P _ _ _ (Keeps-throw P frame_exceeds)
              (Keeps-bind P _ _ (kept len) λ body. Keeps-lift P (decode_body R c body)))
            h
