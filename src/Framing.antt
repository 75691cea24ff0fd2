-- ===== src/Framing.antt =====
-- framing.rs: a message is its length as a varint, then its body.
pub mod Varint
pub mod RoundTrip
pub mod Effects
pub mod Bounds
use atv.Base.{
  ℕ, zero, suc, ◌+◌, ◌*◌, ◌/◌, ◌%◌, ◌^◌, bit_and, bit_or, List, [], ◌∷◌, ◌++◌, ltb, ◌==◌,
  if◌then◌else◌, length,
}
use atv.Base.Exec.{Exec, Result, ok, err, pure, throw, lift, ◌>>=◌}
use atv.Stream.{IoError, invalid_data, Read, Write, Codec}

-- `MAX_FRAME`
abbrev pub max_frame : ℕ
max_frame = 1024 * 1024

-- The loop over `len: u64` that pushes its groups of seven bits. Ten rounds take 70 bits.
unfoldable pub encode_len : ℕ → ℕ → List ℕ
encode_len zero len = []
encode_len (suc rounds) len =
    let byte = bit_and len 0x7f % 256 in
    let rest = len / 2 ^ 7 in
    let more = encode_len rounds rest in if rest == 0 then byte ∷ [] else bit_or byte 0x80 ∷ more

module _ {M : Type 0} (c : Codec M) where
  -- What `write_message` hands to `write_all`.
  unfoldable pub frame : M → List ℕ
  frame msg = encode_len 10 (length (c.encode msg)) ++ c.encode msg

  module _ (W : Write) where
    unfoldable pub write_message : M → Exec W.Sink IoError (Unit {0})
    write_message msg = W.write_all (frame msg)

abbrev pub varint_too_long : IoError
varint_too_long = record { kind = invalid_data; text = "varint too long" }

abbrev pub frame_exceeds : IoError
frame_exceeds = record { kind = invalid_data; text = "frame exceeds 1 MiB" }

-- `byte[0]` of the one-byte buffer, which holds 0 at first.
first_byte : List ℕ → ℕ
first_byte [] = 0
first_byte (b ∷ _) = b

module _ (R : Read) where
  open R use {Source, read_exact}

  -- The loop `for shift in 0..5u32`, with the rounds left.
  unfoldable pub read_len : ℕ → ℕ → ℕ → Exec Source IoError ℕ
  unfolding first_byte
  read_len zero shift len = pure len
  read_len (suc rounds) shift len = do
    buffer ← read_exact 1
    let byte = first_byte buffer
    let len' = bit_or len (bit_and byte 0x7f * 2 ^ (7 * shift) % 2 ^ 64)
    let more = read_len rounds (shift + 1) len'
    if bit_and byte 0x80 == 0 then pure len' else if shift == 4 then throw varint_too_long else more

  module _ {M : Type 0} (c : Codec M) where
    abbrev pub decode_body : List ℕ → Result IoError M
    decode_body body = elim (c.decode body) [
      | ok msg ↦ ok msg
      | err text ↦ err (record { kind = invalid_data; text = text })
    ]

    unfoldable pub read_message : Exec Source IoError M
    read_message = do
      len ← read_len 5 0 0
      let rest : Exec Source IoError M = do body ← read_exact len; lift (decode_body body)
      if ltb max_frame len then throw frame_exceeds else rest
