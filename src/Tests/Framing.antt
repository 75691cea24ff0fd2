-- ===== src/Tests/Framing.antt =====
-- framing.rs at concrete messages.
use atv.Base.{ℕ, ◌≡◌, refl, List, [], ◌∷◌, ◌++◌, arith, true, ◌+◌, ◌-◌, ◌≤◌, length}
use atv.Base.Exec.{returns, fails}
use atv.Base.Ends.{Ends, Ends-mono}
use atv.Framing.Bounds.{read_message-Upto}
use atv.Stream.Cursor.{cursor_read-left, cursor, cursor-IsRead, cursor-Yields}
use atv.Framing.{max_frame, frame, read_message, encode_len, frame_exceeds}
use atv.Framing.RoundTrip.{read_message-frame, read_message_oversize}
use atv.Tests.Fixture.{remote, start_message}

read_message-frame_example :
    read_message cursor remote (frame remote (start_message true) ++ (5 ∷ []))
    ≡ returns (start_message true) (5 ∷ [])
unfolding remote
read_message-frame_example =
    read_message-frame cursor cursor-IsRead remote (start_message true)
      (frame remote (start_message true) ++ (5 ∷ [])) (5 ∷ []) refl (omega arith)
      (cursor-Yields (frame remote (start_message true)) (5 ∷ []))

-- MAX_FRAME + 1 is 0x81 0x80 0x40.
read_message_oversize_example :
    read_message cursor remote (0x81 ∷ 0x80 ∷ 0x40 ∷ []) ≡ fails frame_exceeds []
unfolding encode_len
read_message_oversize_example =
    read_message_oversize cursor cursor-IsRead remote 1048577 (0x81 ∷ 0x80 ∷ 0x40 ∷ []) []
      (omega arith) (omega arith) (cursor-Yields (encode_len 10 1048577) [])

-- The position in a stream of four bytes.
abbrev at : List ℕ → ℕ
at s = 4 - length s

at-moves :
    (n : ℕ) (s : List ℕ)
    → n ≤ max_frame
    → Ends (λ _ t. at t ≤ at s + n) (λ _ t. at t ≤ at s + n) (cursor.read_exact n s)
at-moves n s h =
    Ends-mono (λ _ t. length s ≤ length t + n) (λ _ t. at t ≤ at s + n)
      (λ _ t. length s ≤ length t + n) (λ _ t. at t ≤ at s + n) (cursor.read_exact n s)
      (λ bs t k. omega (arith, k)) (λ e t k. omega (arith, k)) (cursor_read-left n s)

read_message-Upto_example :
    Ends
      (λ _ t. at t ≤ 0 + (5 + max_frame))
      (λ _ t. at t ≤ 0 + (5 + max_frame))
      (read_message cursor remote (0x81 ∷ 0x80 ∷ 0x40 ∷ 7 ∷ []))
read_message-Upto_example =
    read_message-Upto cursor at at-moves remote (0x81 ∷ 0x80 ∷ 0x40 ∷ 7 ∷ [])
