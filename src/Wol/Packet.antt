-- ===== src/Wol/Packet.antt =====
-- The layout of the magic packet.
use atv.Base.{ℕ, zero, suc, ◌≡◌, refl, List, [], ◌∷◌, ◌++◌, replicate, length, arith}
use atv.Wol.{magic_packet}

-- `n` copies of a list, one after the other.
abbrev pub repeat : ℕ → List ℕ → List ℕ
repeat zero bs = []
repeat (suc n) bs = bs ++ repeat n bs

-- For a MAC of six bytes the packet is six bytes 0xff and then the MAC sixteen times.
pub magic_packet-layout :
    (mac : List ℕ) → length mac ≡ 6 → magic_packet mac ≡ replicate 6 0xff ++ repeat 16 mac
unfolding magic_packet
magic_packet-layout [] six = absurd (omega arith)
magic_packet-layout (_ ∷ []) six = absurd (omega arith)
magic_packet-layout (_ ∷ _ ∷ []) six = absurd (omega arith)
magic_packet-layout (_ ∷ _ ∷ _ ∷ []) six = absurd (omega arith)
magic_packet-layout (_ ∷ _ ∷ _ ∷ _ ∷ []) six = absurd (omega arith)
magic_packet-layout (_ ∷ _ ∷ _ ∷ _ ∷ _ ∷ []) six = absurd (omega arith)
magic_packet-layout (a ∷ b ∷ c ∷ d ∷ e ∷ f ∷ []) six = refl
magic_packet-layout (_ ∷ _ ∷ _ ∷ _ ∷ _ ∷ _ ∷ _ ∷ _) six = absurd (omega arith)
