-- ===== src/Wol.antt =====
-- wol.rs: MAC addresses and the magic packet. A text is the list of its bytes.
pub mod Packet
pub mod Parsing
pub mod Digit
pub mod Written
use atv.Base.{
  ℕ, zero, suc, ◌+◌, ◌-◌, ◌*◌, Bool, ◌&&◌, ◌||◌, Option, none, some, List, [], ◌∷◌, replicate,
  length, ltb, leb, ◌==◌, if◌then◌else◌,
}
use atv.Base.Exec.{Exec, Result, ok, err, lift, map_err, ◌>>◌}
use atv.Error.{AtvError, protocol_error}
use atv.Stream.{IoError}
use atv.Tls.{because}
use atv.World.{Env, World, broadcast, note}

-- `char::to_digit(16)`
unfoldable pub hex_digit : ℕ → Option ℕ
hex_digit c =
    if leb b'0' c && leb c b'9'
    then some (c - b'0')
    else if leb b'a' c && leb c b'f'
    then some (c - b'a' + 10)
    else if leb b'A' c && leb c b'F'
    then some (c - b'A' + 10)
    else none

-- The digits, most significant first; `none` on a bad digit and past 255.
radix_loop : ℕ → List ℕ → Option ℕ
radix_loop acc [] = some acc
radix_loop acc (c ∷ s) = elim (hex_digit c) [
  | none ↦ none
  | some d ↦
      let acc' = acc * 16 + d in let rest = radix_loop acc' s in if ltb 255 acc' then none else rest
]

-- `u8::from_str_radix(s, 16)`: no digits are an error, and one leading `+` is skipped.
unfoldable pub from_str_radix : List ℕ → Option ℕ
unfolding radix_loop hex_digit
from_str_radix [] = none
from_str_radix (c ∷ []) = radix_loop 0 (c ∷ [])
from_str_radix (c ∷ d ∷ s) = if c == b'+' then radix_loop 0 (d ∷ s) else radix_loop 0 (c ∷ d ∷ s)

abbrev is_separator : ℕ → Bool
is_separator c = c == b':' || c == b'-'

abbrev push : ℕ → List (List ℕ) → List (List ℕ)
push c [] = (c ∷ []) ∷ []
push c (part ∷ parts) = (c ∷ part) ∷ parts

-- `s.split([':', '-'])`
split : List ℕ → List (List ℕ)
split [] = [] ∷ []
split (c ∷ s) = let parts = split s in if is_separator c then [] ∷ parts else push c parts

abbrev cons_ok : {E : Type 0} → ℕ → Result E (List ℕ) → Result E (List ℕ)
cons_ok b (ok bs) = ok (b ∷ bs)
cons_ok b (err e) = err e

-- The loop over the parts; the error is the text that the message shows.
parse_parts : List ℕ → List (List ℕ) → Result (List ℕ) (List ℕ)
parse_parts s [] = ok []
parse_parts s (part ∷ parts) =
    let rest = parse_parts s parts in
    if length part == 2
    then elim (from_str_radix part) [ none ↦ err s | some byte ↦ cons_ok byte rest ]
    else err s

unfoldable pub parse_mac : List ℕ → Result (List ℕ) (List ℕ)
unfolding parse_parts split from_str_radix
parse_mac s = let parts = split s in if length parts == 6 then parse_parts s parts else err s

-- `pkt[pos..pos + src.len()].copy_from_slice(src)`
overlay : List ℕ → List ℕ → List ℕ
overlay [] pkt = pkt
overlay (b ∷ src) [] = []
overlay (b ∷ src) (_ ∷ pkt) = b ∷ overlay src pkt

copy_at : ℕ → List ℕ → List ℕ → List ℕ
unfolding overlay
copy_at zero src pkt = overlay src pkt
copy_at (suc pos) src [] = []
copy_at (suc pos) src (b ∷ pkt) = b ∷ copy_at pos src pkt

-- The loop over `0..16`, from round `i` on.
fill : ℕ → ℕ → List ℕ → List ℕ → List ℕ
unfolding copy_at
fill zero i mac pkt = pkt
fill (suc rounds) i mac pkt = fill rounds (i + 1) mac (copy_at (6 + i * 6) mac pkt)

unfoldable pub magic_packet : List ℕ → List ℕ
unfolding fill
magic_packet mac = fill 16 0 mac (replicate 102 0xff)

abbrev pub send_failed : IoError → AtvError
send_failed e = because protocol_error "wake-on-lan send failed: " e.text

module _ (env : Env) where
  unfoldable pub send_magic_packet : List ℕ → Exec World AtvError (Unit {0})
  send_magic_packet mac = do
    map_err send_failed (lift env.udp_bind)
    map_err send_failed (lift env.udp_set_broadcast)
    map_err send_failed (lift env.udp_send_to)
    note (broadcast "255.255.255.255" 9 (magic_packet mac))
