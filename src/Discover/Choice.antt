-- ===== src/Discover/Choice.antt =====
-- The address that a device is listed under.
use mathlib.Core.Path.{subst}
use atv.Base.{
  ◌≡◌, refl, sym, ◌⊎◌, inl, inr, Bool, true, false, Option, none, some, List, [], ◌∷◌, All,
  if◌then◌else◌, Bool-cases, Option-cases,
}
use atv.World.{Address}
use atv.Discover.{find_ipv4, first_address, choose_address}

abbrev IsIpv4 : Address → Type 0
IsIpv4 a = a.is_ipv4 ≡ true

abbrev IsIpv6 : Address → Type 0
IsIpv6 a = a.is_ipv4 ≡ false

-- `a` stands in the list, and every address before it is an IPv6 one.
abbrev First : Address → List Address → Type 0
First a [] = ⊥
First a (b ∷ rest) = (a ≡ b) ⊎ (IsIpv6 b × First a rest)

abbrev pub Chosen : List Address → Option Address → Type 0
Chosen addrs none = addrs ≡ []
Chosen addrs (some a) =
    (IsIpv4 a × First a addrs) ⊎ (All IsIpv6 addrs × (first_address addrs ≡ some a))

abbrev Found : List Address → Option Address → Type 0
Found addrs none = All IsIpv6 addrs
Found addrs (some a) = IsIpv4 a × First a addrs

Found-skip :
    (b : Address) (rest : List Address) (r : Option Address)
    → IsIpv6 b
    → Found rest r
    → Found (b ∷ rest) r
Found-skip b rest none e h = (e, h)
Found-skip b rest (some a) e h = (h.0, inr (e, h.1))

abbrev Tried : Address → List Address → Bool → Type 0
Tried b rest c = Found (b ∷ rest) (if c then some b else find_ipv4 rest)

find_ipv4-Found : (addrs : List Address) → Found addrs (find_ipv4 addrs)
unfolding find_ipv4
find_ipv4-Found [] = tt
find_ipv4-Found (b ∷ rest) = elim (Bool-cases b.is_ipv4) [
  | inl e ↦ subst (Tried b rest) (sym e) (e, inl refl)
  | inr e ↦
      subst (Tried b rest) (sym e) (Found-skip b rest (find_ipv4 rest) e (find_ipv4-Found rest))
]

first-Chosen : (addrs : List Address) → All IsIpv6 addrs → Chosen addrs (first_address addrs)
first-Chosen [] h = refl
first-Chosen (a ∷ rest) h = inr (h, refl)

-- A device is listed under its first IPv4 address, where it has none under its first address, and
-- it is left out just where it has no address.
pub choose_address-Chosen : (addrs : List Address) → Chosen addrs (choose_address addrs)
unfolding choose_address
choose_address-Chosen addrs = elim (Option-cases (find_ipv4 addrs)) [
  | inl e ↦
      rw (choose_address, e) (first-Chosen addrs (subst (Found addrs) e (find_ipv4-Found addrs)))
  | inr (a, e) ↦ rw (choose_address, e) (inl (subst (Found addrs) e (find_ipv4-Found addrs)))
]
