-- ===== src/Session/Handshake/Features.antt =====
-- The features that the client and the TV agree on.
use atv.Base.{
  ℕ, ◌≤◌, ◌≡◌, ap, ◌∙◌, sym, some, ◌==◌, bit_and, List, [], ◌∷◌, Option-cases, Bool-cases, inl, inr,
  arith,
}
use atv.Base.Bits.{bit_and_assoc, bit_and_comm, bit_and-le, bit_and_self}
use atv.Base.Exec.{ok}
use atv.Proto.Remote.{RemoteMessage, RemoteSetActive}
use atv.Session.Handshake.{SessionHandshake, new, features, handle, intersect}

-- `b` is `a` or a part of it, both within the client's own features.
abbrev pub Narrows : ℕ → ℕ → Type 0
Narrows a b = (bit_and b a ≡ b) × (b ≤ a)

Narrows-refl : (a : ℕ) → Narrows a a
Narrows-refl a = (bit_and_self a, omega arith)

Narrows-intersect : (a c : ℕ) → Narrows a (intersect a c)
unfolding intersect
Narrows-intersect a c = elim (Bool-cases (c == 0)) [
  | inl e ↦ rw (e, intersect) (Narrows-refl a)
  | inr e ↦
      rw (e, intersect)
        (
          bit_and_comm (bit_and a c) a
              ∙ sym (bit_and_assoc a a c)
              ∙ ap (λ (t : ℕ). bit_and t c) (bit_and_self a),
          bit_and-le a c,
        )
]

handle-Narrows :
    (hs : SessionHandshake) (msg : RemoteMessage)
    → Narrows hs.active_features (handle hs msg).1.active_features
unfolding handle
handle-Narrows hs msg = elim (Option-cases msg.remote_configure) [
  | inr (c, e) ↦ rw (e, handle) (Narrows-intersect hs.active_features c.code1)
  | inl e ↦
      let same : (handle hs msg).1.active_features ≡ hs.active_features = ground (arith, e) in
      rw same (Narrows-refl hs.active_features)
]

Narrows-trans : (a b c : ℕ) → Narrows a b → Narrows b c → Narrows a c
Narrows-trans a b c h k = (
  ap (λ (t : ℕ). bit_and t a) (sym k.0)
      ∙ bit_and_assoc c b a
      ∙ ap (λ (t : ℕ). bit_and c t) h.0
      ∙ k.0,
  omega (arith, h.1, k.1),
)

-- The handshake after a list of messages.
abbrev pub after : SessionHandshake → List RemoteMessage → SessionHandshake
after hs [] = hs
after hs (msg ∷ msgs) = after (handle hs msg).1 msgs

after-Narrows :
    (hs : SessionHandshake) (msgs : List RemoteMessage)
    → Narrows hs.active_features (after hs msgs).active_features
after-Narrows hs [] = Narrows-refl hs.active_features
after-Narrows hs (msg ∷ msgs) =
    Narrows-trans hs.active_features (handle hs msg).1.active_features _ (handle-Narrows hs msg)
      (after-Narrows (handle hs msg).1 msgs)

reply_active :
    (hs : SessionHandshake) (msg reply : RemoteMessage) (a : RemoteSetActive)
    → (handle hs msg).0 ≡ ok (some reply)
    → reply.remote_set_active ≡ some a
    → a.active ≡ hs.active_features
unfolding handle
reply_active hs msg reply a e f = ground (arith, e, f)

-- Whatever messages a new session has handled, a `set_active` that it answers names its active
-- features, which are some of those it has offered.
pub set_active-Narrows :
    (msgs : List RemoteMessage) (msg reply : RemoteMessage) (a : RemoteSetActive)
    → (handle (after new msgs) msg).0 ≡ ok (some reply)
    → reply.remote_set_active ≡ some a
    → (a.active ≡ (after new msgs).active_features) × Narrows features a.active
set_active-Narrows msgs msg reply a e f =
    let same = reply_active (after new msgs) msg reply a e f in
    (same, rw same (after-Narrows new msgs))
