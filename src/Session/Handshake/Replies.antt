-- ===== src/Session/Handshake/Replies.antt =====
-- What `SessionHandshake::handle` answers.
use mathlib.Core.Logic.{◌≢◌}
use atv.Base.{
  ℕ, ◌^◌, ◌<◌, ◌≡◌, Option, none, some, length, Bool-cases, Option-cases, inl, inr, is_some, arith,
}
use atv.Base.Exec.{Result, ok, err}
use atv.Error.{AtvError}
use atv.Stream.{Codec}
use atv.Proto.Remote.{RemoteMessage}
use atv.Session.Handshake.{
  SessionHandshake, handle, power_key_message, configure_message, set_active_message, ping_response,
}

-- The three messages that answer the TV.
pub data IsReply : RemoteMessage → Type 0 where
  configure : (code1 : ℕ) → IsReply (configure_message code1)
  set_active : (active : ℕ) → IsReply (set_active_message active)
  pong : (val1 : ℕ) → IsReply (ping_response val1)

-- What an answer of `handle` may be.
abbrev pub Answers : Result AtvError (Option RemoteMessage) → Type 0
Answers (ok (some reply)) = IsReply reply
Answers (ok none) = Unit
Answers (err e) = Unit

pub handle-Answers : (hs : SessionHandshake) (msg : RemoteMessage) → Answers (handle hs msg).0
unfolding handle
handle-Answers hs msg = elim (Option-cases msg.remote_configure) [
  | inr (c, e) ↦ rw (e, handle) (configure _)
  | inl e ↦ elim (Bool-cases (is_some msg.remote_set_active)) [
    | inl a ↦ rw (e, a, handle) (set_active _)
    | inr a ↦ elim (Option-cases msg.remote_ping_request) [
      | inr (p, f) ↦ rw (e, a, f, handle) (pong _)
      | inl f ↦ elim (Option-cases msg.remote_start) [
        | inr (s, g) ↦ rw (e, a, f, g, handle) tt
        | inl g ↦ elim (Bool-cases (is_some msg.remote_error)) [
          | inl r ↦ rw (e, a, f, g, r, handle) tt
          | inr r ↦ rw (e, a, f, g, r, handle) tt
        ]
      ]
    ]
  ]
]

pub IsReply-ne-power_key_message : {m : RemoteMessage} → IsReply m → m ≢ power_key_message
unfolding power_key_message
IsReply-ne-power_key_message (configure c) e = ground arith
IsReply-ne-power_key_message (set_active a) e = ground arith
IsReply-ne-power_key_message (pong v) e = ground arith

-- What the code relies on in the generated codec: its own messages decode to themselves, and a
-- `Vec<u8>` has a length that a u64 can hold.
pub record IsRemoteCodec (c : Codec RemoteMessage) : Type 0 where
  pub reply_decodes : (m : RemoteMessage) → IsReply m → c.decode (c.encode m) ≡ ok m
  pub reply_fits : (m : RemoteMessage) → IsReply m → length (c.encode m) < 2 ^ 64
  pub key_decodes : c.decode (c.encode power_key_message) ≡ ok power_key_message
  pub key_fits : length (c.encode power_key_message) < 2 ^ 64
