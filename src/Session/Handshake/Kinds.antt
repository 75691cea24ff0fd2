-- ===== src/Session/Handshake/Kinds.antt =====
-- The kinds of the errors that the handshake and a read give.
use atv.Base.{◌≡◌, refl, true, Bool-cases, Option-cases, inl, inr, is_some}
use atv.Base.Only.{Errs}
use atv.Error.{AtvError, protocol_error}
use atv.Stream.{IoError}
use atv.Proto.Remote.{RemoteMessage}
use atv.Session.Handshake.{SessionHandshake, handle, is_timeout, map_session_read_error}

abbrev pub IsProtocol : AtvError → Type 0
IsProtocol e = e.kind ≡ protocol_error

pub handle-Errs : (hs : SessionHandshake) (msg : RemoteMessage) → Errs IsProtocol (handle hs msg).0
unfolding handle
handle-Errs hs msg = elim (Option-cases msg.remote_configure) [
  | inr (c, e) ↦ rw (e, handle) tt
  | inl e ↦ elim (Bool-cases (is_some msg.remote_set_active)) [
    | inl a ↦ rw (e, a, handle) tt
    | inr a ↦ elim (Option-cases msg.remote_ping_request) [
      | inr (p, f) ↦ rw (e, a, f, handle) tt
      | inl f ↦ elim (Option-cases msg.remote_start) [
        | inr (s, g) ↦ rw (e, a, f, g, handle) tt
        | inl g ↦ elim (Bool-cases (is_some msg.remote_error)) [
          | inl r ↦ rw (e, a, f, g, r, handle) refl
          | inr r ↦ rw (e, a, f, g, r, handle) tt
        ]
      ]
    ]
  ]
]

-- Behind the first message a failed read is no longer a rejected certificate.
pub map_session_read_error-IsProtocol : (e : IoError) → IsProtocol (map_session_read_error e true)
unfolding map_session_read_error
map_session_read_error-IsProtocol e = elim (Bool-cases (is_timeout e.kind)) [
  | inl h ↦ rw (map_session_read_error, h) refl
  | inr h ↦ rw (map_session_read_error, h) refl
]
