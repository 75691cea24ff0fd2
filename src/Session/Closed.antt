-- ===== src/Session/Closed.antt =====
-- Reading and awaiting the power state keeps every closed predicate.
pub mod Commands
pub mod Waking
use atv.Base.{
  ℕ, zero, suc, ◌≡◌, Bool, true, false, Option, none, some, List, [], ◌∷◌, ltb, Option-cases, inl,
  inr,
}
use atv.Base.Exec.{Result, ok, err, Result-cases}
use atv.Base.Ends.{
  Keeps, Keeps-pure, Keeps-lift, Keeps-bind, Keeps-map_err, Keeps-attempt, Keeps-elim,
}
use atv.Error.{AtvError}
use atv.Framing.{frame, write_message}
use atv.Framing.Effects.{read_message-Keeps}
use atv.World.{Env, World, IpAddr, instant_now}
use atv.World.Conn.{Conn, reader}
use atv.World.Effects.{conn_read-Keeps, conn_write-Keeps}
use atv.Tls.Effects.{credential_dir_from_env-Keeps, from_credential_dir-Keeps, connect-Ends}
use atv.Proto.Remote.{RemoteMessage}
use atv.Session.Handshake.{SessionHandshake, new, handle}
use atv.Session.Power.{
  receive, send, send_reply, read_round, read_power_loop, open_session, read_power, answer,
  await_round, await_power,
}
use atv.World.Closed.{IsClosed}

module _ (env : Env) {host : IpAddr} {port : ℕ} (P : World → Type 0)
    (C : IsClosed host port P) where
  receive-Keeps : (conn : Conn) → Keeps P (receive env conn)
  unfolding receive
  receive-Keeps conn =
      read_message-Keeps (reader env conn) P (conn_read-Keeps env conn P C.on_read) env.remote

  pub send-Keeps : (conn : Conn) (msg : RemoteMessage) → Keeps P (send env conn msg)
  unfolding send write_message
  send-Keeps conn msg =
      conn_write-Keeps env conn P (frame env.remote msg) C.on_fault (λ w h. C.on_sent w conn.id _ h)

  send_reply-Keeps :
      (conn : Conn) (reply : Option RemoteMessage) → Keeps P (send_reply env conn reply)
  unfolding send_reply
  send_reply-Keeps conn none = Keeps-pure _ tt
  send_reply-Keeps conn (some reply) = Keeps-map_err _ _ _ (send-Keeps conn reply)

  read_round-Keeps :
      (conn : Conn) (hs : SessionHandshake) (got_any : Bool)
      → Keeps P (read_round env conn hs got_any)
  unfolding read_round
  read_round-Keeps conn hs got_any =
      Keeps-bind _ _ _ (Keeps-map_err _ _ _ (receive-Keeps conn)) λ msg.
        Keeps-bind _ _ _ (Keeps-lift _ (handle hs msg).0)
          λ reply. Keeps-bind _ _ _ (send_reply-Keeps conn reply) λ _. Keeps-pure _ _

  read_power_loop-Keeps :
      (fuel : ℕ) (conn : Conn) (hs : SessionHandshake) (got_any : Bool)
      → Keeps P (read_power_loop env fuel conn hs got_any)
  unfolding read_power_loop
  read_power_loop-Keeps zero conn hs got_any = record { at = λ w h. tt }
  read_power_loop-Keeps (suc fuel) conn hs got_any = elim (Option-cases hs.power) [
    | inr (power, e) ↦ rw (e, read_power_loop) (Keeps-pure _ _)
    | inl e ↦
        rw (e, read_power_loop)
          (Keeps-bind _ _ _ (read_round-Keeps conn hs got_any)
            λ hs'. read_power_loop-Keeps fuel conn hs' true)
  ]

  open_session-Keeps : Keeps P (open_session env host port)
  unfolding open_session
  open_session-Keeps = Keeps-bind _ _ _ (credential_dir_from_env-Keeps env P) λ dir.
      Keeps-bind _ _ _ (from_credential_dir-Keeps env P dir) λ tls. record {
        at = connect-Ends env P P host port 5000 (λ w h. C.on_connect w 5000 h) tls;
      }

  pub read_power-Keeps : (fuel : ℕ) → Keeps P (read_power env fuel host port)
  unfolding read_power
  read_power-Keeps fuel =
      Keeps-bind _ _ _ open_session-Keeps λ conn. read_power_loop-Keeps fuel conn new false

  answer-Keeps :
      (conn : Conn) (r : Result AtvError (Option RemoteMessage)) → Keeps P (answer env conn r)
  unfolding answer
  answer-Keeps conn (ok (some reply)) =
      Keeps-bind _ _ _ (Keeps-attempt _ _ (send-Keeps conn reply)) λ _. Keeps-pure _ tt
  answer-Keeps conn (ok none) = Keeps-pure _ tt
  answer-Keeps conn (err e) = Keeps-pure _ tt

  await_round-Keeps :
      (conn : Conn) (hs : SessionHandshake) (want_on : Bool)
      → Keeps P (await_round env conn hs want_on)
  unfolding await_round
  await_round-Keeps conn hs want_on =
      Keeps-bind _ _ _ (Keeps-attempt _ _ (receive-Keeps conn)) λ received.
        elim (Result-cases received) [
          | inl (msg, e) ↦
              rw e (Keeps-bind _ _ _ (answer-Keeps conn (handle hs msg).0) λ _. Keeps-pure _ _)
          | inr (x, e) ↦ rw e (Keeps-pure _ _)
        ]

  pub await_power-Keeps :
      (fuel : ℕ) (conn : Conn) (hs : SessionHandshake) (want_on : Bool) (deadline : ℕ)
      → Keeps P (await_power env fuel conn hs want_on deadline)
  unfolding await_power
  await_power-Keeps zero conn hs want_on deadline = record { at = λ w h. tt }
  await_power-Keeps (suc fuel) conn hs want_on deadline =
      Keeps-bind _ (instant_now env) _ (record { at = C.on_clock })
        λ now.
          Keeps-elim _ (ltb now deadline) _ _
            (Keeps-bind _ _ _ (await_round-Keeps conn hs want_on) λ (hs', stop).
              Keeps-elim _ stop _ _ (Keeps-pure _ hs')
                (await_power-Keeps fuel conn hs' want_on deadline))
            (Keeps-pure _ hs)
