-- ===== src/Session/Power/Rounds.antt =====
-- Reading a message and a round of the loops that read from the TV come to an end, whatever the TV
-- sends.
use atv.Base.{Bool, Option, none, some, inl, inr}
use atv.Base.Exec.{Result, ok, err, Result-cases}
use atv.Base.Halts.{
  Halting, Halting-pure, Halting-lift, Halting-bind, Halting-map_err, Halting-attempt,
}
use atv.Error.{AtvError}
use atv.Framing.{frame, write_message}
use atv.Framing.Effects.{read_message-Halting}
use atv.World.{Env}
use atv.World.Conn.{Conn, reader}
use atv.Tls.Ending.{conn_read-Halting, conn_write-Halting}
use atv.Proto.Remote.{RemoteMessage}
use atv.Session.Handshake.{SessionHandshake, handle}
use atv.Session.Power.{receive, send, send_reply, read_round, answer, await_round}

module _ (env : Env) where
  pub receive-Halting : (conn : Conn) → Halting (receive env conn)
  unfolding receive
  receive-Halting conn =
      read_message-Halting (reader env conn) (conn_read-Halting env conn) env.remote

  pub send-Halting : (conn : Conn) (msg : RemoteMessage) → Halting (send env conn msg)
  unfolding send write_message
  send-Halting conn msg = conn_write-Halting env conn (frame env.remote msg)

  send_reply-Halting :
      (conn : Conn) (reply : Option RemoteMessage) → Halting (send_reply env conn reply)
  unfolding send_reply
  send_reply-Halting conn none = Halting-pure tt
  send_reply-Halting conn (some reply) = Halting-map_err _ _ (send-Halting conn reply)

  pub read_round-Halting :
      (conn : Conn) (hs : SessionHandshake) (got_any : Bool)
      → Halting (read_round env conn hs got_any)
  unfolding read_round
  read_round-Halting conn hs got_any =
      Halting-bind _ _ (Halting-map_err _ _ (receive-Halting conn)) λ msg.
        Halting-bind _ _ (Halting-lift (handle hs msg).0)
          λ reply. Halting-bind _ _ (send_reply-Halting conn reply) λ _. Halting-pure _

  answer-Halting :
      (conn : Conn) (r : Result AtvError (Option RemoteMessage)) → Halting (answer env conn r)
  unfolding answer
  answer-Halting conn (ok (some reply)) =
      Halting-bind _ _ (Halting-attempt AtvError _ (send-Halting conn reply)) λ _. Halting-pure tt
  answer-Halting conn (ok none) = Halting-pure tt
  answer-Halting conn (err e) = Halting-pure tt

  pub await_round-Halting :
      (conn : Conn) (hs : SessionHandshake) (want_on : Bool)
      → Halting (await_round env conn hs want_on)
  unfolding await_round
  await_round-Halting conn hs want_on =
      Halting-bind _ _ (Halting-attempt AtvError _ (receive-Halting conn)) λ received.
        elim (Result-cases received) [
          | inl (msg, e) ↦
              rw e (Halting-bind _ _ (answer-Halting conn (handle hs msg).0) λ _. Halting-pure _)
          | inr (x, e) ↦ rw e (Halting-pure _)
        ]
