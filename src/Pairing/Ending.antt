-- ===== src/Pairing/Ending.antt =====
-- The command `pair` comes to an end with the TV's stream.
use atv.Base.{String, ℕ, zero, suc, ◌+◌, ◌<◌, ◌≡◌, true, Option, none, some, arith}
use atv.Base.Exec.{stuck, map_err, lift}
use atv.Base.Ends.{
  Ends, Ends-bind, Ends-map_err, Ends-mono, Keeps, Keeps-pure, Keeps-lift, Keeps-map_err,
  Keeps-bind,
}
use atv.Base.Halts.{
  Halts, Halts-ne-stuck, Halts-elim, Halts-bind, Halting, Halting-pure, Halting-lift, Halting-bind,
  Halting-map_err,
}
use atv.Framing.{frame, write_message}
use atv.Framing.Effects.{read_message-Halting, read_message-first_byte}
use atv.Proto.Polo.{OuterMessage}
use atv.World.{Env, World, IpAddr, note, eprinted, timestamp}
use atv.World.Conn.{Conn, reader}
use atv.World.Effects.{conn_write-Keeps}
use atv.Tls.{TlsClient, peer_cert_der}
use atv.Tls.Ending.{
  conn_read-Halting, conn_write-Halting, credential_dir_from_env-Halting,
  from_credential_dir-Halting, connect-Halting,
}
use atv.Identity.Ending.{ensure_identity-Halting}
use atv.Session.Power.Loops.{IsFinite, Beyond, byte-Beyond, conn_read-Beyond}
use atv.Pairing.{
  PairingFlow, new, handle, receive, send, send_reply, flow_round, flow_loop, PairOutput, finish,
  pair, no_code, no_ack, io_failed, initial_message, secret_message, clean_code,
}
use atv.Pairing.Secret.{compute_pairing_secret}

module _ (env : Env) (bound : ℕ) (finite : IsFinite env bound) where
  abbrev After : ℕ → World → Type 0
  After p t = Beyond env bound finite p t

  receive-Halting : (conn : Conn) → Halting (receive env conn)
  unfolding receive
  receive-Halting conn =
      read_message-Halting (reader env conn) (conn_read-Halting env conn) env.polo

  receive-After :
      (conn : Conn) (w : World)
      → Ends (λ _ t. After w.position t) (λ _ _. Unit) (receive env conn w)
  unfolding receive
  receive-After conn w =
      read_message-first_byte (reader env conn) (After w.position)
        (conn_read-Beyond env bound finite conn w.position) env.polo w
        (byte-Beyond env bound finite conn w)

  send-Halting : (conn : Conn) (msg : OuterMessage) → Halting (send env conn msg)
  unfolding send write_message
  send-Halting conn msg = conn_write-Halting env conn (frame env.polo msg)

  send-After : (conn : Conn) (msg : OuterMessage) (p : ℕ) → Keeps (After p) (send env conn msg)
  unfolding send write_message
  send-After conn msg p =
      conn_write-Keeps env conn (After p) (frame env.polo msg) (λ w h. h) (λ w h. h)

  send_reply-Halting :
      (conn : Conn) (reply : Option OuterMessage) → Halting (send_reply env conn reply)
  unfolding send_reply
  send_reply-Halting conn none = Halting-pure tt
  send_reply-Halting conn (some reply) = Halting-map_err _ _ (send-Halting conn reply)

  send_reply-After :
      (conn : Conn) (reply : Option OuterMessage) (p : ℕ)
      → Keeps (After p) (send_reply env conn reply)
  unfolding send_reply
  send_reply-After conn none p = Keeps-pure _ tt
  send_reply-After conn (some reply) p = Keeps-map_err _ _ _ (send-After conn reply p)

  flow_round-Halting : (conn : Conn) (flow : PairingFlow) → Halting (flow_round env conn flow)
  unfolding flow_round
  flow_round-Halting conn flow =
      Halting-bind _ _ (Halting-map_err _ _ (receive-Halting conn)) λ msg.
        Halting-bind _ _ (Halting-lift (handle env flow msg).0)
          λ reply. Halting-bind _ _ (send_reply-Halting conn reply) λ _. Halting-pure _

  flow_round-After :
      (conn : Conn) (flow : PairingFlow) (w : World)
      → Ends (λ _ t. After w.position t) (λ _ _. Unit) (flow_round env conn flow w)
  unfolding flow_round
  flow_round-After conn flow w =
      Ends-bind (λ _ t. After w.position t) _ _ (map_err io_failed (receive env conn)) _ w
        (Ends-map_err _ _ io_failed (receive env conn) w (receive-After conn w))
        λ msg t h.
          Ends-mono (λ _ u. After w.position u) (λ _ u. After w.position u)
            (λ _ u. After w.position u) (λ _ _. Unit) _ (λ _ _ q. q) (λ _ _ _. tt)
            ((Keeps-bind (After w.position) _ _ (Keeps-lift _ (handle env flow msg).0) λ reply.
                Keeps-bind (After w.position) _ _ (send_reply-After conn reply w.position)
                  (λ _. Keeps-pure _ (handle env flow msg).1)).at
              t h)

  flow_loop-Halts :
      (fuel : ℕ) (conn : Conn) (flow : PairingFlow) (w : World)
      → 0 < fuel
      → bound < w.position + fuel
      → Halts (flow_loop env fuel conn flow w)
  unfolding flow_loop
  flow_loop-Halts zero conn flow w some_fuel enough = absurd (omega arith)
  flow_loop-Halts (suc fuel) conn flow w some_fuel enough =
      Halts-elim flow.awaiting_code _ _ w (λ _. tt)
        (λ _.
          Halts-bind (λ _ t. After w.position t) (λ _ _. Unit) (flow_round env conn flow) _ w
            (flow_round-After conn flow w) ((flow_round-Halting conn flow).at w)
            λ flow' t h.
              flow_loop-Halts fuel conn flow' t (omega (arith, h.0, h.1)) (omega (arith, h.0, h.1)))

  finish-Halting :
      (host : IpAddr) (tls : TlsClient) (conn : Conn) (flow : PairingFlow)
      → Halting (finish env host tls conn flow)
  unfolding finish
  finish-Halting host tls conn flow =
      Halting-bind (note (eprinted prompt)) _ (record { at = λ w. tt })
        λ _.
          Halting-bind (map_err no_code (lift env.stdin_line)) _
            (Halting-map_err no_code _ (Halting-lift env.stdin_line))
            λ line.
              Halting-bind (lift (peer_cert_der env conn)) _ (Halting-lift (peer_cert_der env conn))
                λ server_der.
                  let result =
                    compute_pairing_secret env tls.client_cert_der server_der (clean_code line) in
                  Halting-bind (lift result) _ (Halting-lift result) λ secret.
                    Halting-bind (map_err io_failed (send env conn (secret_message secret))) _
                      (Halting-map_err io_failed _ (send-Halting conn (secret_message secret)))
                      λ _.
                        Halting-bind (map_err no_ack (receive env conn)) _
                          (Halting-map_err no_ack _ (receive-Halting conn))
                          λ ack.
                            Halting-bind (lift (handle env flow ack).0) _
                              (Halting-lift (handle env flow ack).0)
                              λ reply.
                                Halting-bind (timestamp env) _ (record { at = λ w. tt })
                                  λ at. Halting-pure (done at)
    where
      done : String → PairOutput
      done at = record { timestamp = at; host = host; paired = true }

      prompt : String
      prompt = "Enter the 6-digit code shown on the TV:"

  -- Where no inbound stream is longer than `bound` bytes, any fuel beyond `bound` lets `pair`
  -- return or fail.
  pub pair-ends :
      (fuel : ℕ) (host : IpAddr) (port : ℕ) (w : World)
      → bound < fuel
      → ¬ (pair env fuel host port w ≡ stuck)
  unfolding pair
  pair-ends fuel host port w enough = Halts-ne-stuck _ (whole.at w)
    where
      whole : Halting (pair env fuel host port)
      whole = Halting-bind _ _ (credential_dir_from_env-Halting env) λ dir.
          Halting-bind _ _ (ensure_identity-Halting env dir) λ _.
            Halting-bind _ _ (from_credential_dir-Halting env dir) λ tls.
              Halting-bind _ _ (connect-Halting env host port 5000 tls) λ conn.
                Halting-bind _ _ (Halting-map_err _ _ (send-Halting conn initial_message)) λ _.
                  Halting-bind (flow_loop env fuel conn new) _
                    (record {
                      at = λ t. flow_loop-Halts fuel conn new t (omega arith) (omega arith);
                    })
                    λ flow. finish-Halting host tls conn flow
