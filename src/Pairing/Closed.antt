-- ===== src/Pairing/Closed.antt =====
-- Pairing keeps every predicate that talking to the TV, the prompt and the files leave alone.
use atv.Base.{String, ◌∷◌, ℕ, zero, suc, true, Option, none, some}
use atv.Base.Exec.{Exec, ◌>>=◌, ◌>>◌, map_err, lift}
use atv.Error.{AtvError}
use atv.Base.Ends.{Keeps, Keeps-pure, Keeps-lift, Keeps-map_err, Keeps-bind, Keeps-elim}
use atv.Framing.{frame, write_message}
use atv.Framing.Effects.{read_message-Keeps}
use atv.Proto.Polo.{OuterMessage}
use atv.World.{Env, World, IpAddr, FilePath, note, eprinted, timestamp}
use atv.World.Closed.{IsClosed, IsFree}
use atv.World.Conn.{Conn, reader}
use atv.World.Effects.{conn_read-Keeps, conn_write-Keeps}
use atv.Tls.{TlsClient, peer_cert_der, from_credential_dir, connect}
use atv.Tls.Effects.{credential_dir_from_env-Keeps, from_credential_dir-Keeps, connect-Ends}
use atv.Identity.Closed.{ensure_identity-Keeps}
use atv.Pairing.{
  PairingFlow, new, handle, receive, send, send_reply, flow_round, flow_loop, PairOutput, finish,
  pair, no_code, no_ack, io_failed, initial_message, secret_message, clean_code,
}
use atv.Pairing.Secret.{compute_pairing_secret}

module _ (env : Env) (host : IpAddr) (port : ℕ) where
  -- `pair` from where the credentials are there.
  abbrev pub identified : ℕ → FilePath → Exec World AtvError PairOutput
  identified fuel dir = do
    tls ← from_credential_dir env dir
    conn ← connect env tls host port 5000
    map_err io_failed (send env conn initial_message)
    flow ← flow_loop env fuel conn new
    finish env host tls conn flow

module _ (env : Env) {host : IpAddr} {port : ℕ} (P : World → Type 0) (C : IsClosed host port P)
    (on_eprinted : (w : World) (line : String)
      → P w
      → P (record w { log = eprinted line ∷ w.log })) where
  receive-Keeps : (conn : Conn) → Keeps P (receive env conn)
  unfolding receive
  receive-Keeps conn =
      read_message-Keeps (reader env conn) P (conn_read-Keeps env conn P C.on_read) env.polo

  send-Keeps : (conn : Conn) (msg : OuterMessage) → Keeps P (send env conn msg)
  unfolding send write_message
  send-Keeps conn msg =
      conn_write-Keeps env conn P (frame env.polo msg) C.on_fault (λ w h. C.on_sent w conn.id _ h)

  send_reply-Keeps :
      (conn : Conn) (reply : Option OuterMessage) → Keeps P (send_reply env conn reply)
  unfolding send_reply
  send_reply-Keeps conn none = Keeps-pure P tt
  send_reply-Keeps conn (some reply) = Keeps-map_err P _ _ (send-Keeps conn reply)

  flow_round-Keeps : (conn : Conn) (flow : PairingFlow) → Keeps P (flow_round env conn flow)
  unfolding flow_round
  flow_round-Keeps conn flow = Keeps-bind P _ _ (Keeps-map_err P _ _ (receive-Keeps conn)) λ msg.
      Keeps-bind P _ _ (Keeps-lift P (handle env flow msg).0)
        λ reply. Keeps-bind P _ _ (send_reply-Keeps conn reply) λ _. Keeps-pure P _

  flow_loop-Keeps :
      (fuel : ℕ) (conn : Conn) (flow : PairingFlow) → Keeps P (flow_loop env fuel conn flow)
  unfolding flow_loop
  flow_loop-Keeps zero conn flow = record { at = λ w h. tt }
  flow_loop-Keeps (suc fuel) conn flow =
      Keeps-elim P flow.awaiting_code _ _ (Keeps-pure P flow)
        (Keeps-bind P _ _ (flow_round-Keeps conn flow) λ flow'. flow_loop-Keeps fuel conn flow')

  finish-Keeps :
      (host : IpAddr) (tls : TlsClient) (conn : Conn) (flow : PairingFlow)
      → Keeps P (finish env host tls conn flow)
  unfolding finish
  finish-Keeps host tls conn flow =
      Keeps-bind P (note (eprinted prompt)) _ (record { at = λ w h. on_eprinted w prompt h })
        λ _.
          Keeps-bind P (map_err no_code (lift env.stdin_line)) _
            (Keeps-map_err P no_code _ (Keeps-lift P env.stdin_line))
            λ line.
              Keeps-bind P (lift (peer_cert_der env conn)) _ (Keeps-lift P (peer_cert_der env conn))
                λ server_der.
                  let result =
                    compute_pairing_secret env tls.client_cert_der server_der (clean_code line) in
                  Keeps-bind P (lift result) _ (Keeps-lift P result) λ secret.
                    Keeps-bind P (map_err io_failed (send env conn (secret_message secret))) _
                      (Keeps-map_err P io_failed _ (send-Keeps conn (secret_message secret)))
                      λ _.
                        Keeps-bind P (map_err no_ack (receive env conn)) _
                          (Keeps-map_err P no_ack _ (receive-Keeps conn))
                          λ ack.
                            Keeps-bind P (lift (handle env flow ack).0) _
                              (Keeps-lift P (handle env flow ack).0)
                              λ reply.
                                Keeps-bind P (timestamp env) _ (record { at = C.on_clock })
                                  λ at. Keeps-pure P (done at)
    where
      done : String → PairOutput
      done at = record { timestamp = at; host = host; paired = true }

      prompt : String
      prompt = "Enter the 6-digit code shown on the TV:"

  pub identified-Keeps : (fuel : ℕ) (dir : FilePath) → Keeps P (identified env host port fuel dir)
  identified-Keeps fuel dir = Keeps-bind P _ _ (from_credential_dir-Keeps env P dir) λ tls.
      Keeps-bind P _ _
        (record { at = connect-Ends env P P host port 5000 (λ w h. C.on_connect w 5000 h) tls })
        λ conn. Keeps-bind P _ _ (Keeps-map_err P _ _ (send-Keeps conn initial_message)) λ _.
          Keeps-bind P (flow_loop env fuel conn new) _ (flow_loop-Keeps fuel conn new)
            λ flow. finish-Keeps host tls conn flow

module _ (env : Env) {host : IpAddr} {port : ℕ} (P : World → Type 0) (F : IsFree host port P) where
  pub pair-Keeps : (fuel : ℕ) → Keeps P (pair env fuel host port)
  unfolding pair
  pair-Keeps fuel = Keeps-bind P _ _ (credential_dir_from_env-Keeps env P) λ dir.
      Keeps-bind P _ _ (ensure_identity-Keeps env P F.on_files dir)
        λ _. identified-Keeps env P F.closed F.on_eprinted fuel dir
