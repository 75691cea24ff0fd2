-- ===== src/Pairing/Kinds.antt =====
-- Behind the connection a pairing fails with pairing_failed or protocol_error only.
use atv.Base.{
  ℕ, zero, suc, ◌≡◌, refl, ◌⊎◌, inl, inr, true, not, ◌||◌, Option, none, some, List, ◌==◌, is_some,
  length, Bool-cases, Option-cases,
}
use atv.Base.Exec.{Exec, Result-cases, lift, map_err, pure, ◌>>=◌, ◌>>◌}
use atv.Base.Only.{Only, Only-bind, Only-elim, Only-map_err, Only-lift, Only-pure, Errs, Errs-bind}
use atv.Error.{AtvError, pairing_failed, protocol_error}
use atv.Proto.Polo.{OuterMessage, status_ok}
use atv.World.{Env, World, IpAddr, note, eprinted, timestamp}
use atv.World.Conn.{Conn}
use atv.Tls.{TlsClient, peer_cert_der}
use atv.Pairing.Secret.{
  compute_pairing_secret, checked_secret, rsa_numbers, all_hex, hex_byte, two_at, hashed,
  first_byte,
}
use atv.Pairing.Said.{prompt}
use atv.Pairing.{
  PairingFlow, PairOutput, handle, receive, send, send_reply, flow_round, flow_loop, finish, new,
  io_failed, no_code, no_ack, secret_message, initial_message, clean_code,
}

abbrev pub IsSaid : AtvError → Type 0
IsSaid e = (e.kind ≡ pairing_failed) ⊎ (e.kind ≡ protocol_error)

module _ (env : Env) where
  handle-Errs : (flow : PairingFlow) (msg : OuterMessage) → Errs IsSaid (handle env flow msg).0
  unfolding handle
  handle-Errs flow msg = elim (Bool-cases (not (msg.status == status_ok))) [
    | inl e ↦ rw (e, handle) (inl refl)
    | inr e ↦ elim (Bool-cases (is_some msg.pairing_request_ack)) [
      | inl a ↦ rw (e, a, handle) tt
      | inr a ↦ elim (Bool-cases (is_some msg.options)) [
        | inl b ↦ rw (e, a, b, handle) tt
        | inr b ↦ elim (Bool-cases (is_some msg.configuration_ack)) [
          | inl c ↦ rw (e, a, b, c, handle) tt
          | inr c ↦ elim (Bool-cases (is_some msg.secret_ack)) [
            | inl d ↦ rw (e, a, b, c, d, handle) tt
            | inr d ↦ rw (e, a, b, c, d, handle) (inr refl)
          ]
        ]
      ]
    ]
  ]

  rsa_numbers-Errs : (cert_der : List ℕ) → Errs IsSaid (rsa_numbers env cert_der)
  unfolding rsa_numbers
  rsa_numbers-Errs cert_der = elim (Result-cases (env.rsa_public_key cert_der)) [
    | inr (x, e) ↦ rw (e, rsa_numbers) (inr refl)
    | inl (found, e) ↦ elim (Option-cases found) [
      | inl f ↦ rw (e, f, rsa_numbers) (inr refl)
      | inr (key, f) ↦ rw (e, f, rsa_numbers) tt
    ]
  ]

  checked_secret-Errs :
      (client_cert_der server_cert_der code : List ℕ)
      → Errs IsSaid (checked_secret env client_cert_der server_cert_der code)
  unfolding checked_secret
  checked_secret-Errs client_cert_der server_cert_der code =
      Errs-bind IsSaid (rsa_numbers env client_cert_der) _ (rsa_numbers-Errs client_cert_der)
        λ client.
          Errs-bind IsSaid (rsa_numbers env server_cert_der) _ (rsa_numbers-Errs server_cert_der)
            λ server.
              let digest = env.sha256 (hashed env client server code) in
              elim (Bool-cases (not (first_byte digest == hex_byte (two_at 0 code)))) [
                | inl e ↦ rw e (inl refl)
                | inr e ↦ rw e tt
              ]

  compute_pairing_secret-Errs :
      (client_cert_der server_cert_der code : List ℕ)
      → Errs IsSaid (compute_pairing_secret env client_cert_der server_cert_der code)
  unfolding compute_pairing_secret
  compute_pairing_secret-Errs client_cert_der server_cert_der code =
      elim (Bool-cases (not (length code == 6) || not (all_hex code))) [
        | inl e ↦ rw (e, compute_pairing_secret) (inl refl)
        | inr e ↦
            rw (e, compute_pairing_secret)
              (checked_secret-Errs client_cert_der server_cert_der code)
      ]

  peer_cert_der-Errs : (conn : Conn) → Errs IsSaid (peer_cert_der env conn)
  unfolding peer_cert_der
  peer_cert_der-Errs conn = elim (Option-cases (env.peer_certificate conn.id)) [
    | inl e ↦ rw (e, peer_cert_der) (inr refl)
    | inr (der, e) ↦ rw (e, peer_cert_der) tt
  ]

  send_reply-Only :
      (conn : Conn) (reply : Option OuterMessage) → Only IsSaid (send_reply env conn reply)
  unfolding send_reply
  send_reply-Only conn none = Only-pure IsSaid tt
  send_reply-Only conn (some m) = Only-map_err IsSaid io_failed (send env conn m) (λ _. inr refl)

  flow_round-Only : (conn : Conn) (flow : PairingFlow) → Only IsSaid (flow_round env conn flow)
  unfolding flow_round
  flow_round-Only conn flow =
      Only-bind IsSaid (map_err io_failed (receive env conn)) _
        (Only-map_err IsSaid io_failed (receive env conn) (λ _. inr refl))
        λ msg.
          Only-bind IsSaid (lift (handle env flow msg).0) _
            (Only-lift IsSaid (handle env flow msg).0 (handle-Errs flow msg))
            λ reply.
              Only-bind IsSaid (send_reply env conn reply) _ (send_reply-Only conn reply)
                λ _. Only-pure IsSaid (handle env flow msg).1

  flow_loop-Only :
      (fuel : ℕ) (conn : Conn) (flow : PairingFlow) → Only IsSaid (flow_loop env fuel conn flow)
  unfolding flow_loop
  flow_loop-Only zero conn flow = record { at = λ w. tt }
  flow_loop-Only (suc fuel) conn flow =
      Only-elim IsSaid flow.awaiting_code _ _ (Only-pure IsSaid flow) (
        Only-bind IsSaid (flow_round env conn flow) _ (flow_round-Only conn flow)
          λ flow'. flow_loop-Only fuel conn flow')

  -- What follows the secret.
  abbrev confirmed : IpAddr → Conn → PairingFlow → List ℕ → Exec World AtvError PairOutput
  confirmed host conn flow secret = do
    map_err io_failed (send env conn (secret_message secret))
    ack ← map_err no_ack (receive env conn)
    reply ← lift (handle env flow ack).0
    at ← timestamp env
    pure (record { timestamp = at; host = host; paired = true })

  confirmed-Only :
      (host : IpAddr) (conn : Conn) (flow : PairingFlow) (secret : List ℕ)
      → Only IsSaid (confirmed host conn flow secret)
  confirmed-Only host conn flow secret =
      Only-bind IsSaid (map_err io_failed (send env conn (secret_message secret))) _
        (Only-map_err IsSaid io_failed (send env conn (secret_message secret)) (λ _. inr refl))
        λ _.
          Only-bind IsSaid (map_err no_ack (receive env conn)) _
            (Only-map_err IsSaid no_ack (receive env conn) (λ _. inl refl))
            λ ack.
              Only-bind IsSaid (lift (handle env flow ack).0) _
                (Only-lift IsSaid (handle env flow ack).0 (handle-Errs flow ack))
                λ reply.
                  Only-bind IsSaid (timestamp env) _ (record { at = λ w. tt })
                    λ at. Only-pure IsSaid (record { timestamp = at; host = host; paired = true })

  finish-Only :
      (host : IpAddr) (tls : TlsClient) (conn : Conn) (flow : PairingFlow)
      → Only IsSaid (finish env host tls conn flow)
  unfolding finish
  finish-Only host tls conn flow =
      Only-bind IsSaid (note (eprinted prompt)) _ (record { at = λ w. tt })
        λ _.
          Only-bind IsSaid (map_err no_code (lift env.stdin_line)) _
            (Only-map_err IsSaid no_code (lift env.stdin_line) (λ _. inl refl))
            λ line.
              Only-bind IsSaid (lift (peer_cert_der env conn)) _
                (Only-lift IsSaid (peer_cert_der env conn) (peer_cert_der-Errs conn))
                λ server_der.
                  let result =
                    compute_pairing_secret env tls.client_cert_der server_der (clean_code line) in
                  Only-bind IsSaid (lift result) _
                    (Only-lift IsSaid result (
                      compute_pairing_secret-Errs tls.client_cert_der server_der (clean_code line)))
                    λ secret. confirmed-Only host conn flow secret

  pub opened-Only :
      (fuel : ℕ) (host : IpAddr) (tls : TlsClient) (conn : Conn)
      → Only IsSaid (
          map_err io_failed (send env conn initial_message)
          >> (flow_loop env fuel conn new >>= λ flow. finish env host tls conn flow))
  opened-Only fuel host tls conn =
      Only-bind IsSaid (map_err io_failed (send env conn initial_message)) _
        (Only-map_err IsSaid io_failed (send env conn initial_message) (λ _. inr refl))
        λ _.
          Only-bind IsSaid (flow_loop env fuel conn new) _ (flow_loop-Only fuel conn new)
            λ flow. finish-Only host tls conn flow
