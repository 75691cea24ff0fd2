-- ===== src/Pairing/Reveals.antt =====
-- The order in which pairing tells things.
use atv.Base.{
  ℕ, zero, suc, ◌≡◌, refl, ap, String, true, inl, inr, Option, none, some, List, [], ◌∷◌, All,
}
use atv.Base.Exec.{Exec, Result, ok, err, map_err, lift, pure, ◌>>=◌, ◌>>◌}
use atv.Base.Ends.{
  Ends, Ends-bind, Ends-mono, Ends-map_err, Ends-bind_lift, Ends-bind_blame, Keeps, Keeps-pure,
  Keeps-lift, Keeps-map_err, Keeps-bind, Keeps-elim,
}
use atv.Error.{AtvError}
use atv.Framing.{frame}
use atv.Framing.Effects.{read_message-Keeps}
use atv.Proto.Polo.{OuterMessage}
use atv.World.{Env, World, IpAddr, eprinted, timestamp}
use atv.World.Conn.{Conn, reader}
use atv.World.Effects.{conn_read-Keeps}
use atv.Tls.{TlsClient, peer_cert_der, from_credential_dir, connect}
use atv.Tls.Effects.{credential_dir_from_env-Keeps, from_credential_dir-Keeps, connect-Ends}
use atv.Config.{credential_dir_from_env}
use atv.Identity.{ensure_identity}
use atv.Identity.Closed.{ensure_identity-Keeps}
use atv.Pairing.{
  PairingFlow, new, handle, receive, send, send_reply, flow_round, flow_loop, PairOutput, finish,
  pair, no_code, no_ack, io_failed, initial_message, secret_message, clean_code,
}
use atv.Pairing.Secret.{compute_pairing_secret}
use atv.Pairing.Said.{
  Said, wrote, asked, said, IsOpening, opens, prompt, Reply, handle-Replies, with_frames, Opening,
  Asked, Revealed, Failed, send-Ends,
}

abbrev done : IpAddr → String → PairOutput
done host at = record { timestamp = at; host = host; paired = true }

module _ (env : Env) where
  module _ (before : List Said) where
    receive-Keeps :
        (P : World → Type 0)
        → ((w : World) → P w → P (record w { position = suc w.position }))
        → (conn : Conn) → Keeps P (receive env conn)
    unfolding receive
    receive-Keeps P moves conn =
        read_message-Keeps (reader env conn) P (conn_read-Keeps env conn P moves) env.polo

    send-Opening :
        (conn : Conn) (msg : OuterMessage)
        → IsOpening msg
        → Keeps (Opening env before) (send env conn msg)
    send-Opening conn msg o = record {
      at =
          send-Ends env before (Opening env before) (Opening env before) conn msg (λ w h. h)
            λ w (msgs, all, e).
              (msg ∷ msgs, (o, all), ap (λ log. wrote (frame env.polo msg) ∷ log) e);
    }

    answer-Opening :
        (conn : Conn) (r : Result AtvError (Option OuterMessage)) (flow : PairingFlow)
        → Reply r
        → Keeps (Opening env before) (do reply ← lift r; send_reply env conn reply; pure flow)
    unfolding send_reply
    answer-Opening conn (ok none) flow h = Keeps-pure (Opening env before) flow
    answer-Opening conn (ok (some msg)) flow h =
        Keeps-bind (Opening env before) (map_err io_failed (send env conn msg)) (λ _. pure flow)
          (Keeps-map_err (Opening env before) io_failed _ (send-Opening conn msg h))
          (λ _. Keeps-pure (Opening env before) flow)
    answer-Opening conn (err e) flow h = Keeps-lift (Opening env before) (err e)

    flow_round-Opening :
        (conn : Conn) (flow : PairingFlow) → Keeps (Opening env before) (flow_round env conn flow)
    unfolding flow_round
    flow_round-Opening conn flow =
        Keeps-bind (Opening env before) (map_err io_failed (receive env conn)) _
          (Keeps-map_err (Opening env before) io_failed _
            (receive-Keeps (Opening env before) (λ w h. h) conn))
          λ msg.
            answer-Opening conn (handle env flow msg).0 (handle env flow msg).1
              (handle-Replies env flow msg)

    flow_loop-Opening :
        (fuel : ℕ) (conn : Conn) (flow : PairingFlow)
        → Keeps (Opening env before) (flow_loop env fuel conn flow)
    unfolding flow_loop
    flow_loop-Opening zero conn flow = record { at = λ w h. tt }
    flow_loop-Opening (suc fuel) conn flow =
        Keeps-elim (Opening env before) flow.awaiting_code _ _
          (Keeps-pure (Opening env before) flow)
          (Keeps-bind (Opening env before) _ _ (flow_round-Opening conn flow)
            λ flow'. flow_loop-Opening fuel conn flow')

    -- Once the secret was written, nothing more is.
    answered :
        (host : IpAddr) (conn : Conn) (flow : PairingFlow)
        → Keeps (Revealed env before) (do
          ack ← map_err no_ack (receive env conn)
          reply ← lift (handle env flow ack).0
          at ← timestamp env
          pure (done host at))
    answered host conn flow =
        Keeps-bind (Revealed env before) (map_err no_ack (receive env conn)) _
          (Keeps-map_err (Revealed env before) no_ack _
            (receive-Keeps (Revealed env before) (λ w h. h) conn))
          λ ack.
            Keeps-bind (Revealed env before) (lift (handle env flow ack).0) _
              (Keeps-lift (Revealed env before) (handle env flow ack).0)
              λ reply.
                Keeps-bind (Revealed env before) (timestamp env) _ (record { at = λ w h. h })
                  λ at. Keeps-pure (Revealed env before) (done host at)

    reveal :
        (host : IpAddr) (conn : Conn) (flow : PairingFlow) (s : World) (msgs : List OuterMessage)
        → All IsOpening msgs
        → said s.log ≡ asked prompt ∷ with_frames env msgs before
        → (line client server secret : List ℕ) → env.stdin_line ≡ ok line
        → compute_pairing_secret env client server (clean_code line) ≡ ok secret
        → Ends
            (λ _ t. Revealed env before t)
            (Failed env before)
            ((map_err io_failed (send env conn (secret_message secret)) >> do
              ack ← map_err no_ack (receive env conn)
              reply ← lift (handle env flow ack).0
              at ← timestamp env
              pure (done host at))
              s)
    reveal host conn flow s msgs all e line client server secret typed computed =
        let told = send env conn (secret_message secret) in
        let P : World → Type 0 = λ t. said t.log ≡ asked prompt ∷ with_frames env msgs before in
        Ends-bind (λ _ t. Revealed env before t) (λ _ t. Revealed env before t) (Failed env before)
          (map_err io_failed told) _ s
          (Ends-map_err (λ _ t. Revealed env before t) (Failed env before) io_failed told s
            (Ends-mono (λ _ t. Revealed env before t) (λ _ t. Revealed env before t) (λ _ t. P t)
              (λ x t. (Failed env before) (io_failed x) t) (told s) (λ _ t k. k)
              (λ x t k. inr (inl (msgs, all, k)))
              (send-Ends env before P (Revealed env before) conn (secret_message secret) (λ w h. h)
                (λ w h. (
                  msgs,
                  all,
                  (
                    line,
                    client,
                    server,
                    secret,
                    typed,
                    computed,
                    ap (λ log. wrote (frame env.polo (secret_message secret)) ∷ log) h,
                  ),
                ))
                s e)))
          λ _ t k.
            Ends-mono (λ _ u. Revealed env before u) (λ _ u. Revealed env before u)
              (λ _ u. Revealed env before u) (Failed env before) _ (λ _ u h. h)
              (λ x u h. inr (inr h)) ((answered host conn flow).at t k)

    finish-Reveals :
        (host : IpAddr) (tls : TlsClient) (conn : Conn) (flow : PairingFlow) (w : World)
        → Opening env before w
        → Ends (λ _ t. Revealed env before t) (Failed env before) (finish env host tls conn flow w)
    unfolding finish
    finish-Reveals host tls conn flow w (msgs, all, e) =
        let s = record w { log = eprinted prompt ∷ w.log } in
        let here : Asked env before s = (msgs, all, ap (λ log. asked prompt ∷ log) e) in
        let client = tls.client_cert_der in
        Ends-bind_blame (λ _ t. Revealed env before t) (Failed env before) no_code env.stdin_line _
          s
          (λ line typed.
            Ends-bind_lift (λ _ t. Revealed env before t) (Failed env before)
              (peer_cert_der env conn) _ s
              (λ server _.
                Ends-bind_lift (λ _ t. Revealed env before t) (Failed env before)
                  (compute_pairing_secret env client server (clean_code line)) _ s
                  (λ secret computed.
                    reveal host conn flow s msgs all (ap (λ log. asked prompt ∷ log) e) line client
                      server secret typed computed)
                  (λ x _. inr (inl here)))
              (λ x _. inr (inl here)))
          (λ x _. inr (inl here))

    opening :
        {A : Type 0} (m : Exec World AtvError A) (f : A → Exec World AtvError PairOutput)
        (w : World)
        → Keeps (Opening env before) m
        → Opening env before w
        → ((a : A) (t : World)
            → Opening env before t
            → Ends (λ _ u. Revealed env before u) (Failed env before) (f a t))
        → Ends (λ _ t. Revealed env before t) (Failed env before) ((m >>= f) w)
    opening m f w kept h rest =
        Ends-bind (λ _ t. Opening env before t) (λ _ t. Revealed env before t) (Failed env before) m
          f w
          (Ends-mono (λ _ t. Opening env before t) (λ _ t. Opening env before t)
            (λ _ t. Opening env before t) (Failed env before) (m w) (λ a t k. k) (λ e t k. inl k)
            (kept.at w h))
          rest

  -- Before the user is asked for the code, `pair` writes nothing to the TV but the three fixed
  -- messages that open a pairing. Where it returns, it has then asked and written one more message,
  -- the secret of the code that was typed; and where it fails, it has got to some point of this.
  pub pair-Reveals :
      (fuel : ℕ) (host : IpAddr) (port : ℕ) (w : World)
      → Ends
          (λ _ t. Revealed env (said w.log) t)
          (Failed env (said w.log))
          (pair env fuel host port w)
  unfolding pair
  pair-Reveals fuel host port w =
      let P : World → Type 0 = Opening env (said w.log) in
      opening (said w.log) (credential_dir_from_env env) _ w (credential_dir_from_env-Keeps env P)
        ([], tt, refl)
        λ dir t h.
          opening (said w.log) (ensure_identity env dir) _ t
            (ensure_identity-Keeps env P (λ _ _ k. k) dir) h
            λ _ t h.
              opening (said w.log) (from_credential_dir env dir) _ t
                (from_credential_dir-Keeps env P dir) h
                λ tls t h.
                  opening (said w.log) (connect env tls host port 5000) _ t
                    (record { at = connect-Ends env P P host port 5000 (λ _ k. k) tls }) h
                    λ conn t h.
                      opening (said w.log) (map_err io_failed (send env conn initial_message)) _ t
                        (Keeps-map_err P io_failed _
                          (send-Opening (said w.log) conn initial_message opens))
                        h
                        λ _ t h.
                          opening (said w.log) (flow_loop env fuel conn new) _ t
                            (flow_loop-Opening (said w.log) fuel conn new) h
                            λ flow t h. finish-Reveals (said w.log) host tls conn flow t h
