-- ===== src/Pairing/Agreed.antt =====
-- A pairing that comes off: the TV goes through the pairing messages, the user types its code, and
-- the TV answers the secret.
use mathlib.Core.Path.{subst}
use atv.Base.{
  ℕ, suc, ◌<◌, ◌≡◌, refl, sym, ap, ◌∙◌, String, Bool, true, false, Option, none, some, List, [],
  ◌∷◌, All,
}
use atv.Base.Exec.{
  Exec, ok, returns, bind-returns, map_err-returns, lift-returns, lift, map_err, pure, ◌>>=◌,
}
use atv.Error.{AtvError}
use atv.Framing.{frame}
use atv.Proto.Polo.{OuterMessage}
use atv.World.{Env, World, FilePath, IpAddr, sent, eprinted}
use atv.World.Conn.{Conn}
use atv.World.Speech.{
  Speaks, behind, moved, Carries, stream, answered, read_message-said, write_message-written,
}
use atv.World.Chat.{IsChat, loop-Chats}
use atv.Config.{credential_dir_from_env}
use atv.Tls.{TlsClient, from_credential_dir, connect, peer_cert_der}
use atv.Identity.{ensure_identity}
use atv.Pairing.{
  PairingFlow, new, handle, receive, send, send_reply, flow_round, flow_loop, finish, pair, no_code,
  no_ack, io_failed, initial_message, options_message, configuration_message, secret_message,
  clean_code,
}
use atv.Pairing.Secret.{compute_pairing_secret}
use atv.Pairing.Said.{prompt}
use atv.Pairing.Spoken.{
  is_shown, IsAck, IsOptions, IsConfigured, IsKnown, handle-IsKnown, opening-Chats,
}

module _ (env : Env) (conn : Conn) (writes : (n : ℕ) → env.write_fault n ≡ none) where
  send-answered :
      (msg : OuterMessage) (w : World)
      → map_err io_failed (send env conn msg) w
        ≡ returns tt (answered env.polo conn.id (some msg) w)
  unfolding send
  send-answered msg w =
      map_err-returns io_failed (send env conn msg) w (answered env.polo conn.id (some msg) w) tt
        (write_message-written env conn env.polo writes msg w)

  send_reply-answered :
      (reply : Option OuterMessage) (w : World)
      → send_reply env conn reply w ≡ returns tt (answered env.polo conn.id reply w)
  unfolding send_reply
  send_reply-answered none w = refl
  send_reply-answered (some msg) w = send-answered msg w

  flow_round-said :
      (flow : PairingFlow) (msg : OuterMessage) (reply : Option OuterMessage) (w : World)
      → Carries env.polo msg
      → Speaks env conn w.position (frame env.polo msg)
      → (handle env flow msg).0 ≡ ok reply
      → flow_round env conn flow w
        ≡ returns
            (handle env flow msg).1
            (answered env.polo conn.id reply (moved w (behind w.position (frame env.polo msg))))
  unfolding flow_round receive
  flow_round-said flow msg reply w c h e =
      let t = moved w (behind w.position (frame env.polo msg)) in
      bind-returns (map_err io_failed (receive env conn)) _ w t msg (
        map_err-returns io_failed (receive env conn) w t msg
          (read_message-said env conn env.polo msg w c h))
      ∙ bind-returns (lift (handle env flow msg).0) _ t t reply
          (lift-returns (handle env flow msg).0 t reply e)
      ∙ bind-returns (send_reply env conn reply) (λ _. pure (handle env flow msg).1) t
          (answered env.polo conn.id reply t) tt (send_reply-answered reply t)

  abbrev branch : ℕ → PairingFlow → Bool → Exec World AtvError PairingFlow
  branch fuel flow true = pure flow
  branch fuel flow false = flow_round env conn flow >>= λ flow'. flow_loop env fuel conn flow'

  flow_loop-IsChat :
      IsChat env conn env.polo is_shown
        (handle env)
        (λ fuel flow _. flow_loop env fuel conn flow)
        (λ flow. flow)
  unfolding flow_loop
  flow_loop-IsChat = record {
    stops = λ fuel flow _ w e. ap (λ b. branch fuel flow b w) e;
    goes_on = λ fuel flow _ msg reply w e f c h.
        ap (λ b. branch fuel flow b w) e
        ∙ bind-returns (flow_round env conn flow) (λ flow'. flow_loop env fuel conn flow') w _
            (handle env flow msg).1 (flow_round-said flow msg reply w c h f);
  }

  -- The end of the command, from the prompt on.
  finish-agreed :
      (host : IpAddr) (tls : TlsClient) (flow : PairingFlow) (line server secret : List ℕ)
      (ack : OuterMessage) (reply : Option OuterMessage) (w : World)
      → env.stdin_line ≡ ok line
      → peer_cert_der env conn ≡ ok server
      → compute_pairing_secret env tls.client_cert_der server (clean_code line) ≡ ok secret
      → Carries env.polo ack
      → Speaks env conn w.position (frame env.polo ack)
      → (handle env flow ack).0 ≡ ok reply
      → (at : String) × (t : World) × (finish env host tls conn flow w
          ≡ returns (record { timestamp = at; host = host; paired = true }) t)
        × (t.log ≡ sent conn.id (frame env.polo (secret_message secret)) ∷ eprinted prompt ∷ w.log)
  unfolding finish receive
  finish-agreed host tls flow line server secret ack reply w typed peer computed c h taken =
      let s = record w { log = eprinted prompt ∷ w.log } in
      let u = answered env.polo conn.id (some (secret_message secret)) s in
      let t = moved u (behind u.position (frame env.polo ack)) in
      (
        env.timestamp t.readings,
        record t { readings = suc t.readings },
        bind-returns (map_err no_code (lift env.stdin_line)) _ s s line (
              map_err-returns no_code (lift env.stdin_line) s s line
                (lift-returns env.stdin_line s line typed))
            ∙ bind-returns (lift (peer_cert_der env conn)) _ s s server
                (lift-returns (peer_cert_der env conn) s server peer)
            ∙ bind-returns
                (lift (compute_pairing_secret env tls.client_cert_der server (clean_code line))) _ s
                s secret (lift-returns _ s secret computed)
            ∙ bind-returns (map_err io_failed (send env conn (secret_message secret))) _ s u tt
                (send-answered (secret_message secret) s)
            ∙ bind-returns (map_err no_ack (receive env conn)) _ u t ack (
                map_err-returns no_ack (receive env conn) u t ack
                  (read_message-said env conn env.polo ack u c h))
            ∙ bind-returns (lift (handle env flow ack).0) _ t t reply
                (lift-returns (handle env flow ack).0 t reply taken),
        refl,
      )

-- What it takes for a pairing: the client's credentials are there or can be made, the TV is reached
-- as `conn` in the world `u` and says the three messages that open a pairing, the user types the
-- code that fits the two certificates, and the TV answers by any message that `PairingFlow` knows.
pub record Agrees (env : Env) (host : IpAddr) (port : ℕ) (w u : World) (conn : Conn)
    (ack offered configured answer : OuterMessage) (secret : List ℕ) : Type 0 where
  pub dir : FilePath
  pub tls : TlsClient
  pub made : World
  pub loaded : World
  pub line : List ℕ
  pub server : List ℕ
  pub finds : credential_dir_from_env env w ≡ returns dir w
  pub makes : ensure_identity env dir w ≡ returns tt made
  pub loads : from_credential_dir env dir made ≡ returns tls loaded
  pub connects : connect env tls host port 5000 loaded ≡ returns conn u
  pub written : (n : ℕ) → env.write_fault n ≡ none
  pub acks : IsAck ack
  pub offers : IsOptions offered
  pub configures : IsConfigured configured
  pub is_known : IsKnown answer
  pub carried : All (Carries env.polo) (ack ∷ offered ∷ configured ∷ [])
  pub spoken : Speaks env conn u.position (stream env.polo (ack ∷ offered ∷ configured ∷ []))
  pub typed : env.stdin_line ≡ ok line
  pub certified : peer_cert_der env conn ≡ ok server
  pub computed : compute_pairing_secret env tls.client_cert_der server (clean_code line) ≡ ok secret
  pub answer_carried : Carries env.polo answer
  pub answer_spoken :
      Speaks env conn
        (behind u.position (stream env.polo (ack ∷ offered ∷ configured ∷ [])))
        (frame env.polo answer)

-- Where all this is so, and whichever of the four messages of status OK that the flow knows answers
-- the secret, fuel beyond three lets `pair` report the pairing. It has sent the request,
-- the options, the configuration and, after the prompt, the secret of the code that was typed, in
-- this order and nothing else.
pub pair-Agrees :
    (env : Env) (fuel : ℕ) (host : IpAddr) (port : ℕ) (w u : World) (conn : Conn)
    (ack offered configured answer : OuterMessage) (secret : List ℕ)
    → Agrees env host port w u conn ack offered configured answer secret
    → 3 < fuel
    → (at : String) × (t : World) × (pair env fuel host port w
        ≡ returns (record { timestamp = at; host = host; paired = true }) t)
      × (t.log
          ≡ sent conn.id (frame env.polo (secret_message secret))
            ∷ eprinted prompt
            ∷ sent conn.id (frame env.polo configuration_message)
            ∷ sent conn.id (frame env.polo options_message)
            ∷ sent conn.id (frame env.polo initial_message)
            ∷ u.log)
unfolding pair
pair-Agrees env fuel host port w u conn ack offered configured answer secret a enough =
    let s = answered env.polo conn.id (some initial_message) u in
    let shown : PairingFlow = record { awaiting_code = true } in
    let msgs : List OuterMessage = ack ∷ offered ∷ configured ∷ [] in
    let (t, looped, log, position, _) =
      loop-Chats env conn env.polo is_shown (handle env)
        (λ fuel flow _. flow_loop env fuel conn flow) (λ flow. flow)
        (flow_loop-IsChat env conn a.written) fuel new shown true msgs
        (some options_message ∷ some configuration_message ∷ none ∷ []) s
        (opening-Chats env ack offered configured a.acks a.offers a.configures) a.carried a.spoken
        enough in
    let (reply, accepted) = handle-IsKnown env shown answer a.is_known in
    let (at, v, finished, rest) =
      finish-agreed env conn a.written host a.tls shown a.line a.server secret answer reply t
        a.typed a.certified a.computed a.answer_carried
        (subst (λ p. Speaks env conn p (frame env.polo answer)) (sym position) a.answer_spoken)
        accepted in
    (
      at,
      v,
      bind-returns (credential_dir_from_env env) _ w w a.dir a.finds
          ∙ bind-returns (ensure_identity env a.dir) _ w a.made tt a.makes
          ∙ bind-returns (from_credential_dir env a.dir) _ a.made a.loaded a.tls a.loads
          ∙ bind-returns (connect env a.tls host port 5000) _ a.loaded u conn a.connects
          ∙ bind-returns (map_err io_failed (send env conn initial_message)) _ u s tt
              (send-answered env conn a.written initial_message u)
          ∙ bind-returns (flow_loop env fuel conn new) _ s t shown looped
          ∙ finished,
      rest
          ∙ ap
              (λ log. sent conn.id (frame env.polo (secret_message secret)) ∷ eprinted prompt ∷ log)
              log,
    )
