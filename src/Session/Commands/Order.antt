-- ===== src/Session/Commands/Order.antt =====
-- What `key` does to the TV, in which order.
use atv.Base.{ℕ, ◌≡◌, refl, ap, ◌∙◌, Bool, true, false, List, [], ◌∷◌, map, Option-cases, inl, inr}
use atv.Base.Exec.{returns, fails, ◌>>◌}
use atv.Base.Ends.{Ends, Ends-bind, Ends-map_err, Ends-mono, Ends-self}
use atv.Error.{AtvError}
use atv.Framing.{frame, write_message}
use atv.World.{Env, World, Event, IpAddr, sent, slept}
use atv.World.Conn.{Conn, conn_write}
use atv.Session.Handshake.{key_message, keycode_name}
use atv.Session.Power.{Session, send, key_inject_grace, read_power}
use atv.Session.Commands.{KeysOutput, send_key, send_all, send_keys, key_interval, send_settle}

module _ (env : Env) where
  -- The log after the keys: one message for each in the order given, a pause before each but the
  -- first.
  abbrev pub typed : Conn → Bool → List ℕ → List Event → List Event
  typed conn is_first [] log = log
  typed conn true (code ∷ keys) log =
      typed conn false keys (sent conn.id (frame env.remote (key_message code)) ∷ log)
  typed conn false (code ∷ keys) log =
      typed conn false keys
        (sent conn.id (frame env.remote (key_message code)) ∷ slept key_interval ∷ log)

  abbrev Any : AtvError → World → Type 0
  Any e t = Unit

  conn_write-written :
      (conn : Conn) (bytes : List ℕ) (w : World)
      → Ends
          (λ _ t. t.log ≡ sent conn.id bytes ∷ w.log)
          (λ _ _. Unit {0})
          (conn_write env conn bytes w)
  unfolding conn_write
  conn_write-written conn bytes w = elim (Option-cases (env.write_fault w.writes)) [
    | inl e ↦ rw (e, conn_write) refl
    | inr (x, e) ↦ rw (e, conn_write) tt
  ]

  send_key-typed :
      (conn : Conn) (code : ℕ) (w : World)
      → Ends
          (λ _ t. t.log ≡ sent conn.id (frame env.remote (key_message code)) ∷ w.log)
          Any
          (send_key env conn code w)
  unfolding send_key send write_message
  send_key-typed conn code w =
      Ends-map_err (λ _ t. t.log ≡ sent conn.id (frame env.remote (key_message code)) ∷ w.log) Any _
        (send env conn (key_message code)) w
        (conn_write-written conn (frame env.remote (key_message code)) w)

  then_typed :
      (conn : Conn) (code : ℕ) (keys : List ℕ) (w : World)
      → ((t : World)
          → Ends (λ _ u. u.log ≡ typed conn false keys t.log) Any (send_all env conn false keys t))
      → Ends
          (λ _ t. t.log ≡ typed conn true (code ∷ keys) w.log)
          Any
          ((send_key env conn code >> send_all env conn false keys) w)
  then_typed conn code keys w rest =
      Ends-bind (λ _ t. t.log ≡ sent conn.id (frame env.remote (key_message code)) ∷ w.log)
        (λ _ t. t.log ≡ typed conn true (code ∷ keys) w.log) Any (send_key env conn code) _ w
        (send_key-typed conn code w)
        λ _ t e.
          Ends-mono (λ _ u. u.log ≡ typed conn false keys t.log)
            (λ _ u. u.log ≡ typed conn true (code ∷ keys) w.log) Any Any
            (send_all env conn false keys t) (λ _ u f. f ∙ ap (λ log. typed conn false keys log) e)
            (λ x u h. tt) (rest t)

  send_all-typed :
      (conn : Conn) (is_first : Bool) (keys : List ℕ) (w : World)
      → Ends (λ _ t. t.log ≡ typed conn is_first keys w.log) Any (send_all env conn is_first keys w)
  unfolding send_all
  send_all-typed conn is_first [] w = refl
  send_all-typed conn true (code ∷ keys) w =
      then_typed conn code keys w (λ t. send_all-typed conn false keys t)
  send_all-typed conn false (code ∷ keys) w =
      then_typed conn code keys (record w { log = slept key_interval ∷ w.log })
        (λ t. send_all-typed conn false keys t)

  -- What `key` reports and has done, after the TV's power state is read.
  abbrev pub Types : ℕ → IpAddr → ℕ → List ℕ → World → KeysOutput → World → Type 0
  Types fuel host port keys w out t =
      (session : Session) × (u : World) × (read_power env fuel host port w ≡ returns session u)
      × (t.log ≡ slept send_settle ∷ typed session.conn true keys (slept key_inject_grace ∷ u.log))
      × (out.keys ≡ map (keycode_name env) keys)

  -- Where `key` returns, it has read the power state first, and then, after the grace period, has
  -- written one message for each key in the order given, with a pause between two; it reports the
  -- names of just these keys.
  pub send_keys-Types :
      (fuel : ℕ) (host : IpAddr) (port : ℕ) (keys : List ℕ) (w : World)
      → Ends (Types fuel host port keys w) Any (send_keys env fuel host port keys w)
  unfolding send_keys
  send_keys-Types fuel host port keys w =
      let m = read_power env fuel host port in
      Ends-bind (λ session u. m w ≡ returns session u) (Types fuel host port keys w) Any m _ w
        (Ends-mono (λ session u. m w ≡ returns session u) (λ session u. m w ≡ returns session u)
          (λ x u. m w ≡ fails x u) Any (m w) (λ a t h. h) (λ e t h. tt) (Ends-self (m w)))
        λ session u e.
          Ends-bind (λ _ t. t.log ≡ typed session.conn true keys (slept key_inject_grace ∷ u.log))
            (Types fuel host port keys w) Any (send_all env session.conn true keys) _
            (record u { log = slept key_inject_grace ∷ u.log })
            (send_all-typed session.conn true keys
              (record u { log = slept key_inject_grace ∷ u.log }))
            λ _ t f. (session, u, e, ap (λ log. slept send_settle ∷ log) f, refl)
