-- ===== src/Session/Power/Kinds.antt =====
-- How reading the power state, and pressing the power key, fail.
use atv.Base.{
  ℕ, zero, suc, ◌+◌, ◌≡◌, refl, ◌⊎◌, inl, inr, Bool, true, false, ◌||◌, Option, none, some, ltb,
  Option-cases,
}
use atv.Base.Exec.{Exec, Result, ok, err, pure, lift, map_err, attempt, ◌>>=◌, ◌>>◌}
use atv.Base.Ends.{Ends, Ends-bind, Ends-mono, Ends-map_err}
use atv.Base.Only.{
  Only, Only-pure, Only-lift, Only-elim, Only-result, Only-bind, Only-map_err, Only-attempt,
}
use atv.Error.{AtvError, auth_rejected}
use atv.Proto.Remote.{RemoteMessage}
use atv.World.{Env, World, IpAddr, sleep, note, read_timeout, instant_now}
use atv.World.Conn.{Conn, reader}
use atv.World.Effects.{conn_read-Keeps}
use atv.Framing.Effects.{read_message-Keeps}
use atv.Session.Handshake.{SessionHandshake, new, handle, map_session_read_error, power_key_message}
use atv.Session.Handshake.Kinds.{IsProtocol, handle-Errs, map_session_read_error-IsProtocol}
use atv.Session.Power.{
  PowerAttempt, receive, send, send_reply, read_round, read_power_loop, answer, await_round,
  await_power, press, press_power_once, retry, key_failed, pressed, key_inject_grace,
  power_on_retry_backoff, should_retry_power_on,
}

module _ (env : Env) where
  send_reply-Only :
      (conn : Conn) (reply : Option RemoteMessage) → Only IsProtocol (send_reply env conn reply)
  unfolding send_reply
  send_reply-Only conn none = Only-pure IsProtocol tt
  send_reply-Only conn (some m) = Only-map_err IsProtocol _ (send env conn m) (λ _. refl)

  -- What follows the message of a round.
  abbrev rest_of_round :
      Conn → SessionHandshake → RemoteMessage → Exec World AtvError SessionHandshake
  rest_of_round conn hs msg = do
    reply ← lift (handle hs msg).0
    send_reply env conn reply
    pure (handle hs msg).1

  rest_of_round-Only :
      (conn : Conn) (hs : SessionHandshake) (msg : RemoteMessage)
      → Only IsProtocol (rest_of_round conn hs msg)
  rest_of_round-Only conn hs msg =
      Only-bind IsProtocol (lift (handle hs msg).0) _
        (Only-lift IsProtocol (handle hs msg).0 (handle-Errs hs msg))
        λ reply.
          Only-bind IsProtocol (send_reply env conn reply) _ (send_reply-Only conn reply)
            λ _. Only-pure IsProtocol _

  -- Behind the first message all errors are protocol errors.
  read_power_loop-Only :
      (fuel : ℕ) (conn : Conn) (hs : SessionHandshake)
      → Only IsProtocol (read_power_loop env fuel conn hs true)
  unfolding read_power_loop read_round
  read_power_loop-Only zero conn hs = record { at = λ w. tt }
  read_power_loop-Only (suc fuel) conn hs = elim (Option-cases hs.power) [
    | inr (power, e) ↦ rw (e, read_power_loop) (Only-pure IsProtocol _)
    | inl e ↦
        rw (e, read_power_loop)
          (Only-bind IsProtocol (read_round env conn hs true) _
            (Only-bind IsProtocol (map_err (λ x. map_session_read_error x true) (receive env conn))
              _ (Only-map_err IsProtocol _ (receive env conn) map_session_read_error-IsProtocol)
              (rest_of_round-Only conn hs))
            λ hs'. read_power_loop-Only fuel conn hs')
  ]

  -- The certificate is rejected, and nothing was sent; or a protocol error.
  abbrev pub Late : World → AtvError → World → Type 0
  Late w e t = ((e.kind ≡ auth_rejected) × (t.log ≡ w.log)) ⊎ IsProtocol e

  Only-Late :
      {A : Type 0} (m : Exec World AtvError A) (w t : World)
      → Only IsProtocol m
      → Ends (λ _ _. Unit) (Late w) (m t)
  Only-Late m w t p =
      Ends-mono (λ _ _. Unit) (λ _ _. Unit) (λ e _. IsProtocol e) (Late w) (m t) (λ _ _ k. k)
        (λ e _ k. inr k) (p.at t)

  first_read-Late :
      (conn : Conn) (w : World)
      → Ends
          (λ _ _. Unit)
          (Late w)
          (map_err (λ x. map_session_read_error x false) (receive env conn) w)
  unfolding map_session_read_error receive
  first_read-Late conn w =
      Ends-map_err (λ _ _. Unit) (Late w) (λ x. map_session_read_error x false) (receive env conn) w
        (Ends-mono (λ _ t. t.log ≡ w.log) (λ _ _. Unit) (λ _ t. t.log ≡ w.log) _
          (receive env conn w) (λ _ _ _. tt) (λ e t k. inl (refl, k))
          ((read_message-Keeps (reader env conn) (λ t. t.log ≡ w.log)
              (conn_read-Keeps env conn (λ t. t.log ≡ w.log) (λ t h. h)) env.remote).at
            w refl))

  pub read_power_loop-Late :
      (fuel : ℕ) (conn : Conn) (w : World)
      → Ends (λ _ _. Unit) (Late w) (read_power_loop env fuel conn new false w)
  unfolding read_power_loop read_round
  read_power_loop-Late zero conn w = tt
  read_power_loop-Late (suc fuel) conn w =
      Ends-bind (λ _ _. Unit) (λ _ _. Unit) (Late w) (read_round env conn new false) _ w
        (Ends-bind (λ _ _. Unit) (λ _ _. Unit) (Late w)
          (map_err (λ x. map_session_read_error x false) (receive env conn)) _ w
          (first_read-Late conn w)
          λ msg t _. Only-Late (rest_of_round conn new msg) w t (rest_of_round-Only conn new msg))
        λ hs t _.
          Only-Late (read_power_loop env fuel conn hs true) w t (read_power_loop-Only fuel conn hs)

  -- Waiting for the confirmation does not fail.
  module _ (K : AtvError → Type 0) where
    answer-Only :
        (conn : Conn) (r : Result AtvError (Option RemoteMessage)) → Only K (answer env conn r)
    unfolding answer
    answer-Only conn (ok (some reply)) =
        Only-bind K (attempt (send env conn reply)) _ (Only-attempt K (send env conn reply))
          λ _. Only-pure K tt
    answer-Only conn (ok none) = Only-pure K tt
    answer-Only conn (err e) = Only-pure K tt

    await_round-Only :
        (conn : Conn) (hs : SessionHandshake) (want_on : Bool)
        → Only K (await_round env conn hs want_on)
    unfolding await_round
    await_round-Only conn hs want_on =
        Only-bind K (attempt (receive env conn)) _ (Only-attempt K (receive env conn)) λ received.
          Only-result K received _ _
            (λ msg.
              Only-bind K (answer env conn (handle hs msg).0) _ (answer-Only conn (handle hs msg).0)
                λ _. Only-pure K _)
            (λ x. Only-pure K _)

    await_power-Only :
        (fuel : ℕ) (conn : Conn) (hs : SessionHandshake) (want_on : Bool) (deadline : ℕ)
        → Only K (await_power env fuel conn hs want_on deadline)
    unfolding await_power
    await_power-Only zero conn hs want_on deadline = record { at = λ w. tt }
    await_power-Only (suc fuel) conn hs want_on deadline =
        Only-bind K (instant_now env) _ (record { at = λ w. tt })
          λ now.
            Only-elim K (ltb now deadline) _ _
              (Only-bind K (await_round env conn hs want_on) _ (await_round-Only conn hs want_on)
                λ (hs', stop).
                  Only-elim K stop _ _ (Only-pure K hs')
                    (await_power-Only fuel conn hs' want_on deadline))
              (Only-pure K hs)

    -- Nor do the further attempts, whose errors end them.
    pub retry-Only :
        (left fuel : ℕ) (host : IpAddr) (port : ℕ) (want_on : Bool) (last : PowerAttempt)
        → (changed : Bool) → Only K (retry env left fuel host port want_on last changed)
    unfolding retry
    retry-Only zero fuel host port want_on last changed = Only-pure K _
    retry-Only (suc left) fuel host port want_on last changed =
        let once = press_power_once env fuel host port want_on in
        Only-elim K (should_retry_power_on want_on last.observed) _ _
          (Only-bind K (sleep power_on_retry_backoff) _ (record { at = λ w. tt })
            λ _. Only-bind K (attempt once) _ (Only-attempt K once) λ tried.
              Only-result K tried _ _
                (λ next. retry-Only left fuel host port want_on next (changed || next.changed))
                (λ x. Only-pure K (last, changed)))
          (Only-pure K _)

  pub press-Only :
      (fuel : ℕ) (conn : Conn) (hs : SessionHandshake) (want_on : Bool)
      → Only IsProtocol (press env fuel conn hs want_on)
  unfolding press
  press-Only fuel conn hs want_on =
      Only-bind IsProtocol (sleep key_inject_grace) _ (record { at = λ w. tt })
        λ _.
          Only-bind IsProtocol (map_err key_failed (send env conn power_key_message)) _
            (Only-map_err IsProtocol key_failed (send env conn power_key_message) (λ _. refl))
            λ _.
              Only-bind IsProtocol (note (read_timeout 3000)) _ (record { at = λ w. tt })
                λ _.
                  Only-bind IsProtocol (instant_now env) _ (record { at = λ w. tt })
                    λ start.
                      Only-bind IsProtocol
                        (await_power env fuel conn (record hs { power = none }) want_on
                          (start + 5000))
                        _
                        (await_power-Only IsProtocol fuel conn (record hs { power = none }) want_on
                          (start + 5000))
                        λ hs'. Only-pure IsProtocol (pressed want_on hs')
