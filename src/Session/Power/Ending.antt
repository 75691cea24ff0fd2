-- ===== src/Session/Power/Ending.antt =====
-- The commands `on` and `off` come to an end: fuel beyond the longest inbound stream is enough.
use atv.Base.{ℕ, zero, suc, ◌+◌, ◌<◌, ◌≡◌, Bool, false, ◌||◌, none, ◌∷◌, inl, inr, arith}
use atv.Base.Exec.{Exec, pure, ◌>>=◌, stuck, map_err, attempt, Result-cases}
use atv.Base.Halts.{
  Halts-ne-stuck, Halts-elim, Halting, Halting-bind, Halting-map_err, Halting-attempt, Halting-pure,
}
use atv.Error.{AtvError}
use atv.World.{Env, World, IpAddr, slept, read_timeout}
use atv.World.Conn.{Conn}
use atv.Tls.Ending.{credential_dir_from_env-Halting, from_credential_dir-Halting, connect-Halting}
use atv.Session.Handshake.{SessionHandshake, new, power_key_message}
use atv.Session.Power.{
  send, open_session, read_power, await_power, press, press_power_once, retry, set_power,
  needs_power_key, should_retry_power_on, PowerAttempt, key_inject_grace, key_failed, pressed,
  power_on_retry_backoff,
}
use atv.Session.Power.Rounds.{send-Halting}
use atv.Session.Power.Loops.{IsFinite, read_power_loop-Halts, await_power-Halts}

module _ (env : Env) (bound : ℕ) (finite : IsFinite env bound) (fuel : ℕ)
    (enough : bound < fuel) where
  open_session-Halting : (host : IpAddr) (port : ℕ) → Halting (open_session env host port)
  unfolding open_session
  open_session-Halting host port = Halting-bind _ _ (credential_dir_from_env-Halting env) λ dir.
      Halting-bind _ _ (from_credential_dir-Halting env dir)
        λ tls. connect-Halting env host port 5000 tls

  pub read_power-Halting : (host : IpAddr) (port : ℕ) → Halting (read_power env fuel host port)
  unfolding read_power
  read_power-Halting host port = Halting-bind _ _ (open_session-Halting host port) λ conn. record {
    at = λ w.
        read_power_loop-Halts env bound finite fuel conn new false w (omega arith) (omega arith);
  }

  press-Halting :
      (conn : Conn) (hs : SessionHandshake) (want_on : Bool)
      → Halting (press env fuel conn hs want_on)
  unfolding press
  press-Halting conn hs want_on = record {
    at = λ w.
        (Halting-bind (map_err key_failed (send env conn power_key_message)) _
            (Halting-map_err key_failed _ (send-Halting env conn power_key_message))
            λ _. record { at = λ t. (wait (env.now t.readings + 5000)).at (after t) }).at
          (record w { log = slept key_inject_grace ∷ w.log });
  }
    where
      after : World → World
      after t = record t { readings = suc t.readings; log = read_timeout 3000 ∷ t.log }

      wait :
          (deadline : ℕ)
          → Halting (do
            hs' ← await_power env fuel conn (record hs { power = none }) want_on deadline
            pure (pressed want_on hs'))
      wait deadline =
          Halting-bind (await_power env fuel conn (record hs { power = none }) want_on deadline) _
            (record {
              at = λ w.
                  await_power-Halts env bound finite fuel conn (record hs { power = none }) want_on
                    deadline w (omega arith) (omega arith);
            })
            (λ hs'. Halting-pure _)

  press_power_once-Halting :
      (host : IpAddr) (port : ℕ) (want_on : Bool)
      → Halting (press_power_once env fuel host port want_on)
  unfolding press_power_once
  press_power_once-Halting host port want_on =
      Halting-bind _ _ (read_power-Halting host port) λ session. record {
        at = λ t.
            Halts-elim (needs_power_key session.power want_on) _ _ t
              (λ _. (press-Halting session.conn session.handshake want_on).at t) (λ _. tt);
      }

  retry-Halting :
      (left : ℕ) (host : IpAddr) (port : ℕ) (want_on : Bool) (last : PowerAttempt) (changed : Bool)
      → Halting (retry env left fuel host port want_on last changed)
  unfolding retry
  retry-Halting zero host port want_on last changed = record { at = λ w. tt }
  retry-Halting (suc left) host port want_on last changed = record {
    at = λ w.
        Halts-elim (should_retry_power_on want_on last.observed) _ _ w
          (λ _.
            (Halting-bind (attempt once) _
                (Halting-attempt AtvError once (press_power_once-Halting host port want_on))
                λ tried. elim (Result-cases tried) [
                  | inl (next, e) ↦
                      rw e (retry-Halting left host port want_on next (changed || next.changed))
                  | inr (x, e) ↦ rw e (Halting-pure _)
                ]).at
              (record w { log = slept power_on_retry_backoff ∷ w.log }))
          (λ _. tt);
  }
    where
      once : Exec World AtvError PowerAttempt
      once = press_power_once env fuel host port want_on

  pub set_power-Halting :
      (host : IpAddr) (port : ℕ) (want_on : Bool) → Halting (set_power env fuel host port want_on)
  unfolding set_power
  set_power-Halting host port want_on =
      Halting-bind _ _ (press_power_once-Halting host port want_on) λ attempted.
        Halting-bind _ _ (retry-Halting 3 host port want_on attempted attempted.changed)
          λ last. record { at = λ w. tt }

  -- Where no inbound stream is longer than `bound` bytes, any fuel beyond `bound` lets `set_power`
  -- return or fail, whatever the TV sends, the clock shows and the writes do.
  set_power-ends :
      (host : IpAddr) (port : ℕ) (want_on : Bool) (w : World)
      → ¬ (set_power env fuel host port want_on w ≡ stuck)
  set_power-ends host port want_on w = Halts-ne-stuck _ ((set_power-Halting host port want_on).at w)
