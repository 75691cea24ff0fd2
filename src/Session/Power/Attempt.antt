-- ===== src/Session/Power/Attempt.antt =====
-- What one attempt at switching reports, against what it did.
use atv.Base.{ap, ℕ, suc, ◌+◌, ◌≡◌, refl, Bool, true, false, none, some, ◌∷◌, arith}
use atv.Base.Exec.{map_err, Run}
use atv.Base.Ends.{Ends, Ends-elim, Ends-bind, Ends-map_err, Ends-mono}
use atv.Error.{AtvError}
use atv.World.{Env, World, IpAddr, read_timeout}
use atv.World.Conn.{Conn}
use atv.Config.{credential_dir_from_env}
use atv.Tls.{from_credential_dir}
use atv.Tls.Effects.{credential_dir_from_env-Keeps, from_credential_dir-Keeps, connect-Ends}
use atv.Session.Handshake.{SessionHandshake, new, power_key_message}
use atv.Session.Handshake.Replies.{IsRemoteCodec}
use atv.Session.Power.{
  PowerAttempt, send, open_session, read_power, await_power, press, press_power_once,
  needs_power_key, key_failed,
}
use atv.Session.Power.Count.{Stands, send-press, read_power_loop-Keeps, await_power-Waits}

-- The power keys of an attempt.
abbrev pub tally : Bool → ℕ → ℕ
tally true n = suc n
tally false n = n

-- What an attempt reports: without a press the TV was seen in the wanted state, and with one the
-- state to report is the one seen, or else the wanted one.
abbrev pub Reports : Bool → PowerAttempt → Type 0
Reports want_on a =
    (a.changed ≡ false → a.observed ≡ some want_on)
    × (a.resulting ≡ (elim a.observed [ some seen ↦ seen | none ↦ want_on ]))

module _ (env : Env) where
  -- Opening a session presses nothing, and tries one connection at most.
  open_session-Stands :
      (n c : ℕ) (host : IpAddr) (port : ℕ) (w : World)
      → Stands env n c w
      → Ends
          (λ _ t. Stands env n (suc c) t)
          (λ _ t. Stands env n (suc c) t)
          (open_session env host port w)
  unfolding open_session credential_dir_from_env
  open_session-Stands n c host port w h =
      Ends-bind (λ _ t. Stands env n c t) _ _ (credential_dir_from_env env) _ w
        (widen _ ((credential_dir_from_env-Keeps env (Stands env n c)).at w h))
        λ dir t k.
          Ends-bind (λ _ t. Stands env n c t) _ _ (from_credential_dir env dir) _ t
            (widen _ ((from_credential_dir-Keeps env (Stands env n c) dir).at t k))
            λ client u l.
              connect-Ends env (Stands env n c) (Stands env n (suc c)) host port 5000
                (λ v m. (m.0, omega arith)) client u l
    where
      widen :
          {A : Type 0} (r : Run World AtvError A)
          → Ends (λ _ t. Stands env n c t) (λ _ t. Stands env n c t) r
          → Ends (λ _ t. Stands env n c t) (λ _ t. Stands env n (suc c) t) r
      widen r k = Ends-mono _ _ _ _ r (λ a t q. q) (λ e t q. (q.0, omega arith)) k

  pub read_power-Stands :
      (L : IsRemoteCodec env.remote)
      → (n c fuel : ℕ) (host : IpAddr) (port : ℕ) (w : World) → Stands env n c w
      → Ends
          (λ _ t. Stands env n (suc c) t)
          (λ _ t. Stands env n (suc c) t)
          (read_power env fuel host port w)
  unfolding read_power
  read_power-Stands L n c fuel host port w h =
      Ends-bind (λ _ t. Stands env n (suc c) t) _ _ (open_session env host port) _ w
        (open_session-Stands n c host port w h)
        λ conn t k. (read_power_loop-Keeps env L n (suc c) fuel conn new false).at t k

  needless : (seen want_on : Bool) → needs_power_key seen want_on ≡ false → seen ≡ want_on
  unfolding needs_power_key
  needless true true e = refl
  needless true false e = cc
  needless false true e = cc
  needless false false e = refl

  abbrev pub Attempted : Bool → ℕ → ℕ → PowerAttempt → World → Type 0
  Attempted want_on n c a t = Reports want_on a × Stands env (tally a.changed n) c t

  module _ (L : IsRemoteCodec env.remote) where
    press-Stands :
        (n c fuel : ℕ) (conn : Conn) (hs : SessionHandshake) (want_on : Bool) (w : World)
        → Stands env n c w
        → Ends (Attempted want_on n c) (λ _ t. Stands env n c t) (press env fuel conn hs want_on w)
    unfolding press
    press-Stands n c fuel conn hs want_on w h =
        let sending = send env conn power_key_message in
        Ends-bind (λ _ t. Stands env (suc n) c t) _ _ (map_err key_failed sending) _ _
          (Ends-map_err _ _ key_failed sending _ (send-press env L n c conn _ h))
          λ _ t k.
            let fresh = record hs { power = none } in
            let u = record t { readings = suc t.readings; log = read_timeout 3000 ∷ t.log } in
            let deadline = env.now t.readings + 5000 in
            Ends-bind (λ _ t. Stands env (suc n) c t) _ _
              (await_power env fuel conn fresh want_on deadline) _ u
              (Ends-mono (λ _ t. Stands env (suc n) c t) (λ _ t. Stands env (suc n) c t) (λ _ _. ⊥)
                _ (await_power env fuel conn fresh want_on deadline u) (λ _ _ q. q)
                (λ _ _ q. absurd q)
                (await_power-Waits env L (suc n) c fuel conn fresh want_on deadline u k))
              λ hs' v q. (((λ e. cc), refl), q)

    pub press_power_once-Stands :
        (n c fuel : ℕ) (host : IpAddr) (port : ℕ) (want_on : Bool) (w : World)
        → Stands env n c w
        → Ends
            (Attempted want_on n (suc c))
            (λ _ t. Stands env n (suc c) t)
            (press_power_once env fuel host port want_on w)
    unfolding press_power_once
    press_power_once-Stands n c fuel host port want_on w h =
        Ends-bind (λ _ t. Stands env n (suc c) t) _ _ (read_power env fuel host port) _ w
          (read_power-Stands L n c fuel host port w h)
          λ session t k.
            Ends-elim (Attempted want_on n (suc c)) (λ _ u. Stands env n (suc c) u)
              (needs_power_key session.power want_on) _ _ t
              (λ _. press-Stands n (suc c) fuel session.conn session.handshake want_on t k)
              (λ e. (((λ _. ap some (needless session.power want_on e)), refl), k))
