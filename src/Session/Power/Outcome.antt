-- ===== src/Session/Power/Outcome.antt =====
-- What the commands `on` and `off` report, against what they did.
use atv.Base.{
  if◌then◌else◌, ◌∙◌, ap, ℕ, zero, suc, ◌+◌, ◌≤◌, ◌≡◌, refl, Bool, true, false, ◌||◌, ◌∷◌, ltb,
  arith,
}
use atv.Base.Exec.{attempt, Exec, Result, ok, err, pure}
use atv.Base.Ends.{Ends, Ends-elim, Ends-bind, Ends-attempt, Ends-mono}
use atv.Error.{AtvError}
use atv.World.{slept, Env, World, IpAddr}
use atv.Session.Handshake.Replies.{IsRemoteCodec}
use atv.Session.Power.{
  power_on_attempts, PowerAttempt, PowerOutput, press_power_once, retry, set_power,
  should_retry_power_on, power_on_retry_backoff, power_str,
}
use atv.Session.Power.Attempt.{tally, Reports, Attempted, press_power_once-Stands}
use atv.Session.Power.Count.{Stands, presses}

module _ (env : Env) where
  -- What `set_power` leaves and reports.
  abbrev pub Sets : Bool → World → PowerOutput → World → Type 0
  Sets want_on w out t =
      (out.changed ≡ ltb (presses env w.log) (presses env t.log))
      × (presses env w.log ≤ presses env t.log)
      × (presses env t.log ≤ presses env w.log + power_on_attempts)
      × (t.connects ≤ w.connects + power_on_attempts)
      × (out.changed ≡ false → out.power ≡ power_str want_on)

  module _ (L : IsRemoteCodec env.remote) where
    -- After the tries so far: `changed` says whether any sent a key.
    record Tallied (n d c : ℕ) (changed : Bool) (t : World) : Type 0 where
      any : changed ≡ ltb n (presses env t.log)
      least : n ≤ presses env t.log
      most : presses env t.log ≤ n + d
      tried : t.connects ≤ c

    -- Without a press the last attempt saw the wanted state.
    abbrev Ended : Bool → ℕ → ℕ → ℕ → PowerAttempt × Bool → World → Type 0
    Ended want_on n d c (a, changed) t =
        Tallied n d c changed t × Reports want_on a × (changed ≡ false → a.changed ≡ false)

    Tallied-mono :
        (n d d' c c' : ℕ) (changed : Bool) (t : World)
        → d ≤ d'
        → c ≤ c'
        → Tallied n d c changed t
        → Tallied n d' c' changed t
    Tallied-mono n d d' c c' changed t p q h = record {
      any = h.any;
      least = h.least;
      most = omega arith;
      tried = omega arith;
    }

    abbrev Tried : Bool → ℕ → ℕ → Result AtvError PowerAttempt → World → Type 0
    Tried want_on n c (ok a) t = Attempted env want_on n c a t
    Tried want_on n c (err e) t = Stands env n c t

    -- A further attempt, from `w` to `t`.
    Tallied-step :
        (n d c : ℕ) (changed next : Bool) (w t : World)
        → Tallied n d c changed w
        → Stands env (tally next (presses env w.log)) (suc c) t
        → Tallied n (suc d) (suc c) (changed || next) t
    Tallied-step n d c changed next w t h s = record {
      any = ground arith;
      least = ground arith;
      most = ground arith;
      tried = s.1;
    }

    second-false : (a b : Bool) → (a || b) ≡ false → b ≡ false
    second-false true b e = cc
    second-false false b e = e

    -- What follows a further attempt, if the rest of the loop is right.
    retry-Tallied_after :
        (left n d c fuel : ℕ) (host : IpAddr) (port : ℕ) (want_on : Bool) (last : PowerAttempt)
        → (changed : Bool) (w : World) → Ended want_on n d c (last, changed) w
        → ((next : PowerAttempt) (changed' : Bool) (t : World)
            → Ended want_on n (suc d) (suc c) (next, changed') t
            → Ends
                (Ended want_on n (suc d + left) (suc c + left))
                (λ _ _. ⊥)
                (retry env left fuel host port want_on next changed' t))
        → (tried : Result AtvError PowerAttempt) (t : World)
        → Tried want_on (presses env w.log) (suc c) tried t
        → Ends
            (Ended want_on n (d + suc left) (c + suc left))
            (λ _ _. ⊥)
            ((elim tried as (λ _. Exec World AtvError (PowerAttempt × Bool)) [
              | ok next ↦ retry env left fuel host port want_on next (changed || next.changed)
              | err e ↦ pure (last, changed)
            ])
              t)
    retry-Tallied_after left n d c fuel host port want_on last changed w (h, r, f) rest (ok next) t
          (reports, st) =
        let moved : d + suc left ≡ suc d + left = omega arith in
        let moved' : c + suc left ≡ suc c + left = omega arith in
        rw (moved, moved')
          (rest next (changed || next.changed) t (
            Tallied-step n d c changed next.changed w t h st,
            reports,
            second-false changed next.changed,
          ))
    retry-Tallied_after left n d c fuel host port want_on last changed w (h, r, f) rest (err e) t
          st =
        (
          record {
            any = rw st.0 h.any;
            least = rw st.0 h.least;
            most = omega arith;
            tried = omega arith;
          },
          r,
          f,
        )

    retry-Tallied :
        (left n d c fuel : ℕ) (host : IpAddr) (port : ℕ) (want_on : Bool) (last : PowerAttempt)
        → (changed : Bool) (w : World) → Ended want_on n d c (last, changed) w
        → Ends
            (Ended want_on n (d + left) (c + left))
            (λ _ _. ⊥)
            (retry env left fuel host port want_on last changed w)
    unfolding retry
    retry-Tallied zero n d c fuel host port want_on last changed w (h, r, f) =
        (Tallied-mono n d (d + 0) c (c + 0) changed w (omega arith) (omega arith) h, r, f)
    retry-Tallied (suc left) n d c fuel host port want_on last changed w (h, r, f) =
        let now = presses env w.log in
        let v = record w { log = slept power_on_retry_backoff ∷ w.log } in
        let once = press_power_once env fuel host port want_on in
        Ends-elim _ (λ _ _. ⊥) (should_retry_power_on want_on last.observed) _ _ w
          (λ _.
            Ends-bind (Tried want_on now (suc c)) _ _ (attempt once) _ v
              (Ends-attempt (Tried want_on now (suc c)) (λ _ _. ⊥) once v
                (press_power_once-Stands env L now c fuel host port want_on v (refl, h.tried)))
              (retry-Tallied_after left n d c fuel host port want_on last changed w (h, r, f)
                (retry-Tallied left n (suc d) (suc c) fuel host port want_on)))
          (λ _. (
            Tallied-mono n d (d + suc left) c (c + suc left) changed w (omega arith) (omega arith)
                h,
            r,
            f,
          ))

    Reports-power_str :
        (want_on : Bool) (a : PowerAttempt)
        → Reports want_on a
        → a.changed ≡ false
        → power_str a.resulting ≡ power_str want_on
    Reports-power_str want_on a (seen, shown) e = ap power_str (ground (arith, seen e, shown))

    -- Where `set_power` returns, `changed` says exactly whether a power key was sent, at most four
    -- were sent on at most four connections, and with none sent the reported state is the wanted
    -- one. Where it fails, no power key was sent and at most one connection was tried.
    pub set_power-Sets :
        (fuel : ℕ) (host : IpAddr) (port : ℕ) (want_on : Bool) (w : World)
        → Ends
            (Sets want_on w)
            (λ _ t. Stands env (presses env w.log) (suc w.connects) t)
            (set_power env fuel host port want_on w)
    unfolding set_power
    set_power-Sets fuel host port want_on w =
        let n = presses env w.log in
        let c = w.connects in
        Ends-bind (Attempted env want_on n (suc c)) _ _
          (press_power_once env fuel host port want_on) _ w
          (press_power_once-Stands env L n c fuel host port want_on w (refl, omega arith))
          λ a t (reports, st).
            Ends-bind (Ended want_on n 4 (suc c + 3)) _ _
              (retry env 3 fuel host port want_on a a.changed) _ t
              (Ends-mono (Ended want_on n 4 (suc c + 3)) (Ended want_on n 4 (suc c + 3)) (λ _ _. ⊥)
                _ (retry env 3 fuel host port want_on a a.changed t) (λ _ _ q. q)
                (λ _ _ q. absurd q)
                (retry-Tallied 3 n 1 (suc c) fuel host port want_on a a.changed t
                  (Tallied-step n 0 c false a.changed w t start st, reports, (λ e. e))))
              λ (last, changed) u (h, r, f). (
                h.any,
                h.least,
                h.most,
                omega (arith, h.tried),
                (λ e. Reports-power_str want_on last r (f e)),
              )
      where
        start : Tallied (presses env w.log) 0 w.connects false w
        start = record {
          any = ground arith;
          least = omega arith;
          most = omega arith;
          tried = omega arith;
        }

    -- `off` sends at most one power key, on at most one connection, whatever the TV answers, and
    -- reports exactly whether it did; where it fails, it sent none.
    pub set_power_off :
        (fuel : ℕ) (host : IpAddr) (port : ℕ) (w : World)
        → Ends
            (λ out t.
              (presses env t.log
                ≡ (if out.changed then suc (presses env w.log) else presses env w.log))
              × (t.connects ≤ suc w.connects))
            (λ _ t. Stands env (presses env w.log) (suc w.connects) t)
            (set_power env fuel host port false w)
    unfolding set_power retry should_retry_power_on
    set_power_off fuel host port w =
        let n = presses env w.log in
        Ends-bind (Attempted env false n (suc w.connects)) _ _
          (press_power_once env fuel host port false) _ w
          (press_power_once-Stands env L n w.connects fuel host port false w (refl, omega arith))
          λ a t (reports, st). (st.0 ∙ tally-if a.changed n, st.1)
      where
        tally-if : (b : Bool) (n : ℕ) → tally b n ≡ (if b then suc n else n)
        tally-if true n = refl
        tally-if false n = refl
