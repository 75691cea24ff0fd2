-- ===== src/Session/Wake/Ending.antt =====
-- `on` and `off` with a wake-up come to an end: the wait for the port ends by the clock.
use atv.Base.{
  ℕ, zero, suc, ◌+◌, ◌<◌, ◌≤◌, ◌≡◌, refl, ap, Bool, true, false, ◌&&◌, Option, none, some, List,
  ◌∷◌, ltb, inl, inr, arith,
}
use atv.Base.Exec.{Exec, Result, ok, err, stuck, attempt, lift, Result-cases, pure, throw}
use atv.Base.Ends.{Ends, Ends-attempt}
use atv.Base.Halts.{
  Halts, Halts-ne-stuck, Halts-elim, Halts-bind, Halting, Halting-bind, Halting-attempt,
  Halting-lift, Halting-map_err, Halting-pure,
}
use atv.Error.{AtvError}
use atv.World.{Env, World, IpAddr, slept}
use atv.Tls.{connect_timeout}
use atv.Tls.Effects.{connect_timeout-Ends}
use atv.Tls.Ending.{connect_timeout-Halting}
use atv.Wol.{send_magic_packet}
use atv.Session.Power.{set_power, PowerOutput}
use atv.Session.Power.Loops.{IsFinite}
use atv.Session.Power.Ending.{set_power-Halting}
use atv.Session.Wake.{poll_port, wait_for_port, wake, set_power_with_wake, wol_wait, is_unreachable}

-- From any reading of the clock, `rounds` further ones take it `budget` milliseconds ahead.
abbrev pub Advances : Env → ℕ → ℕ → Type 0
Advances env rounds budget = (i : ℕ) → env.now i + budget ≤ env.now (i + rounds)

module _ (env : Env) where
  -- A failed attempt to connect leaves the clock alone.
  tried :
      (host : IpAddr) (port r : ℕ) (w : World)
      → w.readings ≡ r
      → Ends
          (λ _ t. t.readings ≡ r)
          (λ _ _. ⊥)
          (attempt {F = AtvError} (connect_timeout env host port 1000) w)
  tried host port r w h =
      Ends-attempt (λ _ t. t.readings ≡ r) (λ _ _. ⊥) (connect_timeout env host port 1000) w
        (connect_timeout-Ends env (λ t. t.readings ≡ r) (λ t. t.readings ≡ r) host port 1000
          (λ t k. k) w h)

  poll_port-Halts :
      (fuel left : ℕ) (host : IpAddr) (port deadline : ℕ) (w : World)
      → deadline ≤ env.now (w.readings + left)
      → left < fuel
      → Halts (poll_port env fuel host port deadline w)
  unfolding poll_port
  poll_port-Halts zero left host port deadline w passed enough = absurd (omega arith)
  poll_port-Halts (suc fuel) zero host port deadline w passed enough =
      Halts-elim (ltb (env.now w.readings) deadline) _ _ (record w { readings = suc w.readings })
        (λ before.
          let same : w.readings + 0 ≡ w.readings = omega arith in
          let late : ⊥ = ground (arith, before, passed, ap (λ (i : ℕ). env.now i) same) in
          absurd late)
        (λ _. tt)
  poll_port-Halts (suc fuel) (suc left) host port deadline w passed enough =
      Halts-elim (ltb (env.now w.readings) deadline) _ _ (record w { readings = suc w.readings })
        (λ _.
          Halts-bind (λ _ t. t.readings ≡ suc w.readings) (λ _ _. ⊥)
            (attempt (connect_timeout env host port 1000)) _ _
            (tried host port (suc w.readings) _ refl)
            ((Halting-attempt AtvError (connect_timeout env host port 1000)
                (connect_timeout-Halting env host port 1000)).at
              _)
            λ r t k. elim (Result-cases r) [
              | inl (conn, e) ↦ rw e tt
              | inr (x, e) ↦ rw e (
                  poll_port-Halts fuel left host port deadline
                    (record t { log = slept 500 ∷ t.log }) (omega (arith, next t k)) (omega arith))
            ])
        (λ _. tt)
    where
      next :
          (t : World)
          → t.readings ≡ suc w.readings
          → env.now (w.readings + suc left) ≡ env.now (t.readings + left)
      next t k =
          let moved : w.readings + suc left ≡ t.readings + left = omega arith in
          ap (λ (i : ℕ). env.now i) moved

  pub wait_for_port-Halting :
      (fuel rounds budget : ℕ) (host : IpAddr) (port : ℕ)
      → Advances env (suc rounds) budget
      → rounds < fuel
      → Halting (wait_for_port env fuel host port budget)
  unfolding wait_for_port
  wait_for_port-Halting fuel rounds budget host port advances enough = record {
    at = λ w.
        let moved : w.readings + suc rounds ≡ suc w.readings + rounds = omega arith in
        poll_port-Halts fuel rounds host port (env.now w.readings + budget)
          (record w { readings = suc w.readings })
          (omega (arith, advances w.readings, ap (λ (i : ℕ). env.now i) moved)) enough;
  }

  send_magic_packet-Halting : (mac : List ℕ) → Halting (send_magic_packet env mac)
  unfolding send_magic_packet
  send_magic_packet-Halting mac =
      Halting-bind _ _ (Halting-map_err _ _ (Halting-lift env.udp_bind)) λ _.
        Halting-bind _ _ (Halting-map_err _ _ (Halting-lift env.udp_set_broadcast)) λ _.
          Halting-bind _ _ (Halting-map_err _ _ (Halting-lift env.udp_send_to))
            λ _. record { at = λ w. tt }

  module _ (bound : ℕ) (finite : IsFinite env bound) (rounds fuel : ℕ)
      (advances : Advances env (suc rounds) wol_wait) (beyond : bound < fuel)
      (enough : rounds < fuel) where
    wake-Halting :
        (host : IpAddr) (port : ℕ) (want_on : Bool) (mac : List ℕ)
        → Halting (wake env fuel host port want_on mac)
    unfolding wake
    wake-Halting host port want_on mac = Halting-bind _ _ (send_magic_packet-Halting mac) λ _.
        Halting-bind _ _ (wait_for_port-Halting fuel rounds wol_wait host port advances enough) λ _.
          Halting-bind _ _ (set_power-Halting env bound finite fuel beyond host port want_on)
            λ out. Halting-pure (record out { wol = some true })

    after_first :
        (host : IpAddr) (port : ℕ) (want_on : Bool) (mac : Option (List ℕ))
        → (first : Result AtvError PowerOutput)
        → Halting (elim mac as (λ _. Exec World AtvError PowerOutput) [
          | none ↦ lift first
          | some bytes ↦ elim first [
            | ok out ↦ pure out
            | err e ↦ elim (want_on && is_unreachable e.kind) [
              | true ↦ wake env fuel host port want_on bytes
              | false ↦ throw e
            ]
          ]
        ])
    after_first host port want_on none first = Halting-lift first
    after_first host port want_on (some bytes) (ok out) = Halting-pure out
    after_first host port want_on (some bytes) (err e) = record {
      at = λ w.
          Halts-elim (want_on && is_unreachable e.kind) _ _ w
            (λ _. (wake-Halting host port want_on bytes).at w) (λ _. tt);
    }

    -- Where every inbound stream ends within `bound` bytes, and any `suc rounds` readings of the
    -- clock span the wait for the port, fuel beyond both lets `set_power_with_wake` return or fail.
    pub set_power_with_wake-ends :
        (host : IpAddr) (port : ℕ) (want_on : Bool) (mac : Option (List ℕ)) (w : World)
        → ¬ (set_power_with_wake env fuel host port want_on mac w ≡ stuck)
    unfolding set_power_with_wake
    set_power_with_wake-ends host port want_on mac w =
        let first = set_power env fuel host port want_on in
        Halts-ne-stuck _ (
          (Halting-bind (attempt first) _
              (Halting-attempt AtvError first
                (set_power-Halting env bound finite fuel beyond host port want_on))
              (after_first host port want_on mac)).at
            w)
