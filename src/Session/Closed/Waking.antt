-- ===== src/Session/Closed/Waking.antt =====
-- `on` with a MAC keeps what the broadcast keeps too.
use atv.Base.{ℕ, Bool, Option, none, some, List, ◌∷◌, String, ◌&&◌, true, false}
use atv.Base.Exec.{Result, ok, err, lift, attempt, pure, throw, Exec}
use atv.Base.Ends.{
  Keeps, Keeps-pure, Keeps-throw, Keeps-lift, Keeps-map_err, Keeps-bind, Keeps-elim, Keeps-attempt,
}
use atv.Error.{AtvError}
use atv.World.{Env, World, IpAddr, broadcast}
use atv.World.Closed.{IsClosed}
use atv.Wol.{send_magic_packet}
use atv.Session.Power.{PowerOutput, set_power}
use atv.Session.Wake.{wake, set_power_with_wake, is_unreachable, wol_wait}
use atv.Session.Closed.Commands.{set_power-Keeps, wait_for_port-Keeps}

module _ (env : Env) {host : IpAddr} {port : ℕ} (P : World → Type 0) (C : IsClosed host port P)
    (on_broadcast : (w : World) (addr : String) (port : ℕ) (bytes : List ℕ)
      → P w
      → P (record w { log = broadcast addr port bytes ∷ w.log }))
    (fuel : ℕ) (want_on : Bool) where
  pub send_magic_packet-Keeps : (mac : List ℕ) → Keeps P (send_magic_packet env mac)
  unfolding send_magic_packet
  send_magic_packet-Keeps mac =
      Keeps-bind P _ _ (Keeps-map_err P _ _ (Keeps-lift P env.udp_bind)) λ _.
        Keeps-bind P _ _ (Keeps-map_err P _ _ (Keeps-lift P env.udp_set_broadcast)) λ _.
          Keeps-bind P _ _ (Keeps-map_err P _ _ (Keeps-lift P env.udp_send_to))
            λ _. record { at = λ w h. on_broadcast w _ _ _ h }

  wake-Keeps : (mac : List ℕ) → Keeps P (wake env fuel host port want_on mac)
  unfolding wake
  wake-Keeps mac = Keeps-bind P _ _ (send_magic_packet-Keeps mac) λ _.
      Keeps-bind P _ _ (wait_for_port-Keeps env P C fuel wol_wait) λ _.
        Keeps-bind P _ _ (set_power-Keeps env P C fuel want_on)
          λ out. Keeps-pure P (record out { wol = some true })

  after_first :
      (mac : Option (List ℕ)) (first : Result AtvError PowerOutput)
      → Keeps P (elim mac as (λ _. Exec World AtvError PowerOutput) [
        | none ↦ lift first
        | some bytes ↦ elim first [
          | ok out ↦ pure out
          | err e ↦ elim (want_on && is_unreachable e.kind) [
            | true ↦ wake env fuel host port want_on bytes
            | false ↦ throw e
          ]
        ]
      ])
  after_first none first = Keeps-lift P first
  after_first (some bytes) (ok out) = Keeps-pure P out
  after_first (some bytes) (err e) =
      Keeps-elim P (want_on && is_unreachable e.kind) _ _ (wake-Keeps bytes) (Keeps-throw P e)

  pub set_power_with_wake-Keeps :
      (mac : Option (List ℕ)) → Keeps P (set_power_with_wake env fuel host port want_on mac)
  unfolding set_power_with_wake
  set_power_with_wake-Keeps mac =
      Keeps-bind P (attempt (set_power env fuel host port want_on)) _
        (Keeps-attempt P _ (set_power-Keeps env P C fuel want_on)) λ first. after_first mac first
