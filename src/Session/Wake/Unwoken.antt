-- ===== src/Session/Wake/Unwoken.antt =====
-- `set_power` broadcasts nothing and reports no wake-up.
use atv.Base.{ℕ, ◌≡◌, refl, Bool, none, List}
use atv.Base.Ends.{Ends, Ends-bind}
use atv.World.{Env, World, IpAddr}
use atv.Session.Power.{PowerOutput, press_power_once, retry, set_power}
use atv.Session.Closed.Commands.{press_power_once-Keeps, retry-Keeps}
use atv.World.Closed.{IsClosed}
use atv.Session.Wake.Quiet.{Quiet, Quiet-IsClosed}

module _ (env : Env) (sofar : List (List ℕ)) (fuel : ℕ) where
  abbrev pub Unwoken : PowerOutput → World → Type 0
  Unwoken out t = (out.wol ≡ none) × Quiet sofar t

  pub set_power-Unwoken :
      (host : IpAddr) (port : ℕ) (want_on : Bool) (w : World)
      → Quiet sofar w
      → Ends Unwoken (λ _ t. Quiet sofar t) (set_power env fuel host port want_on w)
  unfolding set_power
  set_power-Unwoken host port want_on w h =
      let C : IsClosed host port (Quiet sofar) = Quiet-IsClosed sofar in
      Ends-bind (λ _ t. Quiet sofar t) Unwoken (λ _ t. Quiet sofar t)
        (press_power_once env fuel host port want_on) _ w
        ((press_power_once-Keeps env (Quiet sofar) C fuel want_on).at w h)
        λ a t k.
          Ends-bind (λ _ u. Quiet sofar u) Unwoken (λ _ u. Quiet sofar u)
            (retry env 3 fuel host port want_on a a.changed) _ t
            ((retry-Keeps env (Quiet sofar) C fuel 3 want_on a a.changed).at t k)
            (λ last u l. (refl, l))
