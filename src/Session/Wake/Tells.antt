-- ===== src/Session/Wake/Tells.antt =====
-- What the kind of an error tells where `on` or `off` with a wake-up fails.
use mathlib.Core.Path.{subst}
use atv.Base.{ℕ, ◌≡◌, ◌≢◌, refl, sym, Bool, true, false, ◌&&◌, Option, none, some, is_some, List}
use atv.Base.Exec.{Exec, Result, ok, err, pure, throw, lift, attempt}
use atv.Base.Ends.{Ends, Ends-bind, Ends-attempt, Ends-mono, Ends-elim, Ends-both, Keeps}
use atv.Base.Only.{Only}
use atv.Error.{
  AtvError, ErrorKind, unreachable, not_paired, auth_rejected, pairing_failed, protocol_error,
  config_io,
}
use atv.World.{Env, World, IpAddr}
use atv.World.Closed.{IsClosed}
use atv.Config.{join}
use atv.Wol.{send_magic_packet}
use atv.Tls.Kinds.{Lacks}
use atv.Tls.Fails.{Accepted}
use atv.Session.Power.{PowerOutput, set_power}
use atv.Session.Power.Tells.{Tells, set_power-Tells}
use atv.Session.Closed.Commands.{set_power-Keeps, wait_for_port-Keeps}
use atv.Session.Closed.Waking.{send_magic_packet-Keeps}
use atv.Session.Wake.Kinds.{send_magic_packet-Only, wait_for_port-Only}
use atv.Session.Wake.{wait_for_port, wake, set_power_with_wake, is_unreachable, wol_wait}

module _ (env : Env) (host : IpAddr) (port : ℕ) where
  -- With a MAC an error is not of a pairing either, and not_paired still tells what it does.
  abbrev pub Waking : ErrorKind → World → Type 0
  Waking kind w = (kind ≢ pairing_failed) × (kind ≡ not_paired → Lacks env w)

  abbrev pub WakeTells : Option (List ℕ) → ErrorKind → World → World → Type 0
  WakeTells none kind w u = Tells env host port kind w u
  WakeTells (some mac) kind w u = Waking kind w

module _ (env : Env) (host : IpAddr) (port fuel : ℕ) where
  -- The files are as they were.
  abbrev Same : World → World → Type 0
  Same w t = t.files ≡ w.files

  Same-IsClosed : (w : World) → IsClosed host port (Same w)
  Same-IsClosed w = record {
    on_read = λ w h. h;
    on_fault = λ w h. h;
    on_sent = λ w id bs h. h;
    on_connect = λ w ms h. h;
    on_sleep = λ w ms h. h;
    on_timeout = λ w ms h. h;
    on_clock = λ w h. h;
  }

  Lacks-Same : (w t : World) → Same w t → Lacks env t → Lacks env w
  Lacks-Same w t same (dir, found, gone) = (
    dir,
    found,
    subst
        (λ files.
          (is_some (files (join dir "cert.pem")) && is_some (files (join dir "key.pem"))) ≡ false)
        same gone,
  )

  Tells-Waking :
      (k : ErrorKind) (w t u : World)
      → Same w t
      → Tells env host port k t u
      → Waking env host port k w
  Tells-Waking unreachable w t u same h = (λ e. cc, λ e. let no : ⊥ = cc in absurd no)
  Tells-Waking protocol_error w t u same h = (λ e. cc, λ e. let no : ⊥ = cc in absurd no)
  Tells-Waking config_io w t u same h = (λ e. cc, λ e. let no : ⊥ = cc in absurd no)
  Tells-Waking auth_rejected w t u same h = (λ e. cc, λ e. let no : ⊥ = cc in absurd no)
  Tells-Waking not_paired w t u same h = (λ e. cc, λ _. Lacks-Same w t same h.1)
  Tells-Waking pairing_failed w t u same h = absurd h

  -- A step that keeps the files and fails with errors of one kind, which a pairing does not have.
  kept_and :
      {A : Type 0} (kind : ErrorKind) (m : Exec World AtvError A) (w t : World)
      → Waking env host port kind w
      → Keeps (Same w) m
      → Only (λ e. e.kind ≡ kind) m
      → Same w t
      → Ends (λ _ u. Same w u) (λ e _. Waking env host port e.kind w) (m t)
  kept_and kind m w t fine kept only same =
      Ends-mono (λ _ u. Same w u × Unit) (λ _ u. Same w u) (λ e u. Same w u × (e.kind ≡ kind))
        (λ e _. Waking env host port e.kind w) (m t) (λ _ _ h. h.0)
        (λ e _ h. subst (λ k. Waking env host port k w) (sym h.1) fine)
        (Ends-both (λ _ u. Same w u) (λ _ _. Unit) (λ _ u. Same w u) (λ e _. e.kind ≡ kind) (m t)
          (kept.at t same) (only.at t))

  wake-Waking :
      (want_on : Bool) (mac : List ℕ) (w t : World)
      → Same w t
      → Ends
          (λ _ _. Unit)
          (λ e _. Waking env host port e.kind w)
          (wake env fuel host port want_on mac t)
  unfolding wake
  wake-Waking want_on mac w t same =
      let closed = Same-IsClosed w in
      let X = λ (e : AtvError) (_ : World). Waking env host port e.kind w in
      Ends-bind (λ _ u. Same w u) (λ _ _. Unit) X (send_magic_packet env mac) _ t
        (kept_and protocol_error (send_magic_packet env mac) w t
          (λ e. cc, λ e. let no : ⊥ = cc in absurd no)
          (send_magic_packet-Keeps env (Same w) closed (λ w _ _ _ h. h) fuel want_on mac)
          (send_magic_packet-Only env mac) same)
        λ _ u same'.
          Ends-bind (λ _ v. Same w v) (λ _ _. Unit) X (wait_for_port env fuel host port wol_wait) _
            u
            (kept_and unreachable (wait_for_port env fuel host port wol_wait) w u
              (λ e. cc, λ e. let no : ⊥ = cc in absurd no)
              (wait_for_port-Keeps env (Same w) closed fuel wol_wait)
              (wait_for_port-Only env host port fuel wol_wait) same')
            λ _ v same''.
              Ends-bind (λ _ _. Unit) (λ _ _. Unit) X (set_power env fuel host port want_on) _ v
                (Ends-mono (λ _ _. Accepted env host port v) (λ _ _. Unit)
                  (λ e x. Tells env host port e.kind v x) X (set_power env fuel host port want_on v)
                  (λ _ _ _. tt) (λ e x. Tells-Waking e.kind w v x same'')
                  (set_power-Tells env host port fuel want_on v))
                (λ out x _. tt)

  abbrev Attempted : World → Result AtvError PowerOutput → World → Type 0
  Attempted w (ok out) t = Same w t
  Attempted w (err e) t = Same w t × Tells env host port e.kind w t

  attempt-Attempted :
      (want_on : Bool) (w : World)
      → Ends
          (Attempted w)
          (λ _ _. ⊥)
          (attempt {F = AtvError} (set_power env fuel host port want_on) w)
  attempt-Attempted want_on w =
      Ends-attempt (Attempted w) (λ _ _. ⊥) (set_power env fuel host port want_on) w
        (Ends-mono (λ _ t. Same w t × Accepted env host port w) (λ _ t. Same w t)
          (λ e u. Same w u × Tells env host port e.kind w u)
          (λ e u. Same w u × Tells env host port e.kind w u)
          (set_power env fuel host port want_on w) (λ _ _ h. h.0) (λ _ _ h. h)
          (Ends-both (λ _ t. Same w t) (λ _ _. Accepted env host port w) (λ _ u. Same w u)
            (λ e u. Tells env host port e.kind w u) (set_power env fuel host port want_on w)
            ((set_power-Keeps env (Same w) (Same-IsClosed w) fuel want_on).at w refl)
            (set_power-Tells env host port fuel want_on w)))

  lift-Attempted :
      (w : World) (first : Result AtvError PowerOutput) (t : World)
      → Attempted w first t
      → Ends (λ _ _. Unit) (λ e u. Tells env host port e.kind w u) (lift first t)
  lift-Attempted w (ok out) t h = tt
  lift-Attempted w (err e) t h = h.1

  after_first :
      (want_on : Bool) (bytes : List ℕ) (w : World) (first : Result AtvError PowerOutput)
      (t : World)
      → Attempted w first t
      → Ends
          (λ _ _. Unit)
          (λ e _. Waking env host port e.kind w)
          ((elim first as (λ _. Exec World AtvError PowerOutput) [
            | ok out ↦ pure out
            | err e ↦ elim (want_on && is_unreachable e.kind) [
              | true ↦ wake env fuel host port want_on bytes
              | false ↦ throw e
            ]
          ])
            t)
  after_first want_on bytes w (ok out) t h = tt
  after_first want_on bytes w (err e) t h =
      Ends-elim (λ _ _. Unit) (λ e _. Waking env host port e.kind w)
        (want_on && is_unreachable e.kind) (wake env fuel host port want_on bytes) (throw e) t
        (λ _. wake-Waking want_on bytes w t h.0) (λ _. Tells-Waking e.kind w w t refl h.1)

  pub set_power_with_wake-Tells :
      (want_on : Bool) (mac : Option (List ℕ)) (w : World)
      → Ends
          (λ _ _. Unit)
          (λ e u. WakeTells env host port mac e.kind w u)
          (set_power_with_wake env fuel host port want_on mac w)
  unfolding set_power_with_wake
  set_power_with_wake-Tells want_on none w =
      Ends-bind (Attempted w) (λ _ _. Unit) (λ e u. Tells env host port e.kind w u)
        (attempt (set_power env fuel host port want_on)) lift w
        (Ends-mono (Attempted w) (Attempted w) (λ _ _. ⊥) (λ e u. Tells env host port e.kind w u)
          (attempt (set_power env fuel host port want_on) w) (λ _ _ k. k) (λ _ _ k. absurd k)
          (attempt-Attempted want_on w))
        (lift-Attempted w)
  set_power_with_wake-Tells want_on (some bytes) w =
      Ends-bind (Attempted w) (λ _ _. Unit) (λ e _. Waking env host port e.kind w)
        (attempt (set_power env fuel host port want_on)) _ w
        (Ends-mono (Attempted w) (Attempted w) (λ _ _. ⊥) (λ e _. Waking env host port e.kind w)
          (attempt (set_power env fuel host port want_on) w) (λ _ _ k. k) (λ _ _ k. absurd k)
          (attempt-Attempted want_on w))
        (after_first want_on bytes w)
