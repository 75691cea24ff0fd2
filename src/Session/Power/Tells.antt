-- ===== src/Session/Power/Tells.antt =====
-- What the kind of an error tells of how far a session got.
use mathlib.Core.Path.{subst}
use atv.Base.{ℕ, ◌≡◌, refl, sym, inl, inr, Bool, true, false, none, ◌∙◌, ◌-◌}
use atv.Base.Exec.{Exec, ◌>>=◌}
use atv.Base.Ends.{Ends, Ends-bind, Ends-bind_lift, Ends-mono}
use atv.Base.Only.{Only, Only-pure, Only-elim, Only-bind}
use atv.Error.{
  AtvError, ErrorKind, unreachable, not_paired, auth_rejected, pairing_failed, protocol_error,
  config_io,
}
use atv.World.{Env, World, IpAddr, timestamp}
use atv.World.Conn.{Conn}
use atv.Config.{credential_dir_from_env}
use atv.Tls.{TlsClient, from_credential_dir, connect}
use atv.Tls.Kinds.{Lacks, LoadFails, from_credential_dir-Kinds, IsLeaf, has_both}
use atv.Tls.Fails.{OneTried, Accepted, Fails, connect-Fails}
use atv.Config.Kinds.{dir_or, dir_or-config_io}
use atv.Session.Handshake.{new}
use atv.Session.Handshake.Kinds.{IsProtocol}
use atv.Session.Power.{
  open_session, read_power, read_power_loop, press_power_once, retry, set_power, needs_power_key,
  power_on_attempts, power_str,
}
use atv.Session.Power.Kinds.{Late, read_power_loop-Late, press-Only, retry-Only}

module _ (env : Env) (host : IpAddr) (port : ℕ) where
  -- What an error of this kind tells, from `w` to `t`: nothing was tried yet, one connection was
  -- tried and nothing was sent, or the TV had accepted the connection.
  abbrev pub Tells : ErrorKind → World → World → Type 0
  Tells config_io w t = w ≡ t
  Tells not_paired w t = (w ≡ t) × Lacks env w
  Tells unreachable w t = OneTried env host port w t
  Tells auth_rejected w t = Accepted env host port w × OneTried env host port w t
  Tells protocol_error w t = Accepted env host port w
  Tells pairing_failed w t = ⊥

  Fails-Tells : (k : ErrorKind) (w t : World) → Fails env host port k w t → Tells k w t
  Fails-Tells unreachable w t h = h
  Fails-Tells protocol_error w t h = h
  Fails-Tells config_io w t h = absurd h
  Fails-Tells not_paired w t h = absurd h
  Fails-Tells auth_rejected w t h = absurd h
  Fails-Tells pairing_failed w t h = absurd h

  connect-Tells :
      (client : TlsClient) (w : World)
      → Ends
          (λ _ u. Accepted env host port w × OneTried env host port w u)
          (λ e u. Tells e.kind w u)
          (connect env client host port 5000 w)
  connect-Tells client w =
      Ends-mono (λ _ u. Accepted env host port w × OneTried env host port w u)
        (λ _ u. Accepted env host port w × OneTried env host port w u)
        (λ e u. Fails env host port e.kind w u) (λ e u. Tells e.kind w u)
        (connect env client host port 5000 w) (λ _ _ h. h) (λ e u. Fails-Tells e.kind w u)
        (connect-Fails env host port client w)

  open_session-Tells :
      (w : World)
      → Ends
          (λ _ u. Accepted env host port w × OneTried env host port w u)
          (λ e u. Tells e.kind w u)
          (open_session env host port w)
  unfolding open_session credential_dir_from_env
  open_session-Tells w =
      Ends-bind_lift {B = Conn} (λ _ u. Accepted env host port w × OneTried env host port w u)
        (λ e u. Tells e.kind w u) (dir_or env)
        (λ dir. from_credential_dir env dir >>= λ client. connect env client host port 5000) w
        (λ dir found.
          Ends-bind (λ _ t. w ≡ t) (λ _ u. Accepted env host port w × OneTried env host port w u)
            (λ e u. Tells e.kind w u) (from_credential_dir env dir)
            (λ client. connect env client host port 5000) w
            (Ends-mono (λ client t. (w ≡ t) × (has_both env dir w ≡ true) × IsLeaf client)
              (λ _ t. w ≡ t) (LoadFails env dir w) (λ e u. Tells e.kind w u)
              (from_credential_dir env dir w) (λ _ _ k. k.0)
              (λ e t k. elim k.1 [
                | inl (kind, gone) ↦ subst (λ x. Tells x w t) (sym kind) (k.0, (dir, found, gone))
                | inr (kind, _) ↦ subst (λ x. Tells x w t) (sym kind) k.0
              ])
              (from_credential_dir-Kinds env dir w))
            λ client t same.
              subst
                (λ t.
                  Ends (λ _ u. Accepted env host port w × OneTried env host port w u)
                    (λ e u. Tells e.kind w u) (connect env client host port 5000 t))
                same (connect-Tells client w))
        (λ e h. subst (λ x. Tells x w w) (sym (dir_or-config_io env e h)) refl)

  -- What comes behind an accepted connection fails with protocol errors only.
  pub then-Tells :
      {A B : Type 0} (m : Exec World AtvError A) (f : A → Exec World AtvError B) (w : World)
      → Ends (λ _ _. Accepted env host port w) (λ e u. Tells e.kind w u) (m w)
      → ((a : A) → Only IsProtocol (f a))
      → Ends (λ _ _. Accepted env host port w) (λ e u. Tells e.kind w u) ((m >>= f) w)
  then-Tells m f w h only =
      Ends-bind (λ _ _. Accepted env host port w) (λ _ _. Accepted env host port w)
        (λ e u. Tells e.kind w u) m f w h
        λ a t accepted.
          Ends-mono (λ _ _. Unit) (λ _ _. Accepted env host port w) (λ e _. IsProtocol e)
            (λ e u. Tells e.kind w u) (f a t) (λ _ _ _. accepted)
            (λ e u k. subst (λ x. Tells x w u) (sym k) accepted) ((only a).at t)

  pub read_power-Tells :
      (fuel : ℕ) (w : World)
      → Ends
          (λ _ _. Accepted env host port w)
          (λ e u. Tells e.kind w u)
          (read_power env fuel host port w)
  unfolding read_power
  read_power-Tells fuel w =
      Ends-bind (λ _ u. Accepted env host port w × OneTried env host port w u)
        (λ _ _. Accepted env host port w) (λ e u. Tells e.kind w u) (open_session env host port) _ w
        (open_session-Tells w)
        λ conn t (accepted, tried).
          Ends-mono (λ _ _. Unit) (λ _ _. Accepted env host port w) (Late env t)
            (λ e u. Tells e.kind w u) (read_power_loop env fuel conn new false t)
            (λ _ _ _. accepted)
            (λ e u late. elim late [
              | inl (kind, kept) ↦ subst (λ x. Tells x w u) (sym kind) (accepted, kept ∙ tried)
              | inr kind ↦ subst (λ x. Tells x w u) (sym kind) accepted
            ])
            (read_power_loop-Late env fuel conn t)

  pub set_power-Tells :
      (fuel : ℕ) (want_on : Bool) (w : World)
      → Ends
          (λ _ _. Accepted env host port w)
          (λ e u. Tells e.kind w u)
          (set_power env fuel host port want_on w)
  unfolding set_power press_power_once
  set_power-Tells fuel want_on w =
      then-Tells (press_power_once env fuel host port want_on) _ w
        (then-Tells (read_power env fuel host port) _ w (read_power-Tells fuel w) λ session.
          Only-elim IsProtocol (needs_power_key session.power want_on) _ _
            (press-Only env fuel session.conn session.handshake want_on) (Only-pure IsProtocol _))
        λ attempted.
          Only-bind IsProtocol
            (retry env (power_on_attempts - 1) fuel host port want_on attempted attempted.changed) _
            (retry-Only env IsProtocol (power_on_attempts - 1) fuel host port want_on attempted
              attempted.changed)
            λ (last, changed).
              Only-bind IsProtocol (timestamp env) _ (record { at = λ w. tt })
                λ at. Only-pure IsProtocol (record {
                  timestamp = at;
                  host = host;
                  power = power_str last.resulting;
                  changed = changed;
                  wol = none;
                })
