-- ===== src/Main/Tells.antt =====
-- What an error's kind tells of how far the command got.
use atv.Base.{ℕ, ◌≡◌, ◌⊎◌, inl, inr, true, false, ◌∷◌}
use atv.Base.Exec.{Exec, ◌>>=◌}
use atv.Base.Ends.{Ends-mono, Ends, Ends-bind}
use atv.Error.{AtvError, ErrorKind, protocol_error, exit_code}
use atv.World.{Env, World, eprinted}
use atv.Pairing.Tells as PairTells
use atv.Session.Power.Tells as SessionTells
use atv.Session.Commands.Tells.{status-Tells, send_keys-Tells, send_app_link-Tells}
use atv.Session.Wake.Tells.{WakeTells, set_power_with_wake-Tells}
use atv.Tls.Fails.{Accepted}
use atv.Pairing
use atv.Discover
use atv.Session.Commands
use atv.Session.Commands.{send_keys, send_app_link}
use atv.Session.Power.{set_power}
use atv.Session.Wake.{set_power_with_wake}
use atv.Discover.Kinds.{discover-Early}
use atv.Cli.{Command, pair, status, on, off, key, launch, discover, port}
use atv.Output.{
  Output, Json, paired, power_state, power_set, keys_sent, launched, discovered, of_error,
}
use atv.Main.Outcome.{Outcome, main-Outcome}
use atv.Main.Emit.{emit-Ends}
use atv.Main.{emit, run_command, run, main}

module _ (env : Env) where
  -- How far a command got that fails with an error of the kind.
  abbrev pub Tells : Command → ErrorKind → World → World → Type 0
  Tells (pair a) kind w t = PairTells.Tells env a.host (port (pair a)) kind w t
  Tells (status a) kind w t = SessionTells.Tells env a.host (port (status a)) kind w t
  Tells (on a) kind w t = WakeTells env a.target.host (port (on a)) a.mac kind w t
  Tells (off a) kind w t = SessionTells.Tells env a.host (port (off a)) kind w t
  Tells (key a) kind w t = SessionTells.Tells env a.target.host (port (key a)) kind w t
  Tells (launch a) kind w t = SessionTells.Tells env a.target.host (port (launch a)) kind w t
  Tells (discover a) kind w t = (kind ≡ protocol_error) × (w ≡ t)

  module _ (json : Json) where
    -- The output is printed without an error.
    emit-Tells :
        {A : Type 0} (c : Command) (m : Exec World AtvError A) (as_output : A → Output)
        → (w : World) (Q : A → World → Type 0) → Ends Q (λ e t. Tells c e.kind w t) (m w)
        → Ends
            (λ _ _. Unit)
            (λ e t. Tells c e.kind w t)
            ((m >>= λ a. emit env json (as_output a)) w)
    emit-Tells c m as_output w Q h =
        Ends-bind Q (λ _ _. Unit) (λ e t. Tells c e.kind w t) m (λ a. emit env json (as_output a)) w
          h
          (λ a t _. emit-Ends env json (λ _ _. Unit) (λ e t. Tells c e.kind w t) (as_output a) t tt)

    run_command-Tells :
        (fuel : ℕ) (c : Command) (w : World)
        → Ends (λ _ _. Unit) (λ e t. Tells c e.kind w t) (run_command env json fuel (port c) c w)
    unfolding run_command
    run_command-Tells fuel (pair a) w =
        emit-Tells (pair a) (Pairing.pair env fuel a.host (port (pair a))) paired w (λ _ _. Unit)
          (PairTells.pair-Tells env a.host (port (pair a)) fuel w)
    run_command-Tells fuel (status a) w =
        emit-Tells (status a) (Commands.status env fuel a.host (port (status a))) power_state w
          (λ _ _. Accepted env a.host (port (status a)) w)
          (status-Tells env a.host (port (status a)) fuel w)
    run_command-Tells fuel (on a) w =
        emit-Tells (on a) (set_power_with_wake env fuel a.target.host (port (on a)) true a.mac)
          power_set w (λ _ _. Unit)
          (set_power_with_wake-Tells env a.target.host (port (on a)) fuel true a.mac w)
    run_command-Tells fuel (off a) w =
        emit-Tells (off a) (set_power env fuel a.host (port (off a)) false) power_set w
          (λ _ _. Accepted env a.host (port (off a)) w)
          (SessionTells.set_power-Tells env a.host (port (off a)) fuel false w)
    run_command-Tells fuel (key a) w =
        emit-Tells (key a) (send_keys env fuel a.target.host (port (key a)) a.keys) keys_sent w
          (λ _ _. Accepted env a.target.host (port (key a)) w)
          (send_keys-Tells env a.target.host (port (key a)) fuel w a.keys)
    run_command-Tells fuel (launch a) w =
        emit-Tells (launch a) (send_app_link env fuel a.target.host (port (launch a)) a.app_link)
          launched w (λ _ _. Accepted env a.target.host (port (launch a)) w)
          (send_app_link-Tells env a.target.host (port (launch a)) fuel w a.app_link)
    run_command-Tells fuel (discover a) w =
        emit-Tells (discover a) (Discover.discover env fuel a.timeout) discovered w (λ _ _. Unit)
          (discover-Early env fuel a.timeout w)

    -- `main` exits with 0, or with the code of an error that was reported in a world `u`.
    abbrev pub Ran : Command → World → ℕ → World → Type 0
    Ran c w code t =
        (code ≡ 0)
        ⊎ ((e : AtvError) × (u : World) × (code ≡ exit_code e)
            × Tells c e.kind w u
            × (t ≡ record u { log = eprinted (of_error json e) ∷ u.log }))

    -- Where `main` fails, the kind of the error that it prints tells how far the command got. For
    -- `status`, `key`, `launch`, `off`, and `on` without a MAC, config_io and not_paired say that
    -- nothing was done at all, and not_paired that the certificate or the key is missing from the
    -- directory of the credentials; unreachable and auth_rejected that one connection was tried and
    -- nothing was sent, the latter on an accepted connection; protocol_error that the TV had
    -- accepted the connection; and there is no pairing_failed. For `on` with a MAC there is no
    -- pairing_failed either, and not_paired says again that one of the files is missing. `pair`
    -- fails with config_io before any connection is tried, with unreachable after it tried one and
    -- sent nothing, and with the other two kinds that it has, protocol_error and pairing_failed,
    -- after one was accepted; `discover` fails only before it listens, with protocol_error.
    pub main-Tells :
        (fuel : ℕ) (c : Command) (w : World)
        → Ends (Ran c w) (λ _ _. ⊥) (main env json fuel (record { command = c }) w)
    unfolding run
    main-Tells fuel c w =
        let X = λ (e : AtvError) (u : World). Tells c e.kind w u in
        Ends-mono (Outcome env json (λ _. Unit) X) (Ran c w) (λ _ _. ⊥) (λ _ _. ⊥)
          (main env json fuel (record { command = c }) w)
          (λ code t ran. elim ran [ inl (zero, _) ↦ inl zero | inr failed ↦ inr failed ])
          (λ _ _ h. h)
          (main-Outcome env json (λ _. Unit) X fuel (record { command = c }) w
            (run_command-Tells fuel c w))
