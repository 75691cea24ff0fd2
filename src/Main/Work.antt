-- ===== src/Main/Work.antt =====
-- The work of a command, up to its output, and how the process ends behind it.
use atv.Base.{ℕ, ◌≡◌, refl, true, false, ◌∷◌}
use atv.Base.Exec.{Exec, Run, returns, fails, stuck, pure, ◌>>=◌}
use atv.Base.Ends.{Ends, Keeps}
use atv.Error.{AtvError, exit_code}
use atv.World.{Env, World, eprinted}
use atv.Pairing
use atv.Pairing.Closed.{pair-Keeps}
use atv.Discover
use atv.Discover.Closed.{discover-Keeps}
use atv.Session.Power.{set_power}
use atv.Session.Wake.{set_power_with_wake}
use atv.Session.Commands
use atv.Session.Commands.{send_keys, send_app_link}
use atv.Session.Closed.Commands.{
  status-Keeps, set_power-Keeps, send_keys-Keeps, send_app_link-Keeps,
}
use atv.Session.Closed.Waking.{set_power_with_wake-Keeps}
use atv.Cli.{Command, pair, status, on, off, key, launch, discover, port}
use atv.Output.{
  Output, Json, paired, power_state, power_set, keys_sent, launched, discovered, of_output,
  of_error,
}
use atv.Main.{emit, run_command, main}
use atv.Main.Emit.{shown, main-emits, main-fails}
use atv.Main.Stdout.{stdout, Lines, Lines-IsFree}

module _ (env : Env) (fuel : ℕ) where
  abbrev pub work : Command → Exec World AtvError Output
  work (pair a) = Pairing.pair env fuel a.host (port (pair a)) >>= λ out. pure (paired out)
  work (status a) =
      Commands.status env fuel a.host (port (status a)) >>= λ out. pure (power_state out)
  work (on a) = set_power_with_wake env fuel a.target.host (port (on a)) true a.mac >>= λ out.
      pure (power_set out)
  work (off a) = set_power env fuel a.host (port (off a)) false >>= λ out. pure (power_set out)
  work (key a) =
      send_keys env fuel a.target.host (port (key a)) a.keys >>= λ out. pure (keys_sent out)
  work (launch a) = send_app_link env fuel a.target.host (port (launch a)) a.app_link >>= λ out.
      pure (launched out)
  work (discover a) = Discover.discover env fuel a.timeout >>= λ out. pure (discovered out)

  module _ (json : Json) (w : World) where
    -- The work is done: exit code 0, and the output is the one line on stdout, or none where stdout
    -- cannot be written.
    abbrev pub Prints : Command → Output → World → Type 0
    Prints c out t =
        (stdout t.log ≡ stdout w.log)
        × (main env json fuel (record { command = c }) w
            ≡ returns 0 (record t { log = shown env json (of_output json out) t.log }))

    -- It failed: the error's exit code, and its JSON on stderr.
    abbrev pub Reports : Command → AtvError → World → Type 0
    Reports c e t =
        (stdout t.log ≡ stdout w.log)
        × (main env json fuel (record { command = c }) w
            ≡ returns (exit_code e) (record t { log = eprinted (of_error json e) ∷ t.log }))

    ends_as :
        {A : Type 0} (m : Exec World AtvError A) (as_output : A → Output) (c : Command)
        → run_command env json fuel (port c) c ≡ (m >>= λ a. emit env json (as_output a))
        → Keeps (Lines (stdout w.log)) m
        → Ends (Prints c) (Reports c) ((m >>= λ a. pure (as_output a)) w)
    ends_as {A} m as_output c shape kept = go (m w) refl (kept.at w refl)
      where
        go :
            (r : Run World AtvError A)
            → m w ≡ r
            → Ends (λ _ t. Lines (stdout w.log) t) (λ _ t. Lines (stdout w.log) t) r
            → Ends (Prints c) (Reports c) (elim r as (λ _. Run World AtvError Output) [
              | returns a t ↦ returns (as_output a) t
              | fails e t ↦ fails e t
              | stuck ↦ stuck
            ])
        go (returns a t) same k = (k, main-emits env json m as_output fuel c w t a shape same)
        go (fails e t) same k = (k, main-fails env json m as_output fuel c w t e shape same)
        go stuck same k = tt

    pub work-ends : (c : Command) → Ends (Prints c) (Reports c) (work c w)
    unfolding run_command
    work-ends (pair a) =
        ends_as _ paired (pair a) refl (pair-Keeps env _ (Lines-IsFree (stdout w.log)) fuel)
    work-ends (status a) =
        ends_as _ power_state (status a) refl
          (status-Keeps env _ (Lines-IsFree (stdout w.log)).closed fuel)
    work-ends (on a) = ends_as _ power_set (on a) refl (
        set_power_with_wake-Keeps env _ (Lines-IsFree (stdout w.log)).closed (λ w _ _ _ h. h) fuel
          true a.mac)
    work-ends (off a) =
        ends_as _ power_set (off a) refl
          (set_power-Keeps env _ (Lines-IsFree (stdout w.log)).closed fuel false)
    work-ends (key a) =
        ends_as _ keys_sent (key a) refl
          (send_keys-Keeps env _ (Lines-IsFree (stdout w.log)).closed fuel a.keys)
    work-ends (launch a) =
        ends_as _ launched (launch a) refl
          (send_app_link-Keeps env _ (Lines-IsFree (stdout w.log)).closed fuel a.app_link)
    work-ends (discover a) =
        ends_as _ discovered (discover a) refl
          (discover-Keeps env (Lines (stdout w.log)) (λ _ h. h) (λ _ _ h. h) fuel a.timeout)
