-- ===== src/Main/Ending.antt =====
-- Every command comes to an end.
use atv.Base.{ℕ, suc, ◌*◌, ◌<◌, ◌≡◌, true, false}
use atv.Base.Exec.{Exec, Result, ok, err, stuck, attempt, pure, ◌>>=◌, ◌>>◌}
use atv.Base.Halts.{Halts-ne-stuck, Halts-of-ne, Halting, Halting-bind, Halting-attempt}
use atv.Error.{AtvError, exit_code}
use atv.World.{Env, World, note, eprinted}
use atv.Pairing.Ending.{pair-ends}
use atv.Discover.Ending.{discover-ends}
use atv.Session.Power.Loops.{IsFinite}
use atv.Session.Power.Ending.{set_power-Halting}
use atv.Session.Wake.{wol_wait}
use atv.Session.Wake.Ending.{Advances, set_power_with_wake-ends}
use atv.Session.Commands.Ending.{status-Halting, send_keys-Halting, send_app_link-Halting}
use atv.Cli.{Cli, Command, pair, status, on, off, key, launch, discover}
use atv.Cli
use atv.Output.{Output, Json, of_error}
use atv.Main.Emit.{emit-Halting}
use atv.Main.{emit, run_command, run, main}

-- The milliseconds that a command waits for at most, where it watches the clock.
abbrev pub wait_of : Command → ℕ
wait_of (discover args) = args.timeout * 1000
wait_of _ = wol_wait

module _ (env : Env) (json : Json) (bound : ℕ) (finite : IsFinite env bound) (rounds fuel : ℕ)
    (beyond : bound < fuel) (enough : rounds < fuel) where
  printed-Halting :
      {A : Type 0} (m : Exec World AtvError A) (as_output : A → Output)
      → Halting m
      → Halting (m >>= λ a. emit env json (as_output a))
  printed-Halting m as_output halts =
      Halting-bind m (λ a. emit env json (as_output a)) halts
        λ a. emit-Halting env json (as_output a)

  run_command-Halting :
      (port : ℕ) (c : Command)
      → Advances env (suc rounds) (wait_of c)
      → Halting (run_command env json fuel port c)
  unfolding run_command
  run_command-Halting port (pair args) advances =
      printed-Halting _ _ (record {
        at = λ w. Halts-of-ne _ (pair-ends env bound finite fuel args.host port w beyond);
      })
  run_command-Halting port (status args) advances =
      printed-Halting _ _ (status-Halting env bound finite fuel beyond args.host port)
  run_command-Halting port (on args) advances = printed-Halting _ _ (record {
    at = λ w. Halts-of-ne _ (
        set_power_with_wake-ends env bound finite rounds fuel advances beyond enough
          args.target.host port true args.mac w);
  })
  run_command-Halting port (off args) advances =
      printed-Halting _ _ (set_power-Halting env bound finite fuel beyond args.host port false)
  run_command-Halting port (key args) advances =
      printed-Halting _ _
        (send_keys-Halting env bound finite fuel beyond args.target.host port args.keys)
  run_command-Halting port (launch args) advances =
      printed-Halting _ _
        (send_app_link-Halting env bound finite fuel beyond args.target.host port args.app_link)
  run_command-Halting port (discover args) advances = printed-Halting _ _ (record {
    at = λ w. Halts-of-ne _ (discover-ends env fuel rounds args.timeout w advances enough);
  })

  -- Where every inbound stream ends within `bound` bytes, and any `suc rounds` readings of the
  -- clock span the time that the command may wait, fuel beyond both lets `main` exit with a code.
  pub main-ends :
      (cli : Cli) (w : World)
      → Advances env (suc rounds) (wait_of cli.command)
      → ¬ (main env json fuel cli w ≡ stuck)
  unfolding main run
  main-ends cli w advances =
      let m = run env json fuel cli in
      Halts-ne-stuck _ (
        (Halting-bind (attempt m) _
            (Halting-attempt AtvError m
              (run_command-Halting (Cli.port cli.command) cli.command advances))
            printed_error).at
          w)
    where
      printed_error :
          (ran : Result AtvError (Unit {0}))
          → Halting (elim ran as (λ _. Exec World AtvError ℕ) [
            | ok _ ↦ pure 0
            | err e ↦ do note (eprinted (of_error json e)); pure (exit_code e)
          ])
      printed_error (ok u) = record { at = λ w. tt }
      printed_error (err e) = record { at = λ w. tt }
