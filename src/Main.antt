-- ===== src/Main.antt =====
-- main.rs: the command is run, its result or its error is printed, and the process exits with a
-- code. What clap makes of the arguments is a parameter: the program starts with a `Cli`.
pub mod Emit
pub mod Stdout
pub mod Work
pub mod Outcome
pub mod Exit
pub mod Datagrams
pub mod Connections
pub mod Ending
pub mod Served
pub mod Woken
pub mod Rejected
pub mod Paired
pub mod Tells
use atv.Base.{ℕ, String, true, false, none, some}
use atv.Base.Exec.{Exec, ok, err, fails, pure, attempt, ◌>>=◌, ◌>>◌}
use atv.Error.{AtvError, exit_code}
use atv.Stream.{IoError}
use atv.World.{Env, World, note, printed, eprinted}
use atv.Cli.{
  Cli, Command, pair, status, on, off, key, launch, discover, HostArgs, OnArgs, KeyArgs, LaunchArgs,
  DiscoverArgs, port,
}
use atv.Output.{
  Output, Json, of_output, of_error, paired, power_state, power_set, keys_sent, launched,
  discovered,
}
use atv.Pairing
use atv.Session.Power.{set_power}
use atv.Session.Wake.{set_power_with_wake}
use atv.Session.Commands.{send_keys, send_app_link}
use atv.Session.Commands
use atv.Discover

module _ (env : Env) (json : Json) where
  -- `writeln!(out, "{json}")` and `out.flush()`: the line is on stdout, or the first failure.
  unfoldable pub write_line : String → Exec World IoError (Unit {0})
  write_line line w = elim env.stdout_fault [ none ↦ note (printed line) w | some e ↦ fails e w ]

  -- `output::emit`: a failure to write is dropped.
  unfoldable pub emit : Output → Exec World AtvError (Unit {0})
  unfolding write_line
  emit out = do wrote ← attempt (write_line (of_output json out)); pure tt

  -- `run`, with the port that the command line gives or the default.
  unfoldable pub run_command : ℕ → ℕ → Command → Exec World AtvError (Unit {0})
  run_command fuel port (pair args) = do
    out ← Pairing.pair env fuel args.host port
    emit (paired out)
  run_command fuel port (status args) = do
    out ← Commands.status env fuel args.host port
    emit (power_state out)
  run_command fuel port (on args) = do
    out ← set_power_with_wake env fuel args.target.host port true args.mac
    emit (power_set out)
  run_command fuel port (off args) = do
    out ← set_power env fuel args.host port false
    emit (power_set out)
  run_command fuel port (key args) = do
    out ← send_keys env fuel args.target.host port args.keys
    emit (keys_sent out)
  run_command fuel port (launch args) = do
    out ← send_app_link env fuel args.target.host port args.app_link
    emit (launched out)
  run_command fuel port (discover args) = do
    out ← Discover.discover env fuel args.timeout
    emit (discovered out)

  unfoldable pub run : ℕ → Cli → Exec World AtvError (Unit {0})
  run fuel cli = run_command fuel (port cli.command) cli.command

  -- `main`, which exits with the code.
  unfoldable pub main : ℕ → Cli → Exec World AtvError ℕ
  main fuel cli = do
    ran ← attempt {F = AtvError} (run fuel cli)
    elim ran [ ok _ ↦ pure 0 | err e ↦ do note (eprinted (of_error json e)); pure (exit_code e) ]
