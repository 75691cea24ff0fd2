-- ===== src/Tests/Main.antt =====
-- main.rs at a TV that sleeps until the magic packet.
use atv.Base.{true, ℕ, ◌≡◌, refl, String, Option, none, some, List, [], ◌∷◌, arith}
use atv.Base.Exec.{Run, returns, fails, stuck}
use atv.Base.Ends.{Ends}
use atv.Error.{AtvError, auth_rejected, exit_code, exit_code_of}
use atv.World.{Env, World}
use atv.World.Conn.{conn_read, conn_write}
use atv.Config.{credential_dir_from_env, resolve_credential_dir, set, join, ensure_paired}
use atv.Tls.{from_credential_dir, read_file, connect, connect_timeout, client_from_pem, set_up}
use atv.Framing.{frame, read_message, write_message, encode_len, read_len}
use atv.Session.Handshake.{handle, power_key_message}
use atv.Session.Power.{
  PowerOutput, set_power, press_power_once, read_power, open_session, read_power_loop, read_round,
  receive, send, send_reply, press, await_power, await_round, answer, retry, needs_power_key,
  should_retry_power_on, power_str,
}
use atv.Session.Wake.{set_power_with_wake, wake, wait_for_port, poll_port, is_unreachable}
use atv.Wol.{send_magic_packet}
use atv.Cli.{Cli, on, off, HostArgs, port, args}
use atv.Output.{Json, output_value, error_value, power_set}
use atv.Output.Objects.{read_output, read_error, read_output-output_value, read_error-error_value}
use atv.Main.{main, run, run_command, emit, write_line}
use atv.Main.Stdout.{stdout}
use atv.Main.Work.{work, Prints, Reports}
use atv.Main.Exit.{IsErrorCode, main-Exits}
use atv.Main.Tells.{Ran, main-Tells}
use atv.Main.Datagrams.{MayWake, run-MayWake}
use atv.Main.Connections.{Reaches, run-Reaches}
use atv.Main.Ending.{main-ends}
use atv.Tests.Fixture.{closed, world}
use atv.Tests.Session.{tv}
use atv.Tests.Wake.{asleep, mac, asleep-IsFinite, asleep-Advances}

abbrev json : Json
json = record { to_string = λ v. "{}" }

abbrev target : HostArgs
target = record { host = "192.0.2.10"; port = none }

abbrev wake_up : Cli
wake_up = record { command = on (record { target = target; mac = some mac }) }

abbrev switch_off : Cli
switch_off = record { command = off target }

run_at : Env → Cli → Run World AtvError ℕ
unfolding tv asleep conn_read conn_write credential_dir_from_env resolve_credential_dir set join
    ensure_paired from_credential_dir read_file connect connect_timeout client_from_pem set_up frame
    read_message write_message encode_len read_len handle power_key_message set_power
    press_power_once read_power open_session read_power_loop read_round receive send send_reply
    press await_power await_round answer retry needs_power_key should_retry_power_on power_str
    set_power_with_wake wake wait_for_port poll_port is_unreachable send_magic_packet main run
    run_command emit write_line exit_code exit_code_of port args
run_at env cli = main env json 20 cli world

run_main : Cli → Run World AtvError ℕ
unfolding run_at
run_main cli = run_at asleep cli

exit_of : Run World AtvError ℕ → Option (ℕ × List String)
exit_of (returns code t) = some (code, stdout t.log)
exit_of (fails e t) = none
exit_of stuck = none

wakes_up : exit_of (run_main wake_up) ≡ some (0, "{}" ∷ [])
unfolding run_main run_at exit_of
wakes_up = refl

-- Where stdout is a closed pipe the exit code is the same, and nothing is on stdout.
abbrev closed_pipe : Env
closed_pipe = record asleep { stdout_fault = some closed }

wakes_up_unseen : exit_of (run_at closed_pipe wake_up) ≡ some (0, [])
unfolding run_at exit_of
wakes_up_unseen = refl

-- `off` does not wake the TV: it is unreachable, with code 3 and nothing on stdout.
stays_off : exit_of (run_main switch_off) ≡ some (3, [])
unfolding run_main run_at exit_of
stays_off = refl

main-Exits_example :
    Ends
      (Prints closed_pipe 20 json world wake_up.command)
      (λ e t. IsErrorCode (exit_code e) × Reports closed_pipe 20 json world wake_up.command e t)
      (work closed_pipe 20 wake_up.command world)
main-Exits_example = main-Exits closed_pipe json 20 wake_up.command world

-- The error is that the TV is unreachable.
main-Tells_example :
    Ends (Ran asleep json (off target) world) (λ _ _. ⊥) (main asleep json 20 switch_off world)
main-Tells_example = main-Tells asleep json 20 (off target) world

run-MayWake_example :
    Ends
      (λ _ t. MayWake wake_up.command world t)
      (λ _ t. MayWake wake_up.command world t)
      (run asleep json 20 wake_up world)
run-MayWake_example = run-MayWake asleep json world 20 wake_up

main-ends_example : ¬ (main asleep json 20 wake_up world ≡ stuck)
main-ends_example =
    main-ends asleep json 9 asleep-IsFinite 14 20 (omega arith) (omega arith) wake_up world
      asleep-Advances

-- Both attempts and the wake-up go to the port 6466.
run-Reaches_example :
    Ends
      (λ _ t. Reaches (some target) (port wake_up.command) [] t)
      (λ _ t. Reaches (some target) (port wake_up.command) [] t)
      (run asleep json 20 wake_up world)
unfolding args
run-Reaches_example = run-Reaches asleep json world 20 wake_up

abbrev woken : PowerOutput
woken = record {
  timestamp = "2026-08-15T12:34:56+09:00";
  host = "192.0.2.10";
  power = "on";
  changed = true;
  wol = some true;
}

read_output-output_value_example :
    read_output (output_value (power_set woken)) ≡ some (power_set woken)
read_output-output_value_example = read_output-output_value (power_set woken)

abbrev rejected : AtvError
rejected = record { kind = auth_rejected; detail = "re-pair needed" }

read_error-error_value_example : read_error (error_value rejected) ≡ some rejected
read_error-error_value_example = read_error-error_value rejected
