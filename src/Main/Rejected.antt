-- ===== src/Main/Rejected.antt =====
-- A TV that cannot be read from the beginning.
use atv.Base.{ℕ, suc, ◌≡◌, refl, ◌∙◌, Bool, true, false, Option, none, some, List, ◌∷◌}
use atv.Base.Exec.{
  Exec, err, returns, fails, lift, attempt, map_err, bind-returns, bind-fails, attempt-fails,
  map_err-fails, ◌>>=◌,
}
use atv.Error.{AtvError, auth_rejected, exit_code, exit_code_of}
use atv.Stream.{IoError}
use atv.World.{Env, World, IpAddr, eprinted}
use atv.World.Conn.{Conn}
use atv.Cli.{Command, status, on, off, key, launch, HostArgs, OnArgs, KeyArgs, LaunchArgs, port}
use atv.Session.Handshake.{new, map_session_read_error}
use atv.Session.Power.{
  receive, read_round, read_power_loop, open_session, read_power, press_power_once, set_power,
}
use atv.Session.Wake.{set_power_with_wake, is_unreachable}
use atv.Session.Commands
use atv.Session.Commands.{send_keys, send_app_link}
use atv.Output.{Json, of_error}
use atv.Main.{run_command, run, main}

-- The commands that open a session, with their host.
pub data IsSession : Command → HostArgs → Type 0 where
  status_of : (a : HostArgs) → IsSession (status a) a
  off_of : (a : HostArgs) → IsSession (off a) a
  on_of : (a : OnArgs) → IsSession (on a) a.target
  key_of : (a : KeyArgs) → IsSession (key a) a.target
  launch_of : (a : LaunchArgs) → IsSession (launch a) a.target

-- What is reported.
abbrev pub rejection : IoError → AtvError
rejection x = map_session_read_error x false

module _ (env : Env) (json : Json) (conn : Conn) (fuel : ℕ) (w u v : World) (x : IoError) where
  module _ (host : IpAddr) (port : ℕ) (opens : open_session env host port w ≡ returns conn u)
      (broken : receive env conn u ≡ fails x v) where
    read_power-rejected : read_power env (suc fuel) host port w ≡ fails (rejection x) v
    unfolding read_power read_power_loop read_round
    read_power-rejected =
        bind-returns (open_session env host port) _ w u conn opens
        ∙ bind-fails (read_round env conn new false) _ u v (rejection x) (
            bind-fails (map_err (λ e. map_session_read_error e false) (receive env conn)) _ u v
              (rejection x)
              (map_err-fails (λ e. map_session_read_error e false) (receive env conn) u v x broken))

    set_power-rejected :
        (want_on : Bool) → set_power env (suc fuel) host port want_on w ≡ fails (rejection x) v
    unfolding set_power press_power_once
    set_power-rejected want_on =
        bind-fails (press_power_once env (suc fuel) host port want_on) _ w v (rejection x)
          (bind-fails (read_power env (suc fuel) host port) _ w v (rejection x) read_power-rejected)

    -- It is no reason to wake the TV.
    set_power_with_wake-rejected :
        (want_on : Bool) (mac : Option (List ℕ))
        → set_power_with_wake env (suc fuel) host port want_on mac w ≡ fails (rejection x) v
    unfolding set_power_with_wake is_unreachable map_session_read_error
    set_power_with_wake-rejected want_on none =
        bind-returns (attempt (set_power env (suc fuel) host port want_on)) lift w v
          (err (rejection x))
          (attempt-fails (set_power env (suc fuel) host port want_on) w v (rejection x)
            (set_power-rejected want_on))
    set_power_with_wake-rejected true (some bytes) =
        bind-returns (attempt (set_power env (suc fuel) host port true)) _ w v (err (rejection x)) (
          attempt-fails (set_power env (suc fuel) host port true) w v (rejection x)
            (set_power-rejected true))
    set_power_with_wake-rejected false (some bytes) =
        bind-returns (attempt (set_power env (suc fuel) host port false)) _ w v (err (rejection x))
          (attempt-fails (set_power env (suc fuel) host port false) w v (rejection x)
            (set_power-rejected false))

    status-rejected : Commands.status env (suc fuel) host port w ≡ fails (rejection x) v
    unfolding Commands.status
    status-rejected =
        bind-fails (read_power env (suc fuel) host port) _ w v (rejection x) read_power-rejected

    send_keys-rejected :
        (keys : List ℕ) → send_keys env (suc fuel) host port keys w ≡ fails (rejection x) v
    unfolding send_keys
    send_keys-rejected keys =
        bind-fails (read_power env (suc fuel) host port) _ w v (rejection x) read_power-rejected

    send_app_link-rejected :
        (link : List ℕ) → send_app_link env (suc fuel) host port link w ≡ fails (rejection x) v
    unfolding send_app_link
    send_app_link-rejected link =
        bind-fails (read_power env (suc fuel) host port) _ w v (rejection x) read_power-rejected

  -- A command of which a part fails fails as the part does.
  emit-fails :
      {A : Type 0} (m : Exec World AtvError A) (f : A → Exec World AtvError (Unit {0}))
      → m w ≡ fails (rejection x) v
      → (m >>= f) w ≡ fails (rejection x) v
  emit-fails m f e = bind-fails m f w v (rejection x) e

  run_command-rejected :
      (c : Command) (target : HostArgs)
      → IsSession c target
      → open_session env target.host (port c) w ≡ returns conn u
      → receive env conn u ≡ fails x v
      → run_command env json (suc fuel) (port c) c w ≡ fails (rejection x) v
  unfolding run_command
  run_command-rejected _ _ (status_of a) opens broken =
      emit-fails (Commands.status env (suc fuel) a.host (port (status a))) _
        (status-rejected a.host (port (status a)) opens broken)
  run_command-rejected _ _ (off_of a) opens broken =
      emit-fails (set_power env (suc fuel) a.host (port (off a)) false) _
        (set_power-rejected a.host (port (off a)) opens broken false)
  run_command-rejected _ _ (on_of a) opens broken =
      emit-fails (set_power_with_wake env (suc fuel) a.target.host (port (on a)) true a.mac) _
        (set_power_with_wake-rejected a.target.host (port (on a)) opens broken true a.mac)
  run_command-rejected _ _ (key_of a) opens broken =
      emit-fails (send_keys env (suc fuel) a.target.host (port (key a)) a.keys) _
        (send_keys-rejected a.target.host (port (key a)) opens broken a.keys)
  run_command-rejected _ _ (launch_of a) opens broken =
      emit-fails (send_app_link env (suc fuel) a.target.host (port (launch a)) a.app_link) _
        (send_app_link-rejected a.target.host (port (launch a)) opens broken a.app_link)

  -- A command that has opened its session and whose first read fails, for whatever reason, a timeout
  -- among them, exits with 4: all that it does behind this read is to report the error
  -- auth_rejected, so that `on` does not wake the TV either.
  pub main-Rejected :
      (c : Command) (target : HostArgs)
      → IsSession c target
      → open_session env target.host (port c) w ≡ returns conn u
      → receive env conn u ≡ fails x v
      → (e : AtvError) × (e.kind ≡ auth_rejected)
        × (main env json (suc fuel) (record { command = c }) w
            ≡ returns 4 (record v { log = eprinted (of_error json e) ∷ v.log }))
  unfolding main run exit_code exit_code_of map_session_read_error
  main-Rejected c target s opens broken = (
    rejection x,
    refl,
    bind-returns (attempt (run env json (suc fuel) (record { command = c }))) _ w v
        (err (rejection x))
        (attempt-fails (run_command env json (suc fuel) (port c) c) w v (rejection x)
          (run_command-rejected c target s opens broken)),
  )
