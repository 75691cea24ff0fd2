-- ===== src/Main/Connections.antt =====
-- Where the commands connect to.
use atv.Base.{
  ℕ, suc, ◌≡◌, refl, ap, String, Option, none, some, List, [], ◌∷◌, ◌++◌, replicate, true, false,
}
use atv.Base.Exec.{Exec, ◌>>=◌}
use atv.Base.Ends.{Ends, Keeps, Keeps-bind}
use atv.Error.{AtvError}
use atv.World.{Env, World, Event, IpAddr, connecting, printed}
use atv.World.Closed.{IsFree}
use atv.Pairing.Closed.{pair-Keeps}
use atv.Discover.Closed.{discover-Keeps}
use atv.Session.Closed.Commands.{
  status-Keeps, set_power-Keeps, send_keys-Keeps, send_app_link-Keeps,
}
use atv.Session.Closed.Waking.{set_power_with_wake-Keeps}
use atv.Cli.{Cli, Command, pair, status, on, off, key, launch, discover, args, HostArgs}
use atv.Cli
use atv.Output.{
  Output, Json, paired, power_state, power_set, keys_sent, launched, discovered, of_output,
}
use atv.Main.Emit.{shown-keeps, emit-Ends}
use atv.Main.{emit, run_command, run}

-- The connections tried so far, the newest first.
abbrev pub targets : List Event → List (IpAddr × ℕ)
targets [] = []
targets (connecting host port ms ∷ log) = (host, port) ∷ targets log
targets (_ ∷ log) = targets log

-- Only that port of that host was tried since.
abbrev pub Only : IpAddr → ℕ → List (IpAddr × ℕ) → World → Type 0
Only host port before w = (n : ℕ) × (targets w.log ≡ replicate n (host, port) ++ before)

Only-IsFree :
    (host : IpAddr) (port : ℕ) (before : List (IpAddr × ℕ))
    → IsFree host port (Only host port before)
Only-IsFree host port before = record {
  closed = record {
    on_read = λ w h. h;
    on_fault = λ w h. h;
    on_sent = λ w id bs h. h;
    on_connect = λ w ms (n, e). (suc n, ap (λ log. (host, port) ∷ log) e);
    on_sleep = λ w ms h. h;
    on_timeout = λ w ms h. h;
    on_clock = λ w h. h;
  };
  on_files = λ w files h. h;
  on_eprinted = λ w line h. h;
}

-- A command with a host tries only the port of that host; `discover` tries none.
abbrev pub Reaches : Option HostArgs → ℕ → List (IpAddr × ℕ) → World → Type 0
Reaches (some given) port before w = Only given.host port before w
Reaches none port before w = targets w.log ≡ before

Reaches-start :
    (given : Option HostArgs) (port : ℕ) (w : World) → Reaches given port (targets w.log) w
Reaches-start none port w = refl
Reaches-start (some given) port w = (0, refl)

module _ (env : Env) (json : Json) (w : World) where
  emit-Keeps :
      {A : Type 0} (P : World → Type 0) (m : Exec World AtvError A) (as_output : A → Output)
      → ((t : World) (line : String) → P t → P (record t { log = printed line ∷ t.log }))
      → Keeps P m
      → Keeps P (m >>= λ a. emit env json (as_output a))
  emit-Keeps P m as_output on_printed kept =
      Keeps-bind P m (λ a. emit env json (as_output a)) kept
        λ a. record {
          at = λ t h.
              emit-Ends env json (λ _ t. P t) (λ _ t. P t) (as_output a) t
                (shown-keeps env json (λ log. P (record t { log = log })) _ t.log h
                  (on_printed t (of_output json (as_output a)) h));
        }

  run_command-Reaches :
      (fuel port : ℕ) (c : Command)
      → Keeps (Reaches (args c) port (targets w.log)) (run_command env json fuel port c)
  unfolding run_command args
  run_command-Reaches fuel port (pair a) =
      let F = Only-IsFree a.host port (targets w.log) in
      emit-Keeps _ _ paired (λ t line h. h) (pair-Keeps env _ F fuel)
  run_command-Reaches fuel port (status a) =
      let F = Only-IsFree a.host port (targets w.log) in
      emit-Keeps _ _ power_state (λ t line h. h) (status-Keeps env _ F.closed fuel)
  run_command-Reaches fuel port (on a) =
      let F = Only-IsFree a.target.host port (targets w.log) in
      emit-Keeps _ _ power_set (λ t line h. h)
        (set_power_with_wake-Keeps env _ F.closed (λ t _ _ _ h. h) fuel true a.mac)
  run_command-Reaches fuel port (off a) =
      let F = Only-IsFree a.host port (targets w.log) in
      emit-Keeps _ _ power_set (λ t line h. h) (set_power-Keeps env _ F.closed fuel false)
  run_command-Reaches fuel port (key a) =
      let F = Only-IsFree a.target.host port (targets w.log) in
      emit-Keeps _ _ keys_sent (λ t line h. h) (send_keys-Keeps env _ F.closed fuel a.keys)
  run_command-Reaches fuel port (launch a) =
      let F = Only-IsFree a.target.host port (targets w.log) in
      emit-Keeps _ _ launched (λ t line h. h) (send_app_link-Keeps env _ F.closed fuel a.app_link)
  run_command-Reaches fuel port (discover a) =
      emit-Keeps (λ t. targets t.log ≡ targets w.log) _ discovered (λ t line h. h)
        (discover-Keeps env (λ t. targets t.log ≡ targets w.log) (λ _ h. h) (λ _ _ h. h) fuel
          a.timeout)

  -- A command connects to nothing but the host of its arguments, at the port that `Command::port`
  -- gives, however it ends, and `discover` connects to nothing.
  pub run-Reaches :
      (fuel : ℕ) (cli : Cli)
      → Ends
          (λ _ t. Reaches (args cli.command) (Cli.port cli.command) (targets w.log) t)
          (λ _ t. Reaches (args cli.command) (Cli.port cli.command) (targets w.log) t)
          (run env json fuel cli w)
  unfolding run
  run-Reaches fuel cli =
      (run_command-Reaches fuel (Cli.port cli.command) cli.command).at w
        (Reaches-start (args cli.command) (Cli.port cli.command) w)
