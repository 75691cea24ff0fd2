-- ===== src/Main/Datagrams.antt =====
-- Which command broadcasts, and what.
use atv.Base.{ℕ, ◌≡◌, refl, some, List, ◌∷◌, true, false, ◌⊎◌, inl, inr}
use atv.Base.Exec.{Exec, ◌>>=◌}
use atv.Base.Ends.{Ends, Ends-bind, Ends-mono, Keeps}
use atv.Error.{AtvError}
use atv.World.{IpAddr, Env, World}
use atv.World.Closed.{IsFree}
use atv.Wol.{magic_packet}
use atv.Pairing.Closed.{pair-Keeps}
use atv.Discover.Closed.{discover-Keeps}
use atv.Session.Power.{PowerOutput}
use atv.Session.Closed.Commands.{
  status-Keeps, set_power-Keeps, send_keys-Keeps, send_app_link-Keeps,
}
use atv.Session.Wake.{set_power_with_wake}
use atv.Session.Wake.Quiet.{datagrams, Quiet, Quiet-IsClosed}
use atv.Session.Wake.Outcome.{Wakes, WakeFails, set_power_with_wake-Wakes}
use atv.Cli.{Cli, Command, pair, status, on, off, key, launch, discover, OnArgs}
use atv.Cli
use atv.Output.{Output, Json, paired, power_state, power_set, keys_sent, launched, discovered}
use atv.Main.Emit.{shown-keeps, emit-Ends}
use atv.Main.{emit, run_command, run}

Quiet-IsFree : {host : IpAddr} {port : ℕ} (sofar : List (List ℕ)) → IsFree host port (Quiet sofar)
Quiet-IsFree sofar = record {
  closed = Quiet-IsClosed sofar;
  on_files = λ w files h. h;
  on_eprinted = λ w line h. h;
}

-- No datagram, or one magic packet for the MAC that was given to `on`.
abbrev pub MayWake : Command → World → World → Type 0
MayWake c w t =
    (datagrams t.log ≡ datagrams w.log)
    ⊎ ((args : OnArgs) × (c ≡ on args)
        × ((mac : List ℕ) × (args.mac ≡ some mac)
            × (datagrams t.log ≡ magic_packet mac ∷ datagrams w.log)))

module _ (env : Env) (json : Json) (w : World) where
  -- Printing the result is no datagram.
  emit-MayWake :
      {A : Type 0} (c : Command) (m : Exec World AtvError A) (as_output : A → Output)
      → Ends (λ _ t. MayWake c w t) (λ _ t. MayWake c w t) (m w)
      → Ends
          (λ _ t. MayWake c w t)
          (λ _ t. MayWake c w t)
          ((m >>= λ a. emit env json (as_output a)) w)
  emit-MayWake c m as_output h =
      let P = λ (t : World). MayWake c w t in
      Ends-bind (λ _ t. P t) (λ _ t. P t) (λ _ t. P t) m _ w h
        (λ a t k.
          emit-Ends env json (λ _ t. P t) (λ _ t. P t) (as_output a) t
            (shown-keeps env json (λ log. P (record t { log = log })) _ t.log k k))

  quiet :
      {A : Type 0} (c : Command) (m : Exec World AtvError A) (as_output : A → Output)
      → Keeps (Quiet (datagrams w.log)) m
      → Ends
          (λ _ t. MayWake c w t)
          (λ _ t. MayWake c w t)
          ((m >>= λ a. emit env json (as_output a)) w)
  quiet c m as_output kept = emit-MayWake c m as_output (
      Ends-mono (λ _ t. Quiet (datagrams w.log) t) (λ _ t. MayWake c w t)
        (λ _ t. Quiet (datagrams w.log) t) (λ _ t. MayWake c w t) (m w) (λ a t k. inl k)
        (λ e t k. inl k) (kept.at w refl))

  woken :
      (args : OnArgs) (out : PowerOutput) (t : World)
      → Wakes env true args.mac w out t
      → MayWake (on args) w t
  woken args out t (inl h) = inl h.1
  woken args out t (inr (mac, e, _, _, h)) = inr (args, refl, (mac, e, h))

  unwoken :
      (args : OnArgs) (e : AtvError) (t : World)
      → WakeFails env true args.mac w e t
      → MayWake (on args) w t
  unwoken args e t (inl h) = inl h.0
  unwoken args e t (inr (mac, f, _, h)) = inr (args, refl, (mac, f, h))

  run_command-MayWake :
      (fuel port : ℕ) (c : Command)
      → Ends (λ _ t. MayWake c w t) (λ _ t. MayWake c w t) (run_command env json fuel port c w)
  unfolding run_command
  run_command-MayWake fuel port (pair args) =
      quiet (pair args) _ paired (pair-Keeps env _ (Quiet-IsFree (datagrams w.log)) fuel)
  run_command-MayWake fuel port (status args) =
      quiet (status args) _ power_state (status-Keeps env _ (Quiet-IsClosed (datagrams w.log)) fuel)
  run_command-MayWake fuel port (on args) =
      emit-MayWake (on args) (set_power_with_wake env fuel args.target.host port true args.mac)
        power_set
        (Ends-mono (Wakes env true args.mac w) (λ _ t. MayWake (on args) w t)
          (WakeFails env true args.mac w) (λ _ t. MayWake (on args) w t)
          (set_power_with_wake env fuel args.target.host port true args.mac w)
          (λ out t. woken args out t) (λ e t. unwoken args e t)
          (set_power_with_wake-Wakes env fuel args.target.host port true args.mac w))
  run_command-MayWake fuel port (off args) =
      quiet (off args) _ power_set
        (set_power-Keeps env _ (Quiet-IsClosed (datagrams w.log)) fuel false)
  run_command-MayWake fuel port (key args) =
      quiet (key args) _ keys_sent
        (send_keys-Keeps env _ (Quiet-IsClosed (datagrams w.log)) fuel args.keys)
  run_command-MayWake fuel port (launch args) =
      quiet (launch args) _ launched
        (send_app_link-Keeps env _ (Quiet-IsClosed (datagrams w.log)) fuel args.app_link)
  run_command-MayWake fuel port (discover args) =
      quiet (discover args) _ discovered
        (discover-Keeps env (Quiet (datagrams w.log)) (λ _ h. h) (λ _ _ h. h) fuel args.timeout)

  -- No command broadcasts anything, except that `on` with a MAC may send one magic packet for it,
  -- whether the command succeeds or fails.
  pub run-MayWake :
      (fuel : ℕ) (cli : Cli)
      → Ends
          (λ _ t. MayWake cli.command w t)
          (λ _ t. MayWake cli.command w t)
          (run env json fuel cli w)
  unfolding run
  run-MayWake fuel cli = run_command-MayWake fuel (Cli.port cli.command) cli.command
