-- ===== src/Main/Served.antt =====
-- A run of the program from the command line to its exit, at a TV that goes through its dialogue.
use mathlib.Core.Path.{subst}
use atv.Base.{
  ℕ, ◌+◌, ◌++◌, [], arith, length-append, ◌<◌, ◌≡◌, refl, ap, ◌∙◌, String, Bool, true, false,
  Option, none, some, List, ◌∷◌, length,
}
use atv.Base.Exec.{Exec, ok, returns, bind-returns, attempt, attempt-returns, ◌>>=◌}
use atv.Error.{AtvError}
use atv.Framing.{frame}
use atv.Proto.Remote.{RemoteMessage}
use atv.World.{Env, World, Event, IpAddr, sent, slept}
use atv.World.Conn.{Conn}
use atv.World.Chat.{replies_to}
use atv.World.Speech.{told}
use atv.Cli.{Command, status, on, off, key, launch, HostArgs, OnArgs, KeyArgs, LaunchArgs, port}
use atv.Session.Handshake.{SessionHandshake, new, handle, app_link_message}
use atv.Session.Power.{PowerOutput, key_inject_grace, power_str, set_power}
use atv.Session.Power.Dialogue.{Reaches}
use atv.Session.Power.Started.{Starts, Starts-Reaches}
use atv.Session.Power.Switch.{set_power-Reaches}
use atv.Session.Wake.{set_power_with_wake}
use atv.Session.Commands
use atv.Session.Commands.{send_settle, keys_report, launch_report, send_keys, send_app_link}
use atv.Session.Commands.Order.{typed}
use atv.Session.Commands.Served.{status-Reaches, send_keys-Reaches, send_app_link-Reaches}
use atv.Output.{Output, Json, of_output, power_state, power_set, keys_sent, launched}
use atv.Main.Emit.{shown, main-emits}
use atv.Main.{emit, run_command, run, main}

-- What the commands do on a connection whose TV has said its power: the host, what is printed at a
-- time, and what is done after the dialogue.
pub data Does (env : Env) (conn : Conn) (power : Bool)
    : Command → HostArgs → (String → Output) → (List Event → List Event) → Type 0 where
  reports :
      (a : HostArgs)
      → Does env conn power
          (status a)
          a
          (λ at. power_state (record { timestamp = at; host = a.host; power = power_str power }))
          (λ log. log)
  types :
      (a : KeyArgs)
      → Does env conn power
          (key a)
          a.target
          (λ at. keys_sent (keys_report env a.target.host a.keys at))
          (λ log. slept send_settle ∷ typed env conn true a.keys (slept key_inject_grace ∷ log))
  opens :
      (a : LaunchArgs)
      → Does env conn power
          (launch a)
          a.target
          (λ at. launched (launch_report a.target.host a.app_link at))
          (λ log.
            slept send_settle
            ∷ sent conn.id (frame env.remote (app_link_message a.app_link))
            ∷ slept key_inject_grace
            ∷ log)
  is_on :
      (a : OnArgs)
      → power ≡ true
      → Does env conn power
          (on a)
          a.target
          (λ at. power_set (record {
            timestamp = at;
            host = a.target.host;
            power = power_str true;
            changed = false;
            wol = none;
          }))
          (λ log. log)
  is_off :
      (a : HostArgs)
      → power ≡ false
      → Does env conn power
          (off a)
          a
          (λ at. power_set (record {
            timestamp = at;
            host = a.host;
            power = power_str false;
            changed = false;
            wol = none;
          }))
          (λ log. log)

module _ (env : Env) (json : Json) where
  -- A TV that answers is not woken.
  set_power_with_wake-returns :
      (fuel : ℕ) (host : IpAddr) (port : ℕ) (want_on : Bool) (mac : Option (List ℕ)) (w t : World)
      (out : PowerOutput)
      → set_power env fuel host port want_on w ≡ returns out t
      → set_power_with_wake env fuel host port want_on mac w ≡ returns out t
  unfolding set_power_with_wake
  set_power_with_wake-returns fuel host port want_on none w t out e =
      bind-returns (attempt (set_power env fuel host port want_on)) _ w t (ok out)
        (attempt-returns (set_power env fuel host port want_on) w t out e)
  set_power_with_wake-returns fuel host port want_on (some bytes) w t out e =
      bind-returns (attempt (set_power env fuel host port want_on)) _ w t (ok out)
        (attempt-returns (set_power env fuel host port want_on) w t out e)

  -- What `main` ends with: the output of some time on stdout, where
  -- stdout can be written, after what the command does.
  abbrev pub Serves : ℕ → Command → World → (String → Output) → List Event → Type 0
  Serves fuel c w out log =
      (at : String) × (t : World) × (main env json fuel (record { command = c }) w ≡ returns 0 t)
      × (t.log ≡ shown env json (of_output json (out at)) log)

  pub served :
      {A : Type 0} (fuel : ℕ) (w : World) (m : Exec World AtvError A) (as_output : A → Output)
      (c : Command) (out : String → Output) (at : String) (a : A) (t : World) (log : List Event)
      → run_command env json fuel (port c) c ≡ (m >>= λ a. emit env json (as_output a))
      → as_output a ≡ out at
      → m w ≡ returns a t
      → t.log ≡ log
      → Serves fuel c w out log
  served fuel w m as_output c out at a t log shape same e f = (
    at,
    record t { log = shown env json (of_output json (as_output a)) t.log },
    main-emits env json m as_output fuel c w t a shape e,
    ap (λ o. shown env json (of_output json o) t.log) same
        ∙ ap (λ log. shown env json (of_output json (out at)) log) f,
  )

  module _ (conn : Conn) (fuel : ℕ) (w u : World) (msgs : List RemoteMessage)
      (answers : List (Option RemoteMessage)) (hs : SessionHandshake) where
    main-Does :
        (power : Bool) (c : Command) (target : HostArgs) (out : String → Output)
        (doing : List Event → List Event)
        → Does env conn power c target out doing
        → Reaches env conn target.host (port c) w u msgs answers hs power
        → length msgs < fuel
        → Serves fuel c w out (doing (told env.remote conn.id answers u.log))
    unfolding run_command
    main-Does power _ _ _ _ (reports a) r enough =
        let (at, t, e, log) =
          status-Reaches env conn fuel a.host (port (status a)) w u msgs answers hs power r
            enough in
        served fuel w (Commands.status env fuel a.host (port (status a))) power_state (status a) _
          at _ t _ refl refl e log
    main-Does power _ _ _ _ (types a) r enough =
        let (at, t, e, log) =
          send_keys-Reaches env conn fuel a.target.host (port (key a)) w u msgs answers hs power r
            enough a.keys in
        served fuel w (send_keys env fuel a.target.host (port (key a)) a.keys) keys_sent (key a) _
          at _ t _ refl refl e log
    main-Does power _ _ _ _ (opens a) r enough =
        let (at, t, e, log) =
          send_app_link-Reaches env conn fuel a.target.host (port (launch a)) w u msgs answers hs
            power r enough a.app_link in
        served fuel w (send_app_link env fuel a.target.host (port (launch a)) a.app_link) launched
          (launch a) _ at _ t _ refl refl e log
    main-Does power _ _ _ _ (is_on a e) r enough =
        let (at, t, run, log) =
          set_power-Reaches env conn fuel a.target.host (port (on a)) w u msgs answers hs true
            (subst (λ b. Reaches env conn a.target.host (port (on a)) w u msgs answers hs b) e r)
            enough in
        served fuel w (set_power_with_wake env fuel a.target.host (port (on a)) true a.mac)
          power_set (on a) _ at _ t _ refl refl
          (set_power_with_wake-returns fuel a.target.host (port (on a)) true a.mac w t _ run) log
    main-Does power _ _ _ _ (is_off a e) r enough =
        let (at, t, run, log) =
          set_power-Reaches env conn fuel a.host (port (off a)) w u msgs answers hs false
            (subst (λ b. Reaches env conn a.host (port (off a)) w u msgs answers hs b) e r)
            enough in
        served fuel w (set_power env fuel a.host (port (off a)) false) power_set (off a) _ at _ t _
          refl refl run log

  -- `status`, `key`, `launch`, and `on` and `off` where nothing is to be done, against a TV that is
  -- reached and that says any messages but errors and then its power state: with fuel beyond the
  -- number of messages `main` exits with 0, has printed the output that the TV's state and the
  -- arguments give, where stdout can be written, and has sent the replies to the TV's messages and what the command sends, in
  -- their order.
  pub main-Starts :
      (conn : Conn) (fuel : ℕ) (w u : World) (msgs : List RemoteMessage) (m : RemoteMessage)
      (power : Bool) (c : Command) (target : HostArgs) (out : String → Output)
      (doing : List Event → List Event)
      → Does env conn power c target out doing
      → Starts env conn target.host (port c) w u msgs m power
      → length msgs + 1 < fuel
      → Serves fuel c w out
          (doing (told env.remote conn.id (replies_to handle new (msgs ++ m ∷ [])) u.log))
  main-Starts conn fuel w u msgs m power c target out doing d s enough =
      let (last, r) = Starts-Reaches env conn target.host (port c) w u msgs m power s in
      main-Does conn fuel w u (msgs ++ m ∷ []) (replies_to handle new (msgs ++ m ∷ [])) last power c
        target out doing d r (omega (arith, length-append msgs (m ∷ [])))
