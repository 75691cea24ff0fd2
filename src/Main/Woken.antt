-- ===== src/Main/Woken.antt =====
-- A run of `atv on` with a MAC, at a TV that is woken by it.
use atv.Base.{
  ℕ, ◌+◌, ◌<◌, ◌≡◌, refl, ap, ◌∙◌, true, false, Option, some, List, ◌∷◌, [], ◌++◌, length,
}
use atv.Proto.Remote.{RemoteMessage}
use atv.World.{Env, World}
use atv.World.Conn.{Conn}
use atv.World.Chat.{replies_to}
use atv.World.Speech.{told}
use atv.Cli.{on, OnArgs, port}
use atv.Session.Handshake.{new, handle}
use atv.Session.Power.{power_str}
use atv.Session.Wake.{set_power_with_wake}
use atv.Session.Wake.Woken.{Woken, set_power_with_wake-Woken}
use atv.Output.{Json, power_set}
use atv.Main.{run_command}
use atv.Main.Served.{Serves, served}

-- `on` with a MAC, where the session cannot be opened since the TV is unreachable, the magic packet
-- can be sent, the port is back after `n` refused connections and before the 15 seconds are over,
-- and the TV then says any messages but errors and, last, that it is on: with fuel beyond `n` and
-- the number of messages `main` exits with 0 and has printed, where stdout can be written, that the power is `on`, that it was
-- not changed by a key, and that a wake-up was sent; what it has sent on the connection is the
-- replies to the TV's messages, in their order, and no key.
pub main-Woken :
    (env : Env) (json : Json) (conn : Conn) (mac : List ℕ) (n fuel : ℕ) (w u : World)
    (msgs : List RemoteMessage) (m : RemoteMessage) (a : OnArgs)
    → a.mac ≡ some mac
    → Woken env conn a.target.host (port (on a)) mac n w u msgs m
    → n < fuel
    → length msgs + 1 < fuel
    → Serves env json fuel
        (on a)
        w
        (λ at. power_set (record {
          timestamp = at;
          host = a.target.host;
          power = power_str true;
          changed = false;
          wol = some true;
        }))
        (told env.remote conn.id (replies_to handle new (msgs ++ m ∷ [])) u.log)
unfolding run_command
main-Woken env json conn mac n fuel w u msgs m a e h enough beyond =
    let (at, t, run, log) =
      set_power_with_wake-Woken env conn a.target.host (port (on a)) mac n fuel w u msgs m h enough
        beyond in
    served env json fuel w (set_power_with_wake env fuel a.target.host (port (on a)) true a.mac)
      power_set (on a) _ at _ t _ refl refl
      (ap
          (λ (k : Option (List ℕ)).
            set_power_with_wake env fuel a.target.host (port (on a)) true k w)
          e
        ∙ run)
      log
