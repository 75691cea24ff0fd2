-- ===== src/Session/Commands/Ending.antt =====
-- `status`, `key` and `launch` come to an end.
use atv.Base.{String, ℕ, ◌<◌, Bool, true, false, List, [], ◌∷◌}
use atv.Base.Exec.{map_err, pure, ◌>>=◌}
use atv.Base.Halts.{Halting, Halting-bind, Halting-map_err, Halting-pure}
use atv.Error.{AtvError}
use atv.World.{Env, IpAddr, sleep, timestamp}
use atv.World.Conn.{Conn}
use atv.Session.Handshake.{key_message, app_link_message}
use atv.Session.Power.{send, key_inject_grace}
use atv.Session.Power.Rounds.{send-Halting}
use atv.Session.Power.Loops.{IsFinite}
use atv.Session.Power.Ending.{read_power-Halting}
use atv.Session.Commands.{
  status, send_key, send_all, send_keys, send_app_link, link_failed, key_interval, send_settle,
  keys_report, launch_report,
}

module _ (env : Env) (bound : ℕ) (finite : IsFinite env bound) (fuel : ℕ)
    (enough : bound < fuel) where
  sleep-Halting : (ms : ℕ) → Halting {E = AtvError} (sleep ms)
  sleep-Halting ms = record { at = λ w. tt }

  stamp-Halting :
      {A : Type 0} (report : String → A)
      → Halting {E = AtvError} (timestamp env >>= λ at. pure (report at))
  stamp-Halting report = record { at = λ w. tt }

  pub status-Halting : (host : IpAddr) (port : ℕ) → Halting (status env fuel host port)
  unfolding status
  status-Halting host port =
      Halting-bind _ _ (read_power-Halting env bound finite fuel enough host port)
        λ session. record { at = λ w. tt }

  send_key-Halting : (conn : Conn) (code : ℕ) → Halting (send_key env conn code)
  unfolding send_key
  send_key-Halting conn code = Halting-map_err _ _ (send-Halting env conn (key_message code))

  send_all-Halting :
      (conn : Conn) (is_first : Bool) (keys : List ℕ) → Halting (send_all env conn is_first keys)
  unfolding send_all
  send_all-Halting conn is_first [] = Halting-pure tt
  send_all-Halting conn true (code ∷ keys) =
      Halting-bind _ _ (send_key-Halting conn code) λ _. send_all-Halting conn false keys
  send_all-Halting conn false (code ∷ keys) =
      Halting-bind (sleep key_interval) _ (sleep-Halting key_interval)
        λ _. Halting-bind _ _ (send_key-Halting conn code) λ _. send_all-Halting conn false keys

  pub send_keys-Halting :
      (host : IpAddr) (port : ℕ) (keys : List ℕ) → Halting (send_keys env fuel host port keys)
  unfolding send_keys
  send_keys-Halting host port keys =
      Halting-bind _ _ (read_power-Halting env bound finite fuel enough host port) λ session.
        Halting-bind (sleep key_inject_grace) _ (sleep-Halting key_inject_grace) λ _.
          Halting-bind _ _ (send_all-Halting session.conn true keys) λ _.
            Halting-bind (sleep send_settle) _ (sleep-Halting send_settle)
              λ _. stamp-Halting (keys_report env host keys)

  pub send_app_link-Halting :
      (host : IpAddr) (port : ℕ) (app_link : List ℕ)
      → Halting (send_app_link env fuel host port app_link)
  unfolding send_app_link
  send_app_link-Halting host port app_link =
      Halting-bind _ _ (read_power-Halting env bound finite fuel enough host port) λ session.
        Halting-bind (sleep key_inject_grace) _ (sleep-Halting key_inject_grace) λ _.
          Halting-bind (map_err link_failed (send env session.conn (app_link_message app_link))) _
            (Halting-map_err link_failed _
              (send-Halting env session.conn (app_link_message app_link)))
            λ _.
              Halting-bind (sleep send_settle) _ (sleep-Halting send_settle)
                λ _. stamp-Halting (launch_report host app_link)
