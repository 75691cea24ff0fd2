-- ===== src/Session/Commands/Tells.antt =====
-- What the kind of an error tells where `status`, `key` or `launch` fails.
use atv.Base.{ℕ, Bool, true, false, List, [], ◌∷◌, refl}
use atv.Base.Exec.{map_err}
use atv.Base.Ends.{Ends}
use atv.Base.Only.{Only, Only-pure, Only-bind, Only-map_err}
use atv.World.{Env, World, IpAddr, sleep, timestamp}
use atv.World.Conn.{Conn}
use atv.Session.Handshake.{key_message, app_link_message}
use atv.Session.Handshake.Kinds.{IsProtocol}
use atv.Session.Power.{send, read_power, key_inject_grace, power_str}
use atv.Tls.Fails.{Accepted}
use atv.Session.Power.Tells.{Tells, read_power-Tells, then-Tells}
use atv.Session.Commands.{
  status, send_key, send_all, send_keys, send_app_link, link_failed, keys_report, launch_report,
  key_interval, send_settle,
}

module _ (env : Env) where
  send_key-Only : (conn : Conn) (code : ℕ) → Only IsProtocol (send_key env conn code)
  unfolding send_key
  send_key-Only conn code = Only-map_err IsProtocol _ (send env conn (key_message code)) (λ _. refl)

  send_all-Only :
      (conn : Conn) (is_first : Bool) (keys : List ℕ)
      → Only IsProtocol (send_all env conn is_first keys)
  unfolding send_all
  send_all-Only conn is_first [] = Only-pure IsProtocol tt
  send_all-Only conn true (code ∷ keys) =
      Only-bind IsProtocol (send_key env conn code) _ (send_key-Only conn code)
        λ _. send_all-Only conn false keys
  send_all-Only conn false (code ∷ keys) =
      Only-bind IsProtocol (sleep key_interval) _ (record { at = λ w. tt })
        λ _.
          Only-bind IsProtocol (send_key env conn code) _ (send_key-Only conn code)
            λ _. send_all-Only conn false keys

  module _ (host : IpAddr) (port fuel : ℕ) (w : World) where
    pub status-Tells :
        Ends
          (λ _ _. Accepted env host port w)
          (λ e u. Tells env host port e.kind w u)
          (status env fuel host port w)
    unfolding status
    status-Tells =
        then-Tells env host port (read_power env fuel host port) _ w
          (read_power-Tells env host port fuel w)
          λ session.
            Only-bind IsProtocol (timestamp env) _ (record { at = λ w. tt })
              λ at.
                Only-pure IsProtocol
                  (record { timestamp = at; host = host; power = power_str session.power })

    pub send_keys-Tells :
        (keys : List ℕ)
        → Ends
            (λ _ _. Accepted env host port w)
            (λ e u. Tells env host port e.kind w u)
            (send_keys env fuel host port keys w)
    unfolding send_keys
    send_keys-Tells keys =
        then-Tells env host port (read_power env fuel host port) _ w
          (read_power-Tells env host port fuel w)
          λ session.
            Only-bind IsProtocol (sleep key_inject_grace) _ (record { at = λ w. tt })
              λ _.
                Only-bind IsProtocol (send_all env session.conn true keys) _
                  (send_all-Only session.conn true keys)
                  λ _.
                    Only-bind IsProtocol (sleep send_settle) _ (record { at = λ w. tt })
                      λ _.
                        Only-bind IsProtocol (timestamp env) _ (record { at = λ w. tt })
                          λ at. Only-pure IsProtocol (keys_report env host keys at)

    pub send_app_link-Tells :
        (app_link : List ℕ)
        → Ends
            (λ _ _. Accepted env host port w)
            (λ e u. Tells env host port e.kind w u)
            (send_app_link env fuel host port app_link w)
    unfolding send_app_link
    send_app_link-Tells app_link =
        then-Tells env host port (read_power env fuel host port) _ w
          (read_power-Tells env host port fuel w)
          λ session.
            let sending = send env session.conn (app_link_message app_link) in
            Only-bind IsProtocol (sleep key_inject_grace) _ (record { at = λ w. tt })
              λ _.
                Only-bind IsProtocol (map_err link_failed sending) _
                  (Only-map_err IsProtocol link_failed sending (λ _. refl))
                  λ _.
                    Only-bind IsProtocol (sleep send_settle) _ (record { at = λ w. tt })
                      λ _.
                        Only-bind IsProtocol (timestamp env) _ (record { at = λ w. tt })
                          λ at. Only-pure IsProtocol (launch_report host app_link at)
