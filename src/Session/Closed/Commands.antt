-- ===== src/Session/Closed/Commands.antt =====
-- So do the commands, except where they wake the TV.
use atv.Base.{String, [], ◌∷◌, true, false, ℕ, zero, suc, ◌+◌, Bool, ◌||◌, none, List, ltb}
use atv.Base.Exec.{◌>>=◌, map_err, attempt, pure}
use atv.Base.Ends.{
  Keeps, Keeps-pure, Keeps-throw, Keeps-bind, Keeps-map_err, Keeps-attempt, Keeps-elim,
  Keeps-result,
}
use atv.Error.{AtvError}
use atv.World.{Env, World, IpAddr, sleep, note, read_timeout, instant_now, timestamp}
use atv.World.Conn.{Conn}
use atv.Tls.{connect_timeout}
use atv.Tls.Effects.{connect_timeout-Ends}
use atv.Session.Handshake.{SessionHandshake, power_key_message, key_message, app_link_message}
use atv.Session.Power.{
  PowerAttempt, send, press, press_power_once, retry, set_power, needs_power_key,
  should_retry_power_on, key_inject_grace, key_failed, pressed, power_on_retry_backoff,
}
use atv.Session.Wake.{poll_port, wait_for_port, still_unreachable}
use atv.World.Closed.{IsClosed}
use atv.Session.Closed.{send-Keeps, read_power-Keeps, await_power-Keeps}
use atv.Session.Commands.{
  status, send_key, send_all, send_keys, send_app_link, link_failed, keys_report, launch_report,
  key_interval, send_settle,
}

module _ (env : Env) {host : IpAddr} {port : ℕ} (P : World → Type 0) (C : IsClosed host port P)
    (fuel : ℕ) where
  sleep-Keeps : (ms : ℕ) → Keeps {E = AtvError} P (sleep ms)
  sleep-Keeps ms = record { at = λ w h. C.on_sleep w ms h }

  press-Keeps :
      (conn : Conn) (hs : SessionHandshake) (want_on : Bool)
      → Keeps P (press env fuel conn hs want_on)
  unfolding press
  press-Keeps conn hs want_on =
      Keeps-bind P (sleep key_inject_grace) _ (sleep-Keeps key_inject_grace) λ _.
        Keeps-bind P (map_err key_failed (send env conn power_key_message)) _
          (Keeps-map_err P key_failed _ (send-Keeps env P C conn power_key_message))
          λ _.
            Keeps-bind P (note (read_timeout 3000)) _ (record { at = λ w h. C.on_timeout w 3000 h })
              λ _.
                Keeps-bind P (instant_now env) _ (record { at = C.on_clock })
                  λ start.
                    Keeps-bind P _ (λ hs'. pure (pressed want_on hs'))
                      (await_power-Keeps env P C fuel conn (record hs { power = none }) want_on
                        (start + 5000))
                      λ hs'. Keeps-pure P (pressed want_on hs')

  pub press_power_once-Keeps :
      (want_on : Bool) → Keeps P (press_power_once env fuel host port want_on)
  unfolding press_power_once
  press_power_once-Keeps want_on = Keeps-bind P _ _ (read_power-Keeps env P C fuel) λ session.
      Keeps-elim P (needs_power_key session.power want_on) _ _
        (press-Keeps session.conn session.handshake want_on) (Keeps-pure P _)

  pub retry-Keeps :
      (left : ℕ) (want_on : Bool) (last : PowerAttempt) (changed : Bool)
      → Keeps P (retry env left fuel host port want_on last changed)
  unfolding retry
  retry-Keeps zero want_on last changed = Keeps-pure P _
  retry-Keeps (suc left) want_on last changed =
      Keeps-elim P (should_retry_power_on want_on last.observed) _ _
        (Keeps-bind P (sleep power_on_retry_backoff) _ (sleep-Keeps power_on_retry_backoff) λ _.
          Keeps-bind P (attempt (press_power_once env fuel host port want_on)) _
            (Keeps-attempt P _ (press_power_once-Keeps want_on))
            λ tried.
              Keeps-result P tried _ _ (λ e. Keeps-pure P (last, changed))
                (λ next. retry-Keeps left want_on next (changed || next.changed)))
        (Keeps-pure P (last, changed))

  pub set_power-Keeps : (want_on : Bool) → Keeps P (set_power env fuel host port want_on)
  unfolding set_power
  set_power-Keeps want_on = Keeps-bind P _ _ (press_power_once-Keeps want_on) λ a.
      Keeps-bind P _ _ (retry-Keeps 3 want_on a a.changed)
        λ last. record { at = λ w h. C.on_clock w h }

  poll_port-Keeps : (n deadline : ℕ) → Keeps P (poll_port env n host port deadline)
  unfolding poll_port
  poll_port-Keeps zero deadline = record { at = λ w h. tt }
  poll_port-Keeps (suc n) deadline =
      Keeps-bind P (instant_now env) _ (record { at = C.on_clock })
        λ now.
          Keeps-elim P (ltb now deadline) _ _
            (Keeps-bind P (attempt (connect_timeout env host port 1000)) _ (Keeps-attempt P _ tried)
              λ r.
                Keeps-result P r _ _
                  (λ e.
                    Keeps-bind P (sleep 500) _ (sleep-Keeps 500) λ _. poll_port-Keeps n deadline)
                  (λ conn. Keeps-pure P tt))
            (Keeps-throw P (still_unreachable env host port))
    where
      tried : Keeps P (connect_timeout env host port 1000)
      tried = record {
        at = connect_timeout-Ends env P P host port 1000 (λ w h. C.on_connect w 1000 h);
      }

  pub wait_for_port-Keeps : (budget : ℕ) → Keeps P (wait_for_port env fuel host port budget)
  unfolding wait_for_port
  wait_for_port-Keeps budget =
      Keeps-bind P (instant_now env) _ (record { at = C.on_clock })
        λ start. poll_port-Keeps fuel (start + budget)

  pub status-Keeps : Keeps P (status env fuel host port)
  unfolding status
  status-Keeps =
      Keeps-bind P _ _ (read_power-Keeps env P C fuel)
        λ session. record { at = λ w h. C.on_clock w h }

  send_key-Keeps : (conn : Conn) (code : ℕ) → Keeps P (send_key env conn code)
  unfolding send_key
  send_key-Keeps conn code = Keeps-map_err P _ _ (send-Keeps env P C conn (key_message code))

  send_all-Keeps :
      (conn : Conn) (is_first : Bool) (keys : List ℕ) → Keeps P (send_all env conn is_first keys)
  unfolding send_all
  send_all-Keeps conn is_first [] = Keeps-pure P tt
  send_all-Keeps conn true (code ∷ keys) =
      Keeps-bind P _ _ (send_key-Keeps conn code) λ _. send_all-Keeps conn false keys
  send_all-Keeps conn false (code ∷ keys) =
      Keeps-bind P (sleep key_interval) _ (sleep-Keeps key_interval)
        λ _. Keeps-bind P _ _ (send_key-Keeps conn code) λ _. send_all-Keeps conn false keys

  -- A command ends by asking for the time.
  stamp-Keeps :
      {A : Type 0} (report : String → A)
      → Keeps {E = AtvError} P (timestamp env >>= λ at. pure (report at))
  stamp-Keeps report = record { at = C.on_clock }

  pub send_keys-Keeps : (keys : List ℕ) → Keeps P (send_keys env fuel host port keys)
  unfolding send_keys
  send_keys-Keeps keys = Keeps-bind P _ _ (read_power-Keeps env P C fuel) λ session.
      Keeps-bind P (sleep key_inject_grace) _ (sleep-Keeps key_inject_grace) λ _.
        Keeps-bind P _ _ (send_all-Keeps session.conn true keys) λ _.
          Keeps-bind P (sleep send_settle) _ (sleep-Keeps send_settle)
            λ _. stamp-Keeps (keys_report env host keys)

  pub send_app_link-Keeps :
      (app_link : List ℕ) → Keeps P (send_app_link env fuel host port app_link)
  unfolding send_app_link
  send_app_link-Keeps app_link = Keeps-bind P _ _ (read_power-Keeps env P C fuel) λ session.
      Keeps-bind P (sleep key_inject_grace) _ (sleep-Keeps key_inject_grace) λ _.
        Keeps-bind P (map_err link_failed (send env session.conn (app_link_message app_link))) _
          (Keeps-map_err P link_failed _
            (send-Keeps env P C session.conn (app_link_message app_link)))
          λ _.
            Keeps-bind P (sleep send_settle) _ (sleep-Keeps send_settle)
              λ _. stamp-Keeps (launch_report host app_link)
