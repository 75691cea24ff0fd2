-- ===== src/Session/Commands/Served.antt =====
-- `status`, `key` and `launch` at a TV that goes through its dialogue.
use atv.Base.{
  ℕ, suc, ◌<◌, ◌≡◌, refl, ap, ◌∙◌, String, Bool, true, false, Option, none, some, List, [], ◌∷◌,
  length,
}
use atv.Base.Exec.{returns, bind-returns, map_err-returns, map_err}
use atv.Framing.{frame}
use atv.Proto.Remote.{RemoteMessage}
use atv.World.{Env, World, IpAddr, sent, slept}
use atv.World.Conn.{Conn}
use atv.World.Speech.{answered, told, write_message-written}
use atv.Session.Handshake.{SessionHandshake, key_message, app_link_message}
use atv.Session.Power.{key_inject_grace, power_str, send, read_power}
use atv.Session.Power.Dialogue.{Reaches, read_power-Reaches}
use atv.Session.Commands.{
  status, send_key, send_all, send_keys, send_app_link, key_interval, send_settle, keys_report,
  launch_report, link_failed,
}
use atv.Session.Commands.Order.{typed}

module _ (env : Env) (conn : Conn) (writes : (n : ℕ) → env.write_fault n ≡ none) where
  send-answered :
      (msg : RemoteMessage) (w : World)
      → send env conn msg w ≡ returns tt (answered env.remote conn.id (some msg) w)
  unfolding send
  send-answered msg w = write_message-written env conn env.remote writes msg w

  send_key-answered :
      (code : ℕ) (w : World)
      → send_key env conn code w
        ≡ returns tt (answered env.remote conn.id (some (key_message code)) w)
  unfolding send_key
  send_key-answered code w =
      map_err-returns _ (send env conn (key_message code)) w _ tt
        (send-answered (key_message code) w)

  send_all-answered :
      (is_first : Bool) (keys : List ℕ) (w : World)
      → (t : World) × (send_all env conn is_first keys w ≡ returns tt t)
        × (t.log ≡ typed env conn is_first keys w.log)
  unfolding send_all
  send_all-answered is_first [] w = (w, refl, refl)
  send_all-answered true (code ∷ keys) w =
      let (t, run, log) =
        send_all-answered false keys (answered env.remote conn.id (some (key_message code)) w) in
      (t, bind-returns (send_key env conn code) _ w _ tt (send_key-answered code w) ∙ run, log)
  send_all-answered false (code ∷ keys) w =
      let s = record w { log = slept key_interval ∷ w.log } in
      let (t, run, log) =
        send_all-answered false keys (answered env.remote conn.id (some (key_message code)) s) in
      (t, bind-returns (send_key env conn code) _ s _ tt (send_key-answered code s) ∙ run, log)

module _ (env : Env) (conn : Conn) (fuel : ℕ) (host : IpAddr) (port : ℕ) (w u : World)
    (msgs : List RemoteMessage) (answers : List (Option RemoteMessage)) (hs : SessionHandshake)
    (power : Bool) (r : Reaches env conn host port w u msgs answers hs power)
    (enough : length msgs < fuel) where
  pub status-Reaches :
      (at : String) × (t : World) × (status env fuel host port w
        ≡ returns (record { timestamp = at; host = host; power = power_str power }) t)
      × (t.log ≡ told env.remote conn.id answers u.log)
  unfolding status
  status-Reaches =
      let (t, run, log, _, _) =
        read_power-Reaches env conn fuel host port w u msgs answers hs power r enough in
      (
        env.timestamp t.readings,
        record t { readings = suc t.readings },
        bind-returns (read_power env fuel host port) _ w t _ run,
        log,
      )

  pub send_keys-Reaches :
      (keys : List ℕ)
      → (at : String) × (t : World) × (send_keys env fuel host port keys w
          ≡ returns (keys_report env host keys at) t)
        × (t.log
            ≡ slept send_settle
              ∷ typed env conn true keys
                  (slept key_inject_grace ∷ told env.remote conn.id answers u.log))
  unfolding send_keys
  send_keys-Reaches keys =
      let (t, run, log, _, _) =
        read_power-Reaches env conn fuel host port w u msgs answers hs power r enough in
      let s = record t { log = slept key_inject_grace ∷ t.log } in
      let (v, all, rest) = send_all-answered env conn r.written true keys s in
      (
        env.timestamp v.readings,
        record v { log = slept send_settle ∷ v.log; readings = suc v.readings },
        bind-returns (read_power env fuel host port) _ w t _ run
            ∙ bind-returns (send_all env conn true keys) _ s v tt all,
        ap (λ log. slept send_settle ∷ log) rest
            ∙ ap
                (λ log. slept send_settle ∷ typed env conn true keys (slept key_inject_grace ∷ log))
                log,
      )

  pub send_app_link-Reaches :
      (app_link : List ℕ)
      → (at : String) × (t : World) × (send_app_link env fuel host port app_link w
          ≡ returns (launch_report host app_link at) t)
        × (t.log
            ≡ slept send_settle
              ∷ sent conn.id (frame env.remote (app_link_message app_link))
              ∷ slept key_inject_grace
              ∷ told env.remote conn.id answers u.log)
  unfolding send_app_link
  send_app_link-Reaches app_link =
      let (t, run, log, _, _) =
        read_power-Reaches env conn fuel host port w u msgs answers hs power r enough in
      let s = record t { log = slept key_inject_grace ∷ t.log } in
      let v = answered env.remote conn.id (some (app_link_message app_link)) s in
      (
        env.timestamp v.readings,
        record v { log = slept send_settle ∷ v.log; readings = suc v.readings },
        bind-returns (read_power env fuel host port) _ w t _ run
            ∙ bind-returns (map_err link_failed (send env conn (app_link_message app_link))) _ s v
                tt
                (map_err-returns link_failed (send env conn (app_link_message app_link)) s v tt
                  (send-answered env conn r.written (app_link_message app_link) s)),
        ap
            (λ log.
              slept send_settle
              ∷ sent conn.id (frame env.remote (app_link_message app_link))
              ∷ slept key_inject_grace
              ∷ log)
            log,
      )
