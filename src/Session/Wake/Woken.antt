-- ===== src/Session/Wake/Woken.antt =====
-- session.rs: a wake-up that comes off. The TV is unreachable, the packet is sent, and some time
-- later the port is back and the TV says that it is on.
use atv.Base.{
  ℕ, zero, suc, ◌+◌, ◌<◌, ◌≡◌, refl, ap, ◌∙◌, Bool, true, false, some, List, ◌∷◌, [], ◌++◌, String,
  ltb, arith, length, length-append,
}
use atv.Base.Exec.{
  Exec, ok, err, returns, fails, bind-returns, bind-fails, attempt, attempt-returns, attempt-fails,
  pure, throw, ◌>>=◌, ◌>>◌,
}
use atv.Error.{AtvError}
use atv.Stream.{IoError}
use atv.World.{Env, World, IpAddr, connecting, slept, sleep, broadcast}
use atv.World.Conn.{Conn}
use atv.Tls.{connect_timeout}
use atv.Wol.{magic_packet, send_magic_packet}
use atv.Proto.Remote.{RemoteMessage}
use atv.World.Speech.{told}
use atv.World.Chat.{replies_to}
use atv.Session.Handshake.{new, handle}
use atv.Session.Power.{
  PowerOutput, power_str, set_power, press_power_once, read_power, open_session,
}
use atv.Session.Power.Started.{Starts, Starts-Reaches}
use atv.Session.Power.Switch.{set_power-Reaches}
use atv.Session.Wake.{
  poll_port, wait_for_port, wake, set_power_with_wake, is_unreachable, still_unreachable, wol_wait,
}

-- What a round of the wait leaves: the clock is read, a connection tried, and there is a pause
-- where it failed.
abbrev pub tried : IpAddr → ℕ → World → World
tried host port w = record w {
  connects = suc w.connects;
  position = 0;
  readings = suc w.readings;
  log = connecting host port 1000 ∷ w.log;
}

abbrev pub paused : World → World
paused w = record w { log = slept 500 ∷ w.log }

-- The world after `n` refused connections and one that is accepted.
abbrev pub back_after : IpAddr → ℕ → ℕ → World → World
back_after host port zero w = tried host port w
back_after host port (suc n) w = back_after host port n (paused (tried host port w))

module _ (env : Env) (host : IpAddr) (port : ℕ) where
  -- The next `n` connections are refused and the one behind them is accepted, each before the
  -- deadline.
  abbrev pub IsBack : ℕ → ℕ → World → Type 0
  IsBack deadline zero w = (env.now w.readings < deadline) × (env.connect_tcp w.connects ≡ ok tt)
  IsBack deadline (suc n) w =
      (env.now w.readings < deadline)
      × ((x : IoError) × (env.connect_tcp w.connects ≡ err x))
      × IsBack deadline n (paused (tried host port w))

  connect_timeout-accepted :
      (w : World)
      → env.connect_tcp w.connects ≡ ok tt
      → (conn : Conn) × (connect_timeout env host port 1000 w
          ≡ returns conn (record w {
            connects = suc w.connects;
            position = 0;
            log = connecting host port 1000 ∷ w.log;
          }))
  unfolding connect_timeout
  connect_timeout-accepted w e = (record { id = w.connects }, rw (e, connect_timeout) refl)

  connect_timeout-refused :
      (w : World) (x : IoError)
      → env.connect_tcp w.connects ≡ err x
      → connect_timeout env host port 1000 w
        ≡ fails x (record w {
          connects = suc w.connects;
          position = 0;
          log = connecting host port 1000 ∷ w.log;
        })
  unfolding connect_timeout
  connect_timeout-refused w x e = rw (e, connect_timeout) refl

  abbrev timed : ℕ → ℕ → Bool → Exec World AtvError (Unit {0})
  timed fuel deadline in_time = elim in_time [
    | false ↦ throw (still_unreachable env host port)
    | true ↦ do
      tried ← attempt {E = IoError} (connect_timeout env host port 1000)
      elim tried [ ok conn ↦ pure tt | err e ↦ do sleep 500; poll_port env fuel host port deadline ]
  ]

  poll_port-IsBack :
      (n fuel deadline : ℕ) (w : World)
      → IsBack deadline n w
      → n < fuel
      → poll_port env fuel host port deadline w ≡ returns tt (back_after host port n w)
  unfolding poll_port
  poll_port-IsBack n zero deadline w h enough = absurd (omega arith)
  poll_port-IsBack zero (suc fuel) deadline w (early, e) enough =
      let looked = record w { readings = suc w.readings } in
      let going : ltb (env.now w.readings) deadline ≡ true = ground (arith, early) in
      let (conn, accepted) = connect_timeout-accepted looked e in
      ap (λ b. timed fuel deadline b looked) going
      ∙ bind-returns (attempt (connect_timeout env host port 1000)) _ looked (tried host port w)
          (ok conn)
          (attempt-returns (connect_timeout env host port 1000) looked (tried host port w) conn
            accepted)
  poll_port-IsBack (suc n) (suc fuel) deadline w (early, (x, e), rest) enough =
      let looked = record w { readings = suc w.readings } in
      let going : ltb (env.now w.readings) deadline ≡ true = ground (arith, early) in
      ap (λ b. timed fuel deadline b looked) going
      ∙ bind-returns (attempt (connect_timeout env host port 1000)) _ looked (tried host port w)
          (err x)
          (attempt-fails (connect_timeout env host port 1000) looked (tried host port w) x
            (connect_timeout-refused looked x e))
      ∙ poll_port-IsBack n fuel deadline (paused (tried host port w)) rest (omega arith)

  wait_for_port-IsBack :
      (n fuel budget : ℕ) (w : World)
      → IsBack (env.now w.readings + budget) n (record w { readings = suc w.readings })
      → n < fuel
      → wait_for_port env fuel host port budget w
        ≡ returns tt (back_after host port n (record w { readings = suc w.readings }))
  unfolding wait_for_port
  wait_for_port-IsBack n fuel budget w h enough =
      poll_port-IsBack n fuel (env.now w.readings + budget) (record w { readings = suc w.readings })
        h enough

  -- A session that cannot be opened makes the whole command fail as it does.
  set_power-fails :
      (fuel : ℕ) (want_on : Bool) (w s : World) (e : AtvError)
      → open_session env host port w ≡ fails e s
      → set_power env fuel host port want_on w ≡ fails e s
  unfolding set_power press_power_once read_power
  set_power-fails fuel want_on w s e h =
      bind-fails (press_power_once env fuel host port want_on) _ w s e (
        bind-fails (read_power env fuel host port) _ w s e
          (bind-fails (open_session env host port) _ w s e h))

-- The world once the magic packet is out.
abbrev pub called : List ℕ → World → World
called mac w = record w { log = broadcast "255.255.255.255" 9 (magic_packet mac) ∷ w.log }

-- Every step of `send_magic_packet` succeeds.
pub record Calls (env : Env) : Type 0 where
  pub binds : env.udp_bind ≡ ok tt
  pub broadcasts : env.udp_set_broadcast ≡ ok tt
  pub sends : env.udp_send_to ≡ ok tt

send_magic_packet-Calls :
    (env : Env) (mac : List ℕ) (w : World)
    → Calls env
    → send_magic_packet env mac w ≡ returns tt (called mac w)
unfolding send_magic_packet
send_magic_packet-Calls env mac w c = rw (c.binds, c.broadcasts, c.sends, send_magic_packet) refl

-- The world in which the wait for the port begins.
abbrev pub awaited : List ℕ → World → World
awaited mac w = record (called mac w) { readings = suc w.readings }

-- The session cannot be opened, since the TV is unreachable; after the packet it takes `n` refused
-- connections until the port is back, before the time is up, and then the TV says `msgs` and, with
-- `m`, that it is on.
pub record Woken (env : Env) (conn : Conn) (host : IpAddr) (port : ℕ) (mac : List ℕ) (n : ℕ)
    (w u : World) (msgs : List RemoteMessage) (m : RemoteMessage) : Type 0 where
  pub failure : AtvError
  pub left : World
  pub refuses : open_session env host port w ≡ fails failure left
  pub is_asleep : is_unreachable failure.kind ≡ true
  pub calls : Calls env
  pub is_back : IsBack env host port (env.now left.readings + wol_wait) n (awaited mac left)
  pub starts : Starts env conn host port (back_after host port n (awaited mac left)) u msgs m true

pub set_power_with_wake-Woken :
    (env : Env) (conn : Conn) (host : IpAddr) (port : ℕ) (mac : List ℕ) (n fuel : ℕ) (w u : World)
    (msgs : List RemoteMessage) (m : RemoteMessage)
    → Woken env conn host port mac n w u msgs m
    → n < fuel
    → length msgs + 1 < fuel
    → (at : String) × (t : World) × (set_power_with_wake env fuel host port true (some mac) w
        ≡ returns
            (record {
              timestamp = at;
              host = host;
              power = power_str true;
              changed = false;
              wol = some true;
            })
            t)
      × (t.log ≡ told env.remote conn.id (replies_to handle new (msgs ++ m ∷ [])) u.log)
unfolding set_power_with_wake wake
set_power_with_wake-Woken env conn host port mac n fuel w u msgs m h enough beyond =
    let v = back_after host port n (awaited mac h.left) in
    let answers = replies_to handle new (msgs ++ m ∷ []) in
    let (last, r) = Starts-Reaches env conn host port v u msgs m true h.starts in
    let (at, t, second, log) =
      set_power-Reaches env conn fuel host port v u (msgs ++ m ∷ []) answers last true r
        (omega (arith, length-append msgs (m ∷ []))) in
    (
      at,
      t,
      bind-returns (attempt (set_power env fuel host port true)) _ w h.left (err h.failure) (
            attempt-fails (set_power env fuel host port true) w h.left h.failure
              (set_power-fails env host port fuel true w h.left h.failure h.refuses))
          ∙ ap
              (λ (b : Bool).
                elim b as (λ _. Exec World AtvError PowerOutput) [
                  | true ↦ wake env fuel host port true mac
                  | false ↦ throw h.failure
                ]
                  h.left)
              h.is_asleep
          ∙ bind-returns (send_magic_packet env mac) _ h.left (called mac h.left) tt
              (send_magic_packet-Calls env mac h.left h.calls)
          ∙ bind-returns (wait_for_port env fuel host port wol_wait) _ (called mac h.left) v tt (
              wait_for_port-IsBack env host port n fuel wol_wait (called mac h.left) h.is_back
                enough)
          ∙ bind-returns (set_power env fuel host port true) _ v t _ second,
      log,
    )
