-- ===== src/Session/Power.antt =====
-- session.rs: `read_power`, `press_power_once` and `set_power`. A loop that waits for the TV takes
-- fuel, and is stuck when that runs out.
pub mod Count
pub mod Dialogue
pub mod Confirm
pub mod Started
pub mod Switch
pub mod Attempt
pub mod Outcome
pub mod Rounds
pub mod Loops
pub mod Ending
pub mod Endless
pub mod Deadline
pub mod Kinds
pub mod Tells
use atv.Base.{
  ℕ, zero, suc, ◌+◌, ◌-◌, String, Bool, true, false, ◌&&◌, ◌||◌, not, Option, none, some, ltb,
}
use atv.Base.Exec.{Exec, Result, ok, err, pure, lift, map_err, attempt, stuck, ◌>>=◌, ◌>>◌}
use atv.Error.{AtvError, protocol_error}
use atv.Stream.{IoError}
use atv.Proto.Remote.{RemoteMessage}
use atv.World.{Env, World, IpAddr, instant_now, sleep, note, read_timeout, timestamp}
use atv.World.Conn.{Conn, reader, writer}
use atv.Framing.{read_message, write_message}
use atv.Config.{credential_dir_from_env}
use atv.Tls.{from_credential_dir, connect, because}
use atv.Session.Handshake.{SessionHandshake, new, handle, map_session_read_error, power_key_message}

-- Milliseconds.
abbrev pub key_inject_grace : ℕ
key_inject_grace = 1000

-- What `read_power` hands on.
pub record Session : Type 0 where
  pub power : Bool
  pub conn : Conn
  pub handshake : SessionHandshake

unfoldable pub power_str : Bool → String
power_str true = "on"
power_str false = "off"

unfoldable pub needs_power_key : Bool → Bool → Bool
needs_power_key true want_on = not want_on
needs_power_key false want_on = want_on

-- `observed == Some(on)`
abbrev pub saw : Bool → Option Bool → Bool
saw on none = false
saw true (some b) = b
saw false (some b) = not b

unfoldable pub should_retry_power_on : Bool → Option Bool → Bool
should_retry_power_on want_on observed = want_on && not (saw true observed)

pub record PowerAttempt : Type 0 where
  pub changed : Bool
  pub resulting : Bool
  pub observed : Option Bool

pub record PowerOutput : Type 0 where
  pub timestamp : String
  pub host : String
  pub power : String
  pub changed : Bool
  pub wol : Option Bool

abbrev pub key_failed : IoError → AtvError
key_failed e = because protocol_error "failed to send power key: " e.text

-- The attempt after a press; a TV that confirmed nothing is taken to be in the wanted state.
abbrev pub pressed : Bool → SessionHandshake → PowerAttempt
pressed want_on hs = record {
  changed = true;
  resulting = elim hs.power [ some seen ↦ seen | none ↦ want_on ];
  observed = hs.power;
}

-- `POWER_ON_ATTEMPTS`, `POWER_ON_RETRY_BACKOFF`
abbrev pub power_on_attempts : ℕ
power_on_attempts = 4

abbrev pub power_on_retry_backoff : ℕ
power_on_retry_backoff = 2000

module _ (env : Env) where
  unfoldable pub receive : Conn → Exec World IoError RemoteMessage
  receive conn = read_message (reader env conn) env.remote

  unfoldable pub send : Conn → RemoteMessage → Exec World IoError (Unit {0})
  send conn msg = write_message env.remote (writer env conn) msg

  unfoldable pub send_reply : Conn → Option RemoteMessage → Exec World AtvError (Unit {0})
  send_reply conn none = pure tt
  send_reply conn (some reply) =
      map_err (λ e. because protocol_error "session write failed: " e.text) (send conn reply)

  -- The body of the loop `while hs.power.is_none()`.
  unfoldable pub read_round : Conn → SessionHandshake → Bool → Exec World AtvError SessionHandshake
  read_round conn hs got_any = do
    msg ← map_err (λ e. map_session_read_error e got_any) (receive conn)
    reply ← lift (handle hs msg).0
    send_reply conn reply
    pure (handle hs msg).1

  unfoldable pub read_power_loop : ℕ → Conn → SessionHandshake → Bool → Exec World AtvError Session
  read_power_loop zero conn hs got_any = λ w. stuck
  read_power_loop (suc fuel) conn hs got_any = elim hs.power [
    | some power ↦ pure (record { power = power; conn = conn; handshake = hs })
    | none ↦ do hs' ← read_round conn hs got_any; read_power_loop fuel conn hs' true
  ]

  unfoldable pub open_session : IpAddr → ℕ → Exec World AtvError Conn
  open_session host port = do
    dir ← credential_dir_from_env env
    tls ← from_credential_dir env dir
    connect env tls host port 5000

  unfoldable pub read_power : ℕ → IpAddr → ℕ → Exec World AtvError Session
  read_power fuel host port = do conn ← open_session host port; read_power_loop fuel conn new false

  -- The reply of a message that arrives while the confirmation is awaited; a failed write and an
  -- error of the handshake are ignored.
  unfoldable pub answer :
      Conn → Result AtvError (Option RemoteMessage) → Exec World AtvError (Unit {0})
  answer conn (ok (some reply)) = do r ← attempt {E = IoError} (send conn reply); pure tt
  answer conn (ok none) = pure tt
  answer conn (err e) = pure tt

  -- The body of the loop `while Instant::now() < deadline`, and whether it ends by a `break`.
  unfoldable pub await_round :
      Conn → SessionHandshake → Bool → Exec World AtvError (SessionHandshake × Bool)
  await_round conn hs want_on = do
    received ← attempt {E = IoError} (receive conn)
    elim received [
      | err e ↦ pure (hs, true)
      | ok msg ↦ do
        answer conn (handle hs msg).0
        pure ((handle hs msg).1, saw want_on (handle hs msg).1.power)
    ]

  unfoldable pub await_power :
      ℕ → Conn → SessionHandshake → Bool → ℕ → Exec World AtvError SessionHandshake
  await_power zero conn hs want_on deadline = λ w. stuck
  await_power (suc fuel) conn hs want_on deadline = do
    now ← instant_now env
    elim (ltb now deadline) [
      | false ↦ pure hs
      | true ↦ do
        (hs', stop) ← await_round conn hs want_on
        elim stop [ true ↦ pure hs' | false ↦ await_power fuel conn hs' want_on deadline ]
    ]

  -- The part of `press_power_once` under `if changed`.
  unfoldable pub press : ℕ → Conn → SessionHandshake → Bool → Exec World AtvError PowerAttempt
  press fuel conn hs want_on = do
    sleep key_inject_grace
    map_err key_failed (send conn power_key_message)
    note (read_timeout 3000)
    start ← instant_now env
    hs' ← await_power fuel conn (record hs { power = none }) want_on (start + 5000)
    pure (pressed want_on hs')

  unfoldable pub press_power_once : ℕ → IpAddr → ℕ → Bool → Exec World AtvError PowerAttempt
  press_power_once fuel host port want_on = do
    session ← read_power fuel host port
    elim (needs_power_key session.power want_on) [
      | true ↦ press fuel session.conn session.handshake want_on
      | false ↦
          pure
            (record { changed = false; resulting = session.power; observed = some session.power })
    ]

  -- The retries of `set_power`, by the attempts left, `POWER_ON_ATTEMPTS - tries`.
  unfoldable pub retry :
      ℕ → ℕ → IpAddr → ℕ → Bool → PowerAttempt → Bool → Exec World AtvError (PowerAttempt × Bool)
  retry zero fuel host port want_on last changed = pure (last, changed)
  retry (suc left) fuel host port want_on last changed =
      elim (should_retry_power_on want_on last.observed) [
        | false ↦ pure (last, changed)
        | true ↦ do
          sleep power_on_retry_backoff
          tried ← attempt {E = AtvError} (press_power_once fuel host port want_on)
          elim tried [
            | ok next ↦ retry left fuel host port want_on next (changed || next.changed)
            | err e ↦ pure (last, changed)
          ]
      ]

  unfoldable pub set_power : ℕ → IpAddr → ℕ → Bool → Exec World AtvError PowerOutput
  set_power fuel host port want_on = do
    attempted ← press_power_once fuel host port want_on
    (last, changed) ←
        retry (power_on_attempts - 1) fuel host port want_on attempted attempted.changed
    at ← timestamp env
    pure (record {
      timestamp = at;
      host = host;
      power = power_str last.resulting;
      changed = changed;
      wol = none;
    })
