-- ===== src/Session/Commands.antt =====
-- session.rs: the commands `status`, `key` and `launch`.
pub mod Ending
pub mod Order
pub mod Served
pub mod Status
pub mod Tells
use atv.Base.{ℕ, String, ◌<>◌, Bool, true, false, List, [], ◌∷◌, map}
use atv.Base.Exec.{Exec, pure, map_err, ◌>>=◌, ◌>>◌}
use atv.Error.{AtvError, protocol_error}
use atv.Stream.{IoError}
use atv.World.{Env, World, IpAddr, sleep, timestamp}
use atv.World.Conn.{Conn}
use atv.Tls.{because}
use atv.Session.Handshake.{key_message, app_link_message, keycode_name}
use atv.Session.Power.{key_inject_grace, power_str, send, read_power}

-- `KEY_INTERVAL`, `SEND_SETTLE`
abbrev pub key_interval : ℕ
key_interval = 100

abbrev pub send_settle : ℕ
send_settle = 250

pub record StatusOutput : Type 0 where
  pub timestamp : String
  pub host : String
  pub power : String

pub record KeysOutput : Type 0 where
  pub timestamp : String
  pub host : String
  pub keys : List String

pub record LaunchOutput : Type 0 where
  pub timestamp : String
  pub host : String
  pub app_link : List ℕ

-- What `key` and `launch` print.
abbrev pub keys_report : Env → IpAddr → List ℕ → String → KeysOutput
keys_report env host keys at = record {
  timestamp = at;
  host = host;
  keys = map (keycode_name env) keys;
}

abbrev pub launch_report : IpAddr → List ℕ → String → LaunchOutput
launch_report host app_link at = record { timestamp = at; host = host; app_link = app_link }

abbrev pub link_failed : IoError → AtvError
link_failed e = because protocol_error "failed to send app link: " e.text

module _ (env : Env) where
  unfoldable pub status : ℕ → IpAddr → ℕ → Exec World AtvError StatusOutput
  status fuel host port = do
    session ← read_power env fuel host port
    at ← timestamp env
    pure (record { timestamp = at; host = host; power = power_str session.power })

  unfoldable pub send_key : Conn → ℕ → Exec World AtvError (Unit {0})
  send_key conn code =
      map_err
        (λ e. because protocol_error ("failed to send " <> keycode_name env code <> ": ") e.text)
        (send env conn (key_message code))

  -- The loop over the keys, with a pause before each but the first.
  unfoldable pub send_all : Conn → Bool → List ℕ → Exec World AtvError (Unit {0})
  send_all conn is_first [] = pure tt
  send_all conn true (code ∷ keys) = do send_key conn code; send_all conn false keys
  send_all conn false (code ∷ keys) = do
    sleep key_interval
    send_key conn code
    send_all conn false keys

  unfoldable pub send_keys : ℕ → IpAddr → ℕ → List ℕ → Exec World AtvError KeysOutput
  send_keys fuel host port keys = do
    session ← read_power env fuel host port
    sleep key_inject_grace
    send_all session.conn true keys
    sleep send_settle
    at ← timestamp env
    pure (keys_report env host keys at)

  unfoldable pub send_app_link : ℕ → IpAddr → ℕ → List ℕ → Exec World AtvError LaunchOutput
  send_app_link fuel host port app_link = do
    session ← read_power env fuel host port
    sleep key_inject_grace
    map_err link_failed (send env session.conn (app_link_message app_link))
    sleep send_settle
    at ← timestamp env
    pure (launch_report host app_link at)
