-- ===== src/Session/Handshake.antt =====
-- session.rs: `SessionHandshake` and the messages that the client builds.
pub mod Replies
pub mod Features
pub mod Kinds
use atv.Base.{
  ℕ, String, ◌<>◌, Bool, true, false, not, Option, none, some, List, [], ◌==◌, codes, is_some,
  if◌then◌else◌, bit_and,
}
use atv.Base.Exec.{Result, ok, err}
use atv.Error
use atv.Error.{AtvError, protocol_error, auth_rejected}
use atv.Stream.{IoError, IoErrorKind, timed_out, would_block}
use atv.Proto.Remote.{RemoteMessage, default}
use atv.World.{Env}

-- `FEATURES`: 1 | 2 | 32 | 512.
abbrev pub features : ℕ
features = 547

pub record SessionHandshake : Type 0 where
  pub power : Option Bool
  pub active_features : ℕ

-- `SessionHandshake::new`
abbrev pub new : SessionHandshake
new = record { power = none; active_features = features }

abbrev pub configure_message : ℕ → RemoteMessage
configure_message code1 = record default {
  remote_configure = some (record {
    code1 = code1;
    device_info = some (record {
      model = [];
      vendor = [];
      unknown1 = 1;
      unknown2 = codes "1";
      package_name = codes "atv";
      app_version = codes "0.1.0";
    });
  });
}

abbrev pub set_active_message : ℕ → RemoteMessage
set_active_message active = record default { remote_set_active = some (record { active = active }) }

abbrev pub ping_response : ℕ → RemoteMessage
ping_response val1 = record default { remote_ping_response = some (record { val1 = val1 }) }

-- The features that a `configure` leaves active.
intersect : ℕ → ℕ → ℕ
intersect active code1 = if not (code1 == 0) then bit_and active code1 else active

-- `SessionHandshake::handle`
unfoldable pub handle :
    SessionHandshake → RemoteMessage → Result AtvError (Option RemoteMessage) × SessionHandshake
unfolding intersect
handle hs msg = elim msg.remote_configure [
  | some configure ↦
      let code1 = intersect hs.active_features configure.code1 in
      (ok (some (configure_message code1)), record hs { active_features = code1 })
  | none ↦
      if is_some msg.remote_set_active
      then (ok (some (set_active_message hs.active_features)), hs)
      else elim msg.remote_ping_request [
        | some ping ↦ (ok (some (ping_response ping.val1)), hs)
        | none ↦ elim msg.remote_start [
          | some start ↦ (ok none, record hs { power = some start.started })
          | none ↦
              if is_some msg.remote_error
              then (err (Error.new protocol_error "TV reported a remote error"), hs)
              else (ok none, hs)
        ]
      ]
]

-- `RemoteDirection::Short` and `RemoteKeyCode::KeycodePower`
abbrev direction_short : ℕ
direction_short = 3

abbrev pub keycode_power : ℕ
keycode_power = 26

unfoldable pub key_message : ℕ → RemoteMessage
key_message key_code = record default {
  remote_key_inject = some (record { key_code = key_code; direction = direction_short });
}

unfoldable pub power_key_message : RemoteMessage
unfolding key_message
power_key_message = key_message keycode_power

unfoldable pub app_link_message : List ℕ → RemoteMessage
app_link_message app_link = record default {
  remote_app_link_launch_request = some (record { app_link = app_link });
}

unfoldable pub keycode_name : Env → ℕ → String
keycode_name env key_code = elim (env.key_name key_code) [
  | some name ↦ name
  | none ↦ env.i32_text key_code
]

is_timeout : IoErrorKind → Bool
is_timeout timed_out = true
is_timeout would_block = true
is_timeout _ = false

unfoldable pub map_session_read_error : IoError → Bool → AtvError
unfolding is_timeout
map_session_read_error e got_any_message =
    if not got_any_message
    then Error.new auth_rejected (
        "TV closed the session immediately — client certificate rejected, re-pair needed ("
        <> e.text <> ")")
    else if is_timeout e.kind
    then Error.new protocol_error "TV stopped responding during session handshake"
    else Error.new protocol_error e.text
