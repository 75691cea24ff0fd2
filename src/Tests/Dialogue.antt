-- ===== src/Tests/Dialogue.antt =====
-- The program against TVs that go through their dialogues.
use atv.Base.{
  ◌≡◌, refl, inr, arith, String, Bool, true, false, none, some, [], ◌∷◌, if◌then◌else◌, ltb,
}
use atv.Base.Exec.{ok, err, returns}
use atv.Framing.{frame, encode_len, read_message, read_len}
use atv.Config.{credential_dir_from_env, resolve_credential_dir, set, join, ensure_paired}
use atv.Tls.{
  host_unreachable, from_credential_dir, read_file, connect, connect_timeout, client_from_pem,
  set_up,
}
use atv.World.{Env, World, sent, slept, read_timeout, eprinted, connecting, broadcast}
use atv.World.Conn.{Conn, conn_read}
use atv.World.Chat.{over, heard}
use atv.Session.Handshake.{SessionHandshake, new, handle, ping_response, power_key_message}
use atv.Session.Power.{receive, set_power, open_session, power_str}
use atv.Session.Power.Dialogue.{Reaches}
use atv.Session.Power.Started.{IsStart, Starts}
use atv.Session.Power.Confirm.{Awaits, other, confirmed}
use atv.Session.Power.Switch.{set_power-Awaits}
use atv.Cli.{HostArgs, OnArgs, on, off, port, args}
use atv.Output.{Json, power_set, of_error}
use atv.Session.Wake.{is_unreachable}
use atv.Session.Wake.Woken.{Woken}
use atv.Error.{AtvError, auth_rejected}
use atv.Main.{main}
use atv.Main.Rejected.{on_of, main-Rejected}
use atv.Main.Woken.{main-Woken}
use atv.Wol.{magic_packet}
use atv.Tests.Wake.{mac}
use atv.Main.Served.{Serves, is_off as is_off_already, main-Starts}
use atv.Tests.Fixture.{closed, byte_at, remote, start_message, ping_request, env_of, world}
use atv.Tests.Session.{tv, frames}

abbrev pub conn : Conn
conn = record { id = 0 }

abbrev reached : World
reached = record world { connects = 1; log = connecting "192.0.2.10" 6466 5000 ∷ [] }

abbrev is_off : SessionHandshake
is_off = record new { power = some false }

-- The TV says first that it is off.
tv-Reaches :
    Reaches tv conn "192.0.2.10" 6466 world reached
      (start_message false ∷ [])
      (none ∷ [])
      is_off
      false
unfolding tv frames env_of byte_at remote frame encode_len handle open_session
    credential_dir_from_env resolve_credential_dir set join from_credential_dir ensure_paired
    read_file client_from_pem connect connect_timeout set_up
tv-Reaches = record {
  opens = refl;
  talks = heard _ _ _ _ _ _ refl refl (over _ refl);
  knows = refl;
  carried = ((refl, omega arith), tt);
  spoken = (refl, (refl, (refl, tt)));
  written = λ _. refl;
}

-- Then it pings, and is on.
tv-Awaits :
    Awaits tv conn true 5000 3 1 new
      (ping_request 5 ∷ start_message true ∷ [])
      (some (ping_response 5) ∷ none ∷ [])
      (record new { power = some true })
unfolding tv frames env_of byte_at remote frame encode_len handle
tv-Awaits =
    other 3 1 new _ (ping_request 5) _ _ (omega arith) (refl, omega arith)
      (refl, (refl, (refl, tt))) refl
      (confirmed 6 2 new (start_message true) (omega arith) (refl, omega arith)
        (refl, (refl, (refl, tt))) refl)

set_power-Awaits_example :
    (at : String) × (t : World) × (set_power tv 10 "192.0.2.10" 6466 true world
      ≡ returns
          (record { timestamp = at; host = "192.0.2.10"; power = "on"; changed = true; wol = none })
          t)
    × (t.log
        ≡ sent 0 (frame remote (ping_response 5))
          ∷ read_timeout 3000
          ∷ sent 0 (frame remote power_key_message)
          ∷ slept 1000
          ∷ connecting "192.0.2.10" 6466 5000
          ∷ [])
unfolding tv env_of
set_power-Awaits_example =
    set_power-Awaits tv conn 10 "192.0.2.10" 6466 world reached (start_message false ∷ [])
      (none ∷ []) is_off true (ping_request 5 ∷ start_message true ∷ [])
      (some (ping_response 5) ∷ none ∷ []) (record new { power = some true }) tv-Reaches tv-Awaits
      (inr refl) (omega arith) (omega arith)

-- `atv off` at this TV.
abbrev pub json : Json
json = record { to_string = λ v. "{}" }

abbrev pub target : HostArgs
target = record { host = "192.0.2.10"; port = none }

start_message-IsStart : (power : Bool) → IsStart power (start_message power)
start_message-IsStart power = record {
  start = record { started = power };
  no_configure = refl;
  no_set_active = refl;
  no_ping = refl;
  has_start = refl;
  started = refl;
}

tv-Starts : Starts tv conn "192.0.2.10" 6466 world reached [] (start_message false) false
unfolding tv frames env_of byte_at remote frame encode_len open_session credential_dir_from_env
    resolve_credential_dir set join from_credential_dir ensure_paired read_file client_from_pem
    connect connect_timeout set_up
tv-Starts = record {
  opens = refl;
  others = tt;
  starts = start_message-IsStart false;
  carried = ((refl, omega arith), tt);
  spoken = (refl, (refl, (refl, tt)));
  written = λ _. refl;
}

main-Starts_example :
    Serves tv json 10
      (off target)
      world
      (λ at. power_set (record {
        timestamp = at;
        host = "192.0.2.10";
        power = "off";
        changed = false;
        wol = none;
      }))
      (connecting "192.0.2.10" 6466 5000 ∷ [])
unfolding port args power_str handle
main-Starts_example =
    main-Starts tv json conn 10 world reached [] (start_message false) false (off target) target
      (λ at. power_set (record {
        timestamp = at;
        host = "192.0.2.10";
        power = "off";
        changed = false;
        wol = none;
      }))
      (λ log. log) (is_off_already target refl) tv-Starts (omega arith)

-- `atv on` at a TV that refuses two connections, and that is on when the third is accepted.
abbrev target_on : OnArgs
target_on = record { target = target; mac = some mac }

waking : Env
unfolding frame encode_len remote env_of
waking = record (env_of (λ _. frame remote (start_message true))) {
  connect_tcp = λ id. if ltb id 2 then err closed else ok tt;
}

abbrev woken : World
woken = record world {
  connects = 4;
  readings = 3;
  log =
      connecting "192.0.2.10" 6466 5000
      ∷ connecting "192.0.2.10" 6466 1000
      ∷ slept 500
      ∷ connecting "192.0.2.10" 6466 1000
      ∷ broadcast "255.255.255.255" 9 (magic_packet mac)
      ∷ connecting "192.0.2.10" 6466 5000
      ∷ [];
}

waking-Woken :
    Woken waking (record { id = 3 }) "192.0.2.10" 6466 mac 1 world woken [] (start_message true)
unfolding waking env_of byte_at remote frame encode_len open_session credential_dir_from_env
    resolve_credential_dir set join from_credential_dir ensure_paired read_file client_from_pem
    connect connect_timeout set_up is_unreachable
waking-Woken = record {
  failure = host_unreachable waking "192.0.2.10" 6466 closed;
  left = record world { connects = 1; log = connecting "192.0.2.10" 6466 5000 ∷ [] };
  refuses = refl;
  is_asleep = refl;
  calls = record { binds = refl; broadcasts = refl; sends = refl };
  is_back = (omega arith, (closed, refl), (omega arith, refl));
  starts = record {
    opens = refl;
    others = tt;
    starts = start_message-IsStart true;
    carried = ((refl, omega arith), tt);
    spoken = (refl, (refl, (refl, tt)));
    written = λ _. refl;
  };
}

main-Woken_example :
    Serves waking json 10
      (on target_on)
      world
      (λ at. power_set (record {
        timestamp = at;
        host = "192.0.2.10";
        power = "on";
        changed = false;
        wol = some true;
      }))
      woken.log
unfolding port args power_str handle
main-Woken_example =
    main-Woken waking json (record { id = 3 }) mac 1 10 world woken [] (start_message true)
      target_on refl waking-Woken (omega arith) (omega arith)

-- A TV that closes the session at once.
closing : Env
unfolding env_of
closing = env_of (λ _. [])

main-Rejected_example :
    (e : AtvError) × (e.kind ≡ auth_rejected)
    × (main closing json 1 (record { command = on target_on }) world
        ≡ returns 4 (record reached { log = eprinted (of_error json e) ∷ reached.log }))
unfolding closing env_of byte_at port args open_session credential_dir_from_env
    resolve_credential_dir set join from_credential_dir ensure_paired read_file client_from_pem
    connect connect_timeout set_up receive read_message read_len conn_read
main-Rejected_example =
    main-Rejected closing json conn 0 world reached reached closed (on target_on) target
      (on_of target_on) refl refl
