-- ===== src/Tests/Session.antt =====
-- session.rs at concrete TVs.
use atv.Base.{
  arith, ◌≤◌, if◌then◌else◌, ℕ, ◌≡◌, refl, List, [], ◌∷◌, ◌++◌, true, false, Bool, none, some,
}
use atv.Base.Exec.{Run, returns, fails, stuck}
use atv.Base.Ends.{Ends}
use atv.Error.{AtvError}
use atv.World.{Env, World, Event, slept, sent, read_timeout, connecting}
use atv.World.Conn.{Conn, conn_read, conn_write}
use atv.Config.{credential_dir_from_env, resolve_credential_dir, set, join, ensure_paired}
use atv.Tls.{from_credential_dir, read_file, connect, connect_timeout, client_from_pem, set_up}
use atv.Framing.{frame, read_message, write_message, encode_len, read_len}
use atv.Session.Handshake.{
  new, features, configure_message, ping_response, set_active_message, handle, power_key_message,
}
use atv.Session.Power.{
  PowerOutput, set_power, press_power_once, read_power, open_session, read_power_loop, read_round,
  receive, send, send_reply, press, await_power, await_round, answer, retry, needs_power_key,
  should_retry_power_on, power_str,
}
use atv.World.Chat.{over, heard}
use atv.Session.Power.Dialogue.{Talks, read_power_loop-Talks}
use atv.Session.Commands.{status, send_keys}
use atv.Session.Commands.Status.{status-Stands}
use atv.Session.Commands.Order.{Types, send_keys-Types}
use atv.Session.Power.Count.{presses, Stands}
use atv.Session.Power.Outcome.{Sets, set_power-Sets, set_power_off}
use atv.Proto.Remote.{RemoteMessage}
use atv.Session.Handshake.Features.{after, Narrows, set_active-Narrows}
use atv.Session.Power.Loops.{IsFinite}
use atv.Tests.Fixture.{
  closed, byte_at, byte_at-ends, remote, remote-IsRemoteCodec, start_message, ping_request, env_of,
  world,
}

-- The connections of a TV that is off, answers the key after a ping, and is on.
unfoldable pub frames : List ℕ
unfolding frame encode_len remote
frames =
    frame remote (start_message false)
    ++ (frame remote (ping_request 5) ++ frame remote (start_message true))

unfoldable pub tv : Env
unfolding frames env_of
tv = env_of (λ _. frames)

run : Bool → Run World AtvError PowerOutput
unfolding tv conn_read conn_write credential_dir_from_env resolve_credential_dir set join
    ensure_paired from_credential_dir read_file connect connect_timeout client_from_pem set_up frame
    read_message write_message encode_len read_len handle power_key_message set_power
    press_power_once read_power open_session read_power_loop read_round receive send send_reply
    press await_power await_round answer retry needs_power_key should_retry_power_on power_str
run want_on = set_power tv 10 "192.0.2.10" 6466 want_on world

abbrev log_of : Run World AtvError PowerOutput → List Event
log_of (returns out t) = t.log
log_of (fails e t) = t.log
log_of stuck = []

abbrev output : PowerOutput
output = record {
  timestamp = "2026-08-15T12:34:56+09:00";
  host = "192.0.2.10";
  power = "on";
  changed = true;
  wol = none;
}

-- The key press and the answer to the ping, after the grace period.
final : World
unfolding run
final = record world {
  connects = 1;
  position = 9;
  writes = 2;
  readings = 4;
  log =
      sent 0 (2 ∷ 4 ∷ 5 ∷ [])
      ∷ read_timeout 3000
      ∷ sent 0 (2 ∷ 5 ∷ 26 ∷ [])
      ∷ slept 1000
      ∷ connecting "192.0.2.10" 6466 5000
      ∷ [];
}

run_on : run true ≡ returns output final
unfolding final
run_on = refl

set_power-Sets_example : Sets tv true world output final
unfolding final
set_power-Sets_example = set_power-Sets tv remote-IsRemoteCodec 10 "192.0.2.10" 6466 true world

set_power_off_example :
    Ends
      (λ out t. (presses tv t.log ≡ (if out.changed then 1 else 0)) × (t.connects ≤ 1))
      (λ _ t. Stands tv 0 1 t)
      (run false)
unfolding run
set_power_off_example = set_power_off tv remote-IsRemoteCodec 10 "192.0.2.10" 6466 world

tv-IsFinite : IsFinite tv 9
unfolding tv frames
tv-IsFinite id p h = (closed, byte_at-ends frames p h)

-- The TV offers the features 1 and 32 of the client's four.
abbrev offers : List RemoteMessage
offers = configure_message 0x21 ∷ []

set_active-Narrows_example : (0x21 ≡ (after new offers).active_features) × Narrows features 0x21
unfolding handle
set_active-Narrows_example =
    set_active-Narrows offers (set_active_message 0) (set_active_message 0x21)
      (record { active = 0x21 }) refl refl

-- A TV that pings before it says that it is on.
abbrev dialogue : List RemoteMessage
dialogue = ping_request 5 ∷ start_message true ∷ []

pinging : Env
unfolding env_of
pinging = env_of (λ _. 2 ∷ 3 ∷ 5 ∷ 2 ∷ 6 ∷ 1 ∷ [])

abbrev conn : Conn
conn = record { id = 0 }

dialogue-Talks :
    Talks new dialogue (some (ping_response 5) ∷ none ∷ []) (record new { power = some true })
unfolding handle
dialogue-Talks = heard _ _ _ _ _ _ refl refl (heard _ _ _ _ _ _ refl refl (over _ refl))

read_power_loop-Talks_example :
    (t : World) × (read_power_loop pinging 3 conn new false world
      ≡ returns
          (record { power = true; conn = conn; handshake = record new { power = some true } })
          t)
    × (t.log ≡ sent 0 (frame remote (ping_response 5)) ∷ [])
    × (t.position ≡ 6)
    × (t.readings ≡ 0)
unfolding pinging env_of byte_at remote frame encode_len
read_power_loop-Talks_example =
    read_power_loop-Talks pinging conn (λ _. refl) 3 new (record new { power = some true }) dialogue
      (some (ping_response 5) ∷ none ∷ []) true false world dialogue-Talks refl
      ((refl, omega arith), ((refl, omega arith), tt))
      (refl, (refl, (refl, (refl, (refl, (refl, tt)))))) (omega arith)

status-Stands_example :
    Ends (λ _ t. Stands tv 0 1 t) (λ _ t. Stands tv 0 1 t) (status tv 10 "192.0.2.10" 6466 world)
unfolding tv env_of
status-Stands_example = status-Stands tv remote-IsRemoteCodec 10 "192.0.2.10" 6466 world

send_keys-Types_example :
    Ends
      (Types pinging 10 "192.0.2.10" 6466 (24 ∷ 25 ∷ []) world)
      (λ _ _. Unit)
      (send_keys pinging 10 "192.0.2.10" 6466 (24 ∷ 25 ∷ []) world)
send_keys-Types_example = send_keys-Types pinging 10 "192.0.2.10" 6466 (24 ∷ 25 ∷ []) world
