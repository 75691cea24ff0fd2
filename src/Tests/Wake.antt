-- ===== src/Tests/Wake.antt =====
-- session.rs at a TV that sleeps, and wol.rs at a MAC.
use atv.Base.{
  ℕ, ◌+◌, ◌≡◌, ◌↔◌, refl, List, [], ◌∷◌, ◌++◌, true, false, Bool, Option, none, some, ltb, codes,
  if◌then◌else◌, arith, replicate, length, All,
}
use atv.Base.Exec.{Run, ok, err, returns, stuck}
use atv.Base.Ends.{Ends}
use atv.Error.{AtvError}
use atv.Stream.{IsByte}
use atv.World.{Env, World}
use atv.World.Conn.{conn_read, conn_write}
use atv.Config.{credential_dir_from_env, resolve_credential_dir, set, join, ensure_paired}
use atv.Tls.{from_credential_dir, read_file, connect, connect_timeout, client_from_pem, set_up}
use atv.Framing.{frame, read_message, write_message, encode_len, read_len}
use atv.Session.Handshake.{handle, power_key_message}
use atv.Session.Power.{
  PowerOutput, set_power, press_power_once, read_power, open_session, read_power_loop, read_round,
  receive, send, send_reply, press, await_power, await_round, answer, retry, needs_power_key,
  should_retry_power_on, power_str,
}
use atv.Session.Power.Loops.{IsFinite}
use atv.Session.Power.Deadline.{Few, press-Deadline}
use atv.Session.Power.Endless.{silent, read_power_loop_endless}
use atv.Session.Wake.{set_power_with_wake, wake, wait_for_port, poll_port, is_unreachable, wol_wait}
use atv.Session.Wake.Outcome.{Wakes, WakeFails, set_power_with_wake-Wakes}
use atv.Session.Wake.Ending.{Advances}
use atv.Session.Wake.Poll.{Answered, GivesUp, wait_for_port-Polls}
use atv.Wol.{parse_mac, magic_packet, send_magic_packet}
use atv.Wol.Packet.{repeat, magic_packet-layout}
use atv.Wol.Parsing.{mac_text, parse_mac-mac_text}
use atv.Wol.Written.{Writes, parse_mac-written}
use atv.Tests.Fixture.{closed, byte_at-ends, env_of, world}
use atv.Tests.Session.{tv, frames}

-- The first two attempts to connect fail.
unfoldable pub asleep : Env
unfolding tv
asleep = record tv { connect_tcp = λ id. if ltb id 2 then err closed else ok tt }

abbrev pub mac : List ℕ
mac = 0xe4 ∷ 0x3b ∷ 0xc9 ∷ 0x97 ∷ 0x84 ∷ 0x77 ∷ []

run_wake : Run World AtvError PowerOutput
unfolding tv asleep conn_read conn_write credential_dir_from_env resolve_credential_dir set join
    ensure_paired from_credential_dir read_file connect connect_timeout client_from_pem set_up frame
    read_message write_message encode_len read_len handle power_key_message set_power
    press_power_once read_power open_session read_power_loop read_round receive send send_reply
    press await_power await_round answer retry needs_power_key should_retry_power_on power_str
    set_power_with_wake wake wait_for_port poll_port is_unreachable send_magic_packet
run_wake = set_power_with_wake asleep 20 "192.0.2.10" 6466 true (some mac) world

abbrev wol_of : Run World AtvError PowerOutput → Option Bool
wol_of (returns out t) = out.wol
wol_of _ = none

run_wakes : wol_of run_wake ≡ some true
unfolding run_wake
run_wakes = refl

set_power_with_wake-Wakes_example :
    Ends (Wakes asleep true (some mac) world) (WakeFails asleep true (some mac) world) run_wake
unfolding run_wake
set_power_with_wake-Wakes_example =
    set_power_with_wake-Wakes asleep 20 "192.0.2.10" 6466 true (some mac) world

pub asleep-IsFinite : IsFinite asleep 9
unfolding asleep tv frames
asleep-IsFinite id p h = (closed, byte_at-ends frames p h)

pub asleep-Advances : Advances asleep 15 wol_wait
unfolding asleep tv env_of
asleep-Advances i = omega arith

-- Two connections are refused, and the third is accepted.
wait_for_port-Polls_example :
    (¬ (wait_for_port asleep 20 "192.0.2.10" 6466 wol_wait world ≡ stuck))
    × Ends
        (λ _ t. Answered asleep "192.0.2.10" 6466 1 (asleep.now 0 + wol_wait) world t)
        (GivesUp asleep "192.0.2.10" 6466 1 (asleep.now 0 + wol_wait) world)
        (wait_for_port asleep 20 "192.0.2.10" 6466 wol_wait world)
wait_for_port-Polls_example =
    wait_for_port-Polls asleep 20 14 "192.0.2.10" 6466 wol_wait world asleep-Advances (omega arith)

magic_packet-layout_example : magic_packet mac ≡ replicate 6 0xff ++ repeat 16 mac
magic_packet-layout_example = magic_packet-layout mac refl

abbrev mac_bytes : All IsByte mac
mac_bytes =
    (omega arith, (omega arith, (omega arith, (omega arith, (omega arith, (omega arith, tt))))))

abbrev mixed : List ℕ
mixed = 0xbc ∷ 0x3b ∷ 0xc9 ∷ 0x97 ∷ 0x84 ∷ 0x77 ∷ []

parse_mac-mac_text_example : parse_mac (mac_text b'-' mac) ≡ ok mac
parse_mac-mac_text_example = parse_mac-mac_text b'-' mac refl refl mac_bytes

-- Upper and lower case, both separators.
parse_mac-written_example :
    (parse_mac (codes "bC:3b-C9:97:84:77") ≡ ok mixed)
    ↔ ((length mixed ≡ 6) × Writes (codes "bC:3b-C9:97:84:77") mixed)
parse_mac-written_example = parse_mac-written (codes "bC:3b-C9:97:84:77") mixed

-- `u8::from_str_radix` skips a leading `+`.
parse_mac_plus :
    parse_mac (codes "+f:3b:c9:97:84:77") ≡ ok (0x0f ∷ 0x3b ∷ 0xc9 ∷ 0x97 ∷ 0x84 ∷ 0x77 ∷ [])
unfolding parse_mac
parse_mac_plus = refl

-- A TV that sends zero bytes without end.
silent_tv : Env
unfolding tv
silent_tv = record tv { inbound = λ _ _. ok 0 }

read_power_loop_endless_example :
    read_power_loop silent_tv 1000 (record { id = 0 }) (silent 547) false world ≡ stuck
unfolding silent_tv
read_power_loop_endless_example =
    read_power_loop_endless silent_tv refl (λ _ _. refl) 1000 (record { id = 0 }) 547 false world

silent_tv-Advances : Advances silent_tv 5 5000
unfolding silent_tv tv env_of
silent_tv-Advances i = omega arith

press-Deadline_example :
    (¬ (press silent_tv 10 (record { id = 0 }) (silent 547) true world ≡ stuck))
    × Ends
        (λ _ t. Few silent_tv (record { id = 0 }) 6 t)
        (λ _ t. Few silent_tv (record { id = 0 }) 6 t)
        (press silent_tv 10 (record { id = 0 }) (silent 547) true world)
press-Deadline_example =
    press-Deadline silent_tv (record { id = 0 }) 4 10 silent_tv-Advances (omega arith) (silent 547)
      true world
