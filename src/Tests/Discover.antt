-- ===== src/Tests/Discover.antt =====
-- discover.rs at two announcements of one TV.
use atv.Base.{◌≡◌, refl, String, true, false, List, [], ◌∷◌, ◌==◌, if◌then◌else◌, arith}
use atv.Base.Exec.{Run, ok, returns}
use atv.Base.Ends.{Ends}
use atv.Error.{AtvError}
use atv.World.{Env, World, Address, ServiceEvent, resolved}
use atv.Discover.{
  Device, DiscoverOutput, choose_address, find_ipv4, device_name, device_key, on_resolved, on_event,
  recv_timeout, browse_loop, discover,
}
use atv.Discover.Text.{strip_suffix}
use atv.Discover.Table.{insert, get}
use atv.Discover.Choice.{Chosen, choose_address-Chosen}
use atv.Discover.Collect.{collect, last_announced, get-collect, IsTable, collect-IsTable}
use atv.Discover.Heard.{Lists, IsProtocolError, discover-Lists}
use atv.Session.Wake.Ending.{Advances}
use atv.Tests.Fixture.{env_of, world}

abbrev addresses : List Address
addresses =
    record { text = "fe80::1"; is_ipv4 = false }
    ∷ record { text = "192.0.2.10"; is_ipv4 = true }
    ∷ []

abbrev announce : String → ServiceEvent
announce fullname = resolved (record { fullname = fullname; addresses = addresses; port = 6466 })

abbrev events : List ServiceEvent
events =
    announce "Old._androidtvremote2._tcp.local."
    ∷ announce "Living room._androidtvremote2._tcp.local."
    ∷ []

-- The clock shows a second more at each reading.
lan : Env
unfolding env_of
lan = record (env_of (λ _. [])) {
  i32_text = λ _. "6466";
  mdns_event = λ i. ok (
      announce (
        if i == 2
        then "Old._androidtvremote2._tcp.local."
        else "Living room._androidtvremote2._tcp.local."));
}

run_discover : Run World AtvError DiscoverOutput
unfolding lan env_of discover browse_loop recv_timeout on_event on_resolved choose_address find_ipv4
    device_name device_key strip_suffix insert
run_discover = discover lan 5 3 world

devices_of : Run World AtvError DiscoverOutput → List Device
devices_of (returns out t) = out.devices
devices_of _ = []

run_lists :
    devices_of run_discover ≡ record { name = "Living room"; host = "192.0.2.10"; port = 6466 } ∷ []
unfolding run_discover devices_of
run_lists = refl

choose_address-Chosen_example : Chosen addresses (choose_address addresses)
choose_address-Chosen_example = choose_address-Chosen addresses

get-collect_example :
    get "192.0.2.10:6466" (collect lan events []) ≡ last_announced lan "192.0.2.10:6466" events
get-collect_example = get-collect lan "192.0.2.10:6466" events

collect-IsTable_example : IsTable lan (collect lan events [])
collect-IsTable_example = collect-IsTable lan events

discover-Lists_example : Ends (Lists lan 3 world) (IsProtocolError lan) (discover lan 5 3 world)
discover-Lists_example = discover-Lists lan 5 3 world

lan-Advances : Advances lan 3 3000
unfolding lan env_of
lan-Advances i = omega arith
