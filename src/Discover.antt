-- ===== src/Discover.antt =====
-- discover.rs: the devices that mDNS resolves within a time. The daemon and the receiver of the
-- mdns_sd crate answer in the Env; closing the daemon is left out, since its result is dropped.
pub mod Kinds
pub mod Text
pub mod Table
pub mod Choice
pub mod Collect
pub mod Heard
pub mod Ending
pub mod Closed
use atv.Base.{
  ℕ, zero, suc, ◌+◌, ◌-◌, ◌*◌, String, ◌<>◌, Bool, true, false, Option, none, some, List, [], ◌∷◌,
  ltb, if◌then◌else◌,
}
use atv.Base.Exec.{Exec, Result, ok, err, pure, lift, map_err, stuck, returns, ◌>>=◌, ◌>>◌}
use atv.Error.{AtvError, protocol_error}
use atv.World.{
  Env, World, Address, ServiceInfo, ServiceEvent, resolved, other_event, instant_now, note, waited,
  timestamp,
}
use atv.Tls.{because}
use atv.Discover.Text.{strip_suffix}
use atv.Discover.Table.{insert, into_values}

-- `SERVICE_TYPE`
abbrev pub service_type : String
service_type = "_androidtvremote2._tcp.local."

pub record Device : Type 0 where
  pub name : String
  pub host : String
  pub port : ℕ

pub record DiscoverOutput : Type 0 where
  pub timestamp : String
  pub devices : List Device

-- The closure `mdns_err`.
abbrev pub mdns_err : String → String → AtvError
mdns_err what = because protocol_error (what <> ": ")

-- `addrs.iter().find(|a| a.is_ipv4())`
unfoldable pub find_ipv4 : List Address → Option Address
find_ipv4 [] = none
find_ipv4 (a ∷ rest) = if a.is_ipv4 then some a else find_ipv4 rest

abbrev pub first_address : List Address → Option Address
first_address [] = none
first_address (a ∷ rest) = some a

unfoldable pub choose_address : List Address → Option Address
choose_address addrs = elim (find_ipv4 addrs) [ some a ↦ some a | none ↦ first_address addrs ]

unfoldable pub device_name : String → String
device_name fullname = elim (strip_suffix fullname ("." <> service_type)) [
  | some name ↦ name
  | none ↦ fullname
]

abbrev pub device_of : ServiceInfo → Address → Device
device_of info addr = record {
  name = device_name info.fullname;
  host = addr.text;
  port = info.port;
}

abbrev pub Devices : Type 0
Devices = List (String × Device)

module _ (env : Env) where
  -- `format!("{}:{}", device.host, device.port)`
  unfoldable pub device_key : Device → String
  device_key d = d.host <> ":" <> env.i32_text d.port

  -- The arm `ServiceResolved(info)`.
  unfoldable pub on_resolved : ServiceInfo → Devices → Devices
  on_resolved info devices = elim (choose_address info.addresses) [
    | none ↦ devices
    | some addr ↦ insert (device_key (device_of info addr)) (device_of info addr) devices
  ]

  -- The match on what the receiver answers; `true` where the loop is left.
  unfoldable pub on_event : Result String ServiceEvent → Devices → Devices × Bool
  on_event (ok (resolved info)) devices = (on_resolved info devices, false)
  on_event (ok other_event) devices = (devices, false)
  on_event (err e) devices = (devices, true)

  -- `receiver.recv_timeout(remaining)`
  unfoldable pub recv_timeout : ℕ → Exec World AtvError (Result String ServiceEvent)
  recv_timeout ms w = returns (env.mdns_event w.readings) (record w { log = waited ms ∷ w.log })

  -- The loop: it goes on while time remains.
  unfoldable pub browse_loop : ℕ → ℕ → Devices → Exec World AtvError Devices
  browse_loop zero deadline devices = λ w. stuck
  browse_loop (suc fuel) deadline devices = do
    now ← instant_now env
    elim (ltb now deadline) [
      | false ↦ pure devices
      | true ↦ do
        event ← recv_timeout (deadline - now)
        elim (on_event event devices).1 [
          | true ↦ pure (on_event event devices).0
          | false ↦ browse_loop fuel deadline (on_event event devices).0
        ]
    ]

  abbrev pub found : Devices → String → DiscoverOutput
  found devices at = record { timestamp = at; devices = into_values devices }

  unfoldable pub discover : ℕ → ℕ → Exec World AtvError DiscoverOutput
  discover fuel timeout_secs = do
    map_err (mdns_err "mDNS daemon failed") (lift env.mdns_daemon)
    map_err (mdns_err "mDNS browse failed") (lift env.mdns_browse)
    start ← instant_now env
    devices ← browse_loop fuel (start + timeout_secs * 1000) []
    at ← timestamp env
    pure (found devices at)
