-- ===== src/World.antt =====
-- What the program meets and what it does to it: the network, the TV, the clock and the file
-- system. `Env` is the part that the program cannot choose, answers by the number of the question.
-- `World` is what the program has done so far.
pub mod Conn
pub mod Effects
pub mod Closed
pub mod Speech
pub mod Chat
use atv.Base.{ℕ, suc, ◌+◌, String, Bool, Option, none, some, List, ◌∷◌, if◌then◌else◌, str_eq}
use atv.Base.Exec.{Exec, Result, ok, err, returns, fails}
use atv.Stream.{IoError, Codec}
use atv.Proto.Remote.{RemoteMessage}
use atv.Proto.Polo.{OuterMessage}

-- `IpAddr`, by its `Display`.
abbrev pub IpAddr : Type 0
IpAddr = String

abbrev pub FilePath : Type 0
FilePath = String

-- `mode` is the permission bits.
pub record File : Type 0 where
  pub content : List ℕ
  pub mode : ℕ

-- `IpAddr` of a discovered device, by its `Display` and `is_ipv4`.
pub record Address : Type 0 where
  pub text : IpAddr
  pub is_ipv4 : Bool

-- `mdns_sd::ServiceInfo`, with the addresses in the order of the set's iterator.
pub record ServiceInfo : Type 0 where
  pub fullname : String
  pub addresses : List Address
  pub port : ℕ

pub data ServiceEvent : Type 0 where
  resolved : ServiceInfo → ServiceEvent
  other_event : ServiceEvent

pub data Event : Type 0 where
  -- `TcpStream::connect_timeout`, with the milliseconds
  connecting : IpAddr → ℕ → ℕ → Event
  -- a `write_all` on the connection of that number
  sent : ℕ → List ℕ → Event
  slept : ℕ → Event
  read_timeout : ℕ → Event
  -- a datagram from a socket on 0.0.0.0, port 0, to an address and a port
  broadcast : String → ℕ → List ℕ → Event
  -- `recv_timeout` on the mDNS receiver, with the milliseconds
  waited : ℕ → Event
  -- a line on stderr, a line on stdout
  eprinted : String → Event
  printed : String → Event

pub record Env : Type 0 where
  -- the connection attempts: TCP, the two socket timeouts, `ClientConnection::new`
  pub connect_tcp : ℕ → Result IoError (Unit {0})
  pub set_read_timeout : ℕ → Result IoError (Unit {0})
  pub set_write_timeout : ℕ → Result IoError (Unit {0})
  pub tls_new : ℕ → Result String (Unit {0})
  -- the byte at a position of a connection's stream, or how the read that reaches it fails
  pub inbound : ℕ → ℕ → Result IoError ℕ
  -- the failure of the `write_all` of that number, if it fails
  pub write_fault : ℕ → Option IoError
  pub peer_certificate : ℕ → Option (List ℕ)
  -- the reading of `Instant::now()` of that number, in milliseconds
  pub now : ℕ → ℕ
  pub timestamp : ℕ → String
  -- the failure of the `writeln!` to stdout, or of the flush behind it, if one fails
  pub stdout_fault : Option IoError
  pub socket_addr : IpAddr → ℕ → String
  pub var_os : String → Option String
  pub read_fault : FilePath → Option IoError
  pub write_file_fault : FilePath → Option IoError
  -- a `write_all` to a file that is open
  pub file_write_fault : FilePath → Option IoError
  -- a line of ASCII text from stdin
  pub stdin_line : Result IoError (List ℕ)
  pub create_dir_fault : FilePath → Option IoError
  -- rustls and rustls_pemfile; the error is its text
  pub pem_certs : List ℕ → Result String (List (List ℕ))
  pub pem_private_key : List ℕ → Result String (Option (List ℕ))
  pub supported_schemes : List ℕ
  pub protocol_versions : Result String (Unit {0})
  pub client_auth_cert : List (List ℕ) → List ℕ → Result String (Unit {0})
  -- the rsa crate and rcgen: a new key, its PKCS#8 form, its import, a certificate, and the PEM
  pub rsa_new_key : Result String (List ℕ)
  pub to_pkcs8_der : List ℕ → Result String (List ℕ)
  pub from_pkcs8_der : List ℕ → Result String (List ℕ)
  pub self_signed : List ℕ → Result String (List ℕ)
  pub to_pem : List ℕ → Result String (List ℕ)
  -- x509_parser: modulus and exponent, or `none` where the key is not RSA
  pub rsa_public_key : List ℕ → Result String (Option (List ℕ × List ℕ))
  pub sha256 : List ℕ → List ℕ
  -- how the error message shows a status, and a code
  pub status_text : ℕ → String
  pub debug_text : List ℕ → String
  -- binding the socket, `set_broadcast` and `send_to`
  pub udp_bind : Result IoError (Unit {0})
  pub udp_set_broadcast : Result IoError (Unit {0})
  pub udp_send_to : Result IoError (Unit {0})
  -- the generated code
  pub remote : Codec RemoteMessage
  pub polo : Codec OuterMessage
  -- `RemoteKeyCode::try_from` followed by `as_str_name`
  pub key_name : ℕ → Option String
  -- `RemoteKeyCode::from_str_name`
  pub key_of_name : List ℕ → Option ℕ
  -- mdns_sd: the daemon, the browser, and what the receiver answers after that reading of the clock
  pub mdns_daemon : Result String (Unit {0})
  pub mdns_browse : Result String (Unit {0})
  pub mdns_event : ℕ → Result String ServiceEvent
  -- the decimal text of an i32 or u16
  pub i32_text : ℕ → String

-- `connects`, `writes` and `readings` count the questions asked; `position` is the place in the
-- stream of the last connection; `log` has the newest event first.
pub record World : Type 0 where
  pub connects : ℕ
  pub position : ℕ
  pub writes : ℕ
  pub readings : ℕ
  pub files : FilePath → Option File
  pub log : List Event

-- An effect that cannot fail.
abbrev pub note : {E : Type 0} → Event → Exec World E (Unit {0})
note e w = returns tt (record w { log = e ∷ w.log })

-- `std::thread::sleep`
abbrev pub sleep : {E : Type 0} → ℕ → Exec World E (Unit {0})
sleep ms = note (slept ms)

module _ (env : Env) where
  -- `Instant::now()`
  abbrev pub instant_now : {E : Type 0} → Exec World E ℕ
  instant_now w = returns (env.now w.readings) (record w { readings = suc w.readings })

  -- `output::timestamp()`
  abbrev pub timestamp : {E : Type 0} → Exec World E String
  timestamp w = returns (env.timestamp w.readings) (record w { readings = suc w.readings })

-- The file written last wins.
abbrev pub insert : FilePath → File → (FilePath → Option File) → FilePath → Option File
insert path file files p = if str_eq p path then some file else files p
