-- ===== src/Pairing.antt =====
-- pairing.rs: the pairing messages, the secret, and the command `pair`. The code from stdin is a
-- list of ASCII bytes.
pub mod Secret
pub mod Code
pub mod Digest
pub mod Ending
pub mod Closed
pub mod Said
pub mod Reveals
pub mod Stored
pub mod Spoken
pub mod Agreed
pub mod Tells
pub mod Kinds
use atv.Base.{
  ℕ, zero, suc, ◌+◌, String, ◌<>◌, Bool, true, false, ◌&&◌, ◌||◌, not, Option, none, some, List, [],
  ◌∷◌, ◌++◌, length, codes, is_some, ◌==◌, leb, if◌then◌else◌,
}
use atv.Base.Exec.{Exec, Result, ok, err, pure, lift, map_err, stuck, ◌>>=◌, ◌>>◌}
use atv.Error
use atv.Error.{AtvError, pairing_failed, protocol_error}
use atv.Stream.{IoError}
use atv.Proto.Polo.{
  OuterMessage, ok_message, status_ok, Encoding, hexadecimal, role_input, Options, Configuration,
}
use atv.World.{Env, World, IpAddr, note, eprinted, timestamp}
use atv.World.Conn.{Conn, reader, writer}
use atv.Framing.{read_message, write_message}
use atv.Config.{credential_dir_from_env}
use atv.Tls.{TlsClient, from_credential_dir, connect, peer_cert_der, because}
use atv.Identity.{ensure_identity}
use atv.Pairing.Secret.{compute_pairing_secret}

abbrev hex6_encoding : Encoding
hex6_encoding = record { symbol_type = hexadecimal; symbol_length = 6 }

pub record PairingFlow : Type 0 where
  pub awaiting_code : Bool

-- `PairingFlow::new`
abbrev pub new : PairingFlow
new = record { awaiting_code = false }

abbrev pub initial_message : OuterMessage
initial_message = record ok_message {
  pairing_request =
      some (record { service_name = codes "atvremote"; client_name = some (codes "atv") });
}

abbrev pub options_message : OuterMessage
options_message = record ok_message {
  options = some (record {
    input_encodings = hex6_encoding ∷ [];
    output_encodings = [];
    preferred_role = some role_input;
  });
}

abbrev pub configuration_message : OuterMessage
configuration_message = record ok_message {
  configuration = some (record { encoding = hex6_encoding; client_role = role_input });
}

abbrev pub secret_message : List ℕ → OuterMessage
secret_message secret = record ok_message { secret = some (record { secret = secret }) }

-- `str::trim` and `str::to_lowercase` on ASCII.
is_space : ℕ → Bool
is_space c = (leb 9 c && leb c 13) || c == 32

trim_start : List ℕ → List ℕ
unfolding is_space
trim_start [] = []
trim_start (c ∷ s) = let rest = trim_start s in if is_space c then rest else c ∷ s

trim_end : List ℕ → List ℕ
unfolding is_space
trim_end [] = []
trim_end (c ∷ s) = elim (trim_end s) [ [] ↦ if is_space c then [] else c ∷ [] | d ∷ t ↦ c ∷ d ∷ t ]

to_lowercase : List ℕ → List ℕ
to_lowercase [] = []
to_lowercase (c ∷ s) = (if leb b'A' c && leb c b'Z' then c + 32 else c) ∷ to_lowercase s

unfoldable pub clean_code : List ℕ → List ℕ
unfolding trim_start trim_end to_lowercase
clean_code line = to_lowercase (trim_end (trim_start line))

pub record PairOutput : Type 0 where
  pub timestamp : String
  pub host : String
  pub paired : Bool

abbrev pub io_failed : IoError → AtvError
io_failed e = because protocol_error "pairing I/O failed: " e.text

abbrev pub no_code : IoError → AtvError
no_code e = because pairing_failed "could not read code from stdin: " e.text

abbrev pub no_ack : IoError → AtvError
no_ack e =
    Error.new pairing_failed
      ("TV closed the connection after the secret — wrong code? (" <> e.text <> ")")

module _ (env : Env) where
  -- `PairingFlow::handle`
  unfoldable pub handle :
      PairingFlow → OuterMessage → Result AtvError (Option OuterMessage) × PairingFlow
  handle flow msg =
      if not (msg.status == status_ok)
      then (
        err (
            Error.new pairing_failed (
              "TV reported pairing status "
              <> env.status_text msg.status
              <> " — wrong code or user declined?")),
        flow,
      )
      else if is_some msg.pairing_request_ack
      then (ok (some options_message), flow)
      else if is_some msg.options
      then (ok (some configuration_message), flow)
      else if is_some msg.configuration_ack
      then (ok none, record { awaiting_code = true })
      else if is_some msg.secret_ack
      then (ok none, flow)
      else (err (Error.new protocol_error "unexpected pairing message"), flow)

  unfoldable pub receive : Conn → Exec World IoError OuterMessage
  receive conn = read_message (reader env conn) env.polo

  unfoldable pub send : Conn → OuterMessage → Exec World IoError (Unit {0})
  send conn msg = write_message env.polo (writer env conn) msg

  unfoldable pub send_reply : Conn → Option OuterMessage → Exec World AtvError (Unit {0})
  send_reply conn none = pure tt
  send_reply conn (some reply) = map_err io_failed (send conn reply)

  -- The body of the loop `while !flow.awaiting_code()`.
  unfoldable pub flow_round : Conn → PairingFlow → Exec World AtvError PairingFlow
  flow_round conn flow = do
    msg ← map_err io_failed (receive conn)
    reply ← lift (handle flow msg).0
    send_reply conn reply
    pure (handle flow msg).1

  unfoldable pub flow_loop : ℕ → Conn → PairingFlow → Exec World AtvError PairingFlow
  flow_loop zero conn flow = λ w. stuck
  flow_loop (suc fuel) conn flow = elim flow.awaiting_code [
    | true ↦ pure flow
    | false ↦ do flow' ← flow_round conn flow; flow_loop fuel conn flow'
  ]

  -- The part of `pair` after the loop, while the TV shows the code.
  unfoldable pub finish : IpAddr → TlsClient → Conn → PairingFlow → Exec World AtvError PairOutput
  finish host tls conn flow = do
    note (eprinted "Enter the 6-digit code shown on the TV:")
    line ← map_err no_code (lift env.stdin_line)
    server_der ← lift (peer_cert_der env conn)
    secret ← lift (compute_pairing_secret env tls.client_cert_der server_der (clean_code line))
    map_err io_failed (send conn (secret_message secret))
    ack ← map_err no_ack (receive conn)
    reply ← lift (handle flow ack).0
    at ← timestamp env
    pure (record { timestamp = at; host = host; paired = true })

  unfoldable pub pair : ℕ → IpAddr → ℕ → Exec World AtvError PairOutput
  pair fuel host port = do
    dir ← credential_dir_from_env env
    ensure_identity env dir
    tls ← from_credential_dir env dir
    conn ← connect env tls host port 5000
    map_err io_failed (send conn initial_message)
    flow ← flow_loop fuel conn new
    finish host tls conn flow
