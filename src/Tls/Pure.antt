-- ===== src/Tls/Pure.antt =====
-- The steps of tls.rs that only compute: a client from the text of its files, and the settings of
-- a new connection.
use atv.Base.{ℕ, String, ◌<>◌, Option, none, some, List, [], ◌∷◌}
use atv.Base.Exec.{Result, ok, err, ok_or}
use atv.Base.Results.{◌>>=◌, ◌>>◌}
use atv.Error
use atv.Error.{AtvError, ErrorKind, config_io, unreachable, protocol_error}
use atv.Stream.{IoError}
use atv.World.{Env, IpAddr}
use atv.Tls.Verifier
use atv.Tls.Verifier.{AcceptAnyServerCert}
use atv.World.Conn.{Conn}

-- `ClientConfig`, by what it is built from.
pub record ClientConfig : Type 0 where
  pub verifier : AcceptAnyServerCert
  pub certs : List (List ℕ)
  pub key : List ℕ

pub record TlsClient : Type 0 where
  pub client_cert_der : List ℕ
  pub config : ClientConfig

-- An error whose detail is a fixed text and the cause.
abbrev pub because : ErrorKind → String → String → AtvError
because k what cause = Error.new k (what <> cause)

abbrev pub first : List (List ℕ) → Option (List ℕ)
first [] = none
first (x ∷ _) = some x

-- `map_err` on a value.
abbrev pub blame : {E A : Type 0} → (E → AtvError) → Result E A → Result AtvError A
blame f (ok a) = ok a
blame f (err e) = err (f e)

module _ (env : Env) where
  unfoldable pub client_from_pem : List ℕ → List ℕ → Result AtvError TlsClient
  client_from_pem cert_pem key_pem = do
    certs ← blame (because config_io "cert.pem is not valid PEM: ") (env.pem_certs cert_pem)
    found ← blame (because config_io "key.pem is not valid PEM: ") (env.pem_private_key key_pem)
    key ← ok_or found (Error.new config_io "key.pem contains no private key")
    client_cert_der ← ok_or (first certs) (Error.new config_io "cert.pem contains no certificate")
    blame (because config_io "TLS config: ") env.protocol_versions
    blame (because config_io "client cert rejected by rustls: ") (env.client_auth_cert certs key)
    ok (record {
      client_cert_der = client_cert_der;
      config = record { verifier = Verifier.new env.supported_schemes; certs = certs; key = key };
    })

  -- The closure `unreachable`.
  abbrev pub host_unreachable : IpAddr → ℕ → IoError → AtvError
  host_unreachable host port e = Error.new unreachable (
      env.socket_addr host port
      <> " unreachable — TV powered off without network standby? ("
      <> e.text
      <> ")")

  -- What `connect` does once TCP is there. The result of `set_nodelay` is dropped, and no TLS byte
  -- moves yet.
  unfoldable pub set_up : IpAddr → ℕ → Conn → Result AtvError Conn
  set_up host port tcp = do
    blame (host_unreachable host port) (env.set_read_timeout tcp.id)
    blame (host_unreachable host port) (env.set_write_timeout tcp.id)
    blame (because protocol_error "TLS setup failed: ") (env.tls_new tcp.id)
    ok tcp

  unfoldable pub peer_cert_der : Conn → Result AtvError (List ℕ)
  peer_cert_der conn =
      ok_or (env.peer_certificate conn.id) (Error.new protocol_error "server sent no certificate")
