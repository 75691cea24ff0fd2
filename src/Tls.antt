-- ===== src/Tls.antt =====
-- tls.rs: the client made from the credential files, and its connections.
mod Pure
pub mod Verifier
pub mod Kinds
pub mod Effects
pub mod Ending
pub mod Fails
unfoldable pub use Pure.*
use atv.Base.{ℕ, suc, Option, none, some, List, ◌∷◌}
use atv.Base.Exec.{Exec, ok, err, lift, map_err, returns, fails, ◌>>=◌, ◌>>◌}
use atv.Error.{AtvError, config_io}
use atv.Stream.{IoError, other}
use atv.World.{Env, World, FilePath, IpAddr, connecting}
use atv.World.Conn.{Conn}
use atv.Config.{join, ensure_paired}

abbrev pub not_found : IoError
not_found = record { kind = other; text = "No such file or directory (os error 2)" }

module _ (env : Env) where
  -- `std::fs::read`
  unfoldable pub read_file : FilePath → Exec World IoError (List ℕ)
  read_file path w = elim (w.files path) [
    | none ↦ fails not_found w
    | some file ↦ elim (env.read_fault path) [ some e ↦ fails e w | none ↦ returns file.content w ]
  ]

  unfoldable pub from_credential_dir : FilePath → Exec World AtvError TlsClient
  from_credential_dir dir = do
    ensure_paired dir
    cert_pem ←
        map_err (λ e. because config_io "cannot read cert.pem: " e.text)
          (read_file (join dir "cert.pem"))
    key_pem ←
        map_err (λ e. because config_io "cannot read key.pem: " e.text)
          (read_file (join dir "key.pem"))
    lift (client_from_pem env cert_pem key_pem)

  -- `TcpStream::connect_timeout`, which makes a connection of a new number.
  unfoldable pub connect_timeout : IpAddr → ℕ → ℕ → Exec World IoError Conn
  connect_timeout host port ms w =
      let id = w.connects in
      let w' = record w {
        connects = suc id;
        position = 0;
        log = connecting host port ms ∷ w.log;
      } in
      elim (env.connect_tcp id) [ ok _ ↦ returns (record { id = id }) w' | err e ↦ fails e w' ]

  unfoldable pub connect : TlsClient → IpAddr → ℕ → ℕ → Exec World AtvError Conn
  connect client host port ms = do
    tcp ← map_err (host_unreachable env host port) (connect_timeout host port ms)
    lift (set_up env host port tcp)
