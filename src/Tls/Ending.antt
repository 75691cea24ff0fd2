-- ===== src/Tls/Ending.antt =====
-- Loading the credentials, connecting, reading and writing halt: no loop of theirs waits.
use atv.Base.{ℕ, ◌&&◌, List, Bool-cases, inl, inr, Option-cases}
use atv.Base.Exec.{map_err, Result-cases}
use atv.Base.Halts.{Halts-of-ne, Halting, Halting-lift, Halting-bind, Halting-map_err}
use atv.World.{Env, FilePath, IpAddr}
use atv.World.Conn.{Conn, conn_read, conn_write, reader-IsRead}
use atv.Config.{credential_dir_from_env, resolve_credential_dir, ensure_paired, is_file, join}
use atv.Tls.{read_file, from_credential_dir, connect_timeout, connect, TlsClient}
use atv.Tls.Pure.{host_unreachable, set_up, client_from_pem}

module _ (env : Env) where
  pub conn_read-Halting : (conn : Conn) (n : ℕ) → Halting (conn_read env conn n)
  conn_read-Halting conn n = record {
    at = λ w. Halts-of-ne (conn_read env conn n w) ((reader-IsRead env conn).read_ends n w);
  }

  pub conn_write-Halting : (conn : Conn) (bs : List ℕ) → Halting (conn_write env conn bs)
  unfolding conn_write
  conn_write-Halting conn bs = record {
    at = λ w. elim (Option-cases (env.write_fault w.writes)) [
      | inl e ↦ rw (e, conn_write) tt
      | inr (x, e) ↦ rw (e, conn_write) tt
    ];
  }

  pub credential_dir_from_env-Halting : Halting (credential_dir_from_env env)
  unfolding credential_dir_from_env
  credential_dir_from_env-Halting = Halting-lift (
      resolve_credential_dir (env.var_os "ATV_CONFIG_DIR") (env.var_os "XDG_CONFIG_HOME")
        (env.var_os "HOME"))

  ensure_paired-Halting : (dir : FilePath) → Halting (ensure_paired dir)
  unfolding ensure_paired
  ensure_paired-Halting dir = record {
    at = λ w.
        elim (Bool-cases (is_file (join dir "cert.pem") w && is_file (join dir "key.pem") w)) [
          | inl e ↦ rw (e, ensure_paired) tt
          | inr e ↦ rw (e, ensure_paired) tt
        ];
  }

  read_file-Halting : (path : FilePath) → Halting (read_file env path)
  unfolding read_file
  read_file-Halting path = record {
    at = λ w. elim (Option-cases (w.files path)) [
      | inl e ↦ rw (e, read_file) tt
      | inr (file, e) ↦ elim (Option-cases (env.read_fault path)) [
        | inl f ↦ rw (e, f, read_file) tt
        | inr (x, f) ↦ rw (e, f, read_file) tt
      ]
    ];
  }

  pub from_credential_dir-Halting : (dir : FilePath) → Halting (from_credential_dir env dir)
  unfolding from_credential_dir
  from_credential_dir-Halting dir =
      Halting-bind (ensure_paired dir) _ (ensure_paired-Halting dir) λ _.
        Halting-bind _ _ (Halting-map_err _ _ (read_file-Halting (join dir "cert.pem"))) λ cert_pem.
          Halting-bind _ _ (Halting-map_err _ _ (read_file-Halting (join dir "key.pem")))
            λ key_pem. Halting-lift (client_from_pem env cert_pem key_pem)

  module _ (host : IpAddr) (port ms : ℕ) where
    pub connect_timeout-Halting : Halting (connect_timeout env host port ms)
    unfolding connect_timeout
    connect_timeout-Halting = record {
      at = λ w. elim (Result-cases (env.connect_tcp w.connects)) [
        | inl (u, e) ↦ rw (e, connect_timeout) tt
        | inr (x, e) ↦ rw (e, connect_timeout) tt
      ];
    }

    pub connect-Halting : (client : TlsClient) → Halting (connect env client host port ms)
    unfolding connect
    connect-Halting client =
        Halting-bind (map_err (host_unreachable env host port) (connect_timeout env host port ms)) _
          (Halting-map_err _ _ connect_timeout-Halting)
          λ tcp. Halting-lift (set_up env host port tcp)
