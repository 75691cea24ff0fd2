-- ===== src/Tls/Effects.antt =====
-- What loading the credentials and connecting change.
use atv.Base.{ℕ, suc, ◌∷◌, Bool-cases, inl, inr, ◌&&◌, Option-cases}
use atv.Base.Exec.{map_err, lift, Result-cases}
use atv.Base.Ends.{Ends, Keeps, Ends-bind, Ends-map_err, Keeps-lift, Keeps-map_err, Keeps-bind}
use atv.World.{Env, World, FilePath, IpAddr, connecting}
use atv.Config.{credential_dir_from_env, resolve_credential_dir, ensure_paired, is_file, join}
use atv.Tls.{read_file, from_credential_dir, connect_timeout, connect}
use atv.Tls.Pure.{TlsClient, host_unreachable, set_up, client_from_pem}

module _ {κ} (env : Env) (P : World → Type κ) where
  pub credential_dir_from_env-Keeps : Keeps P (credential_dir_from_env env)
  unfolding credential_dir_from_env
  credential_dir_from_env-Keeps = Keeps-lift P (
      resolve_credential_dir (env.var_os "ATV_CONFIG_DIR") (env.var_os "XDG_CONFIG_HOME")
        (env.var_os "HOME"))

  ensure_paired-Keeps : (dir : FilePath) → Keeps P (ensure_paired dir)
  unfolding ensure_paired
  ensure_paired-Keeps dir = record {
    at = λ w h.
        let stored = is_file (join dir "cert.pem") w && is_file (join dir "key.pem") w in
        elim (Bool-cases stored) [
          | inl e ↦ rw (e, ensure_paired) h
          | inr e ↦ rw (e, ensure_paired) h
        ];
  }

  pub read_file-Keeps : (path : FilePath) → Keeps P (read_file env path)
  unfolding read_file
  read_file-Keeps path = record {
    at = λ w h. elim (Option-cases (w.files path)) [
      | inl e ↦ rw (e, read_file) h
      | inr (file, e) ↦ elim (Option-cases (env.read_fault path)) [
        | inl f ↦ rw (e, f, read_file) h
        | inr (x, f) ↦ rw (e, f, read_file) h
      ]
    ];
  }

  -- Loading the credentials changes nothing.
  pub from_credential_dir-Keeps : (dir : FilePath) → Keeps P (from_credential_dir env dir)
  unfolding from_credential_dir
  from_credential_dir-Keeps dir = Keeps-bind _ (ensure_paired dir) _ (ensure_paired-Keeps dir) λ _.
      Keeps-bind _ _ _ (Keeps-map_err _ _ _ (read_file-Keeps (join dir "cert.pem"))) λ cert_pem.
        Keeps-bind _ _ _ (Keeps-map_err _ _ _ (read_file-Keeps (join dir "key.pem")))
          λ key_pem. Keeps-lift _ (client_from_pem env cert_pem key_pem)

module _ {κ} (env : Env) (P Q : World → Type κ) (host : IpAddr) (port ms : ℕ)
    (tried : (w : World)
      → P w
      → Q (record w {
        connects = suc w.connects;
        position = 0;
        log = connecting host port ms ∷ w.log;
      })) where
  -- A connection attempt is counted and logged, whether or not it succeeds.
  pub connect_timeout-Ends :
      (w : World) → P w → Ends (λ _ t. Q t) (λ _ t. Q t) (connect_timeout env host port ms w)
  unfolding connect_timeout
  connect_timeout-Ends w h = elim (Result-cases (env.connect_tcp w.connects)) [
    | inl (u, e) ↦ rw (e, connect_timeout) (tried w h)
    | inr (x, e) ↦ rw (e, connect_timeout) (tried w h)
  ]

  pub connect-Ends :
      (client : TlsClient) (w : World)
      → P w
      → Ends (λ _ t. Q t) (λ _ t. Q t) (connect env client host port ms w)
  unfolding connect
  connect-Ends client w h =
      let tcp_only = connect_timeout env host port ms in
      let blamed = host_unreachable env host port in
      Ends-bind (λ _ t. Q t) (λ _ t. Q t) (λ _ t. Q t) (map_err blamed tcp_only)
        (λ tcp. lift (set_up env host port tcp)) w
        (Ends-map_err (λ _ t. Q t) (λ _ t. Q t) blamed tcp_only w (connect_timeout-Ends w h))
        λ tcp t q. (Keeps-lift Q (set_up env host port tcp)).at t q
