-- ===== src/Identity/Kinds.antt =====
-- Making the credentials fails with config_io only.
use atv.Base.{◌≡◌, refl, ◌&&◌, Bool-cases, inl, inr}
use atv.Base.Exec.{Result, ok, err, lift, map_err}
use atv.Base.Only.{Only, Only-bind, Only-map_err, Only-lift, Errs, Errs-bind}
use atv.Error.{AtvError, config_io}
use atv.World.{Env, FilePath}
use atv.Config.{join, is_file}
use atv.Tls.{because, blame}
use atv.Identity.{
  cannot_create, cannot_write, create_dir_all, write_file, open_private, write_open, write_key_file,
  make_identity, ensure_identity,
}
use atv.Identity.Generate.{generate_identity}

abbrev pub IsConfig : AtvError → Type 0
IsConfig e = e.kind ≡ config_io

blame-IsConfig :
    {A E : Type 0} (f : E → AtvError) (r : Result E A)
    → ((e : E) → IsConfig (f e))
    → Errs IsConfig (blame f r)
blame-IsConfig f (ok a) h = tt
blame-IsConfig f (err e) h = h e

module _ (env : Env) where
  generate_identity-IsConfig : Errs IsConfig (generate_identity env)
  unfolding generate_identity
  generate_identity-IsConfig =
      Errs-bind IsConfig (blame (because config_io "RSA key generation failed: ") env.rsa_new_key) _
        (blame-IsConfig _ env.rsa_new_key (λ _. refl))
        λ key.
          Errs-bind IsConfig
            (blame (because config_io "PKCS#8 encoding failed: ") (env.to_pkcs8_der key)) _
            (blame-IsConfig _ (env.to_pkcs8_der key) (λ _. refl))
            λ key_der.
              Errs-bind IsConfig
                (blame (because config_io "rcgen key import failed: ") (env.from_pkcs8_der key_der))
                _ (blame-IsConfig _ (env.from_pkcs8_der key_der) (λ _. refl))
                λ key_pair.
                  Errs-bind IsConfig
                    (blame (because config_io "certificate build failed: ")
                      (env.self_signed key_pair))
                    _ (blame-IsConfig _ (env.self_signed key_pair) (λ _. refl))
                    λ cert.
                      Errs-bind IsConfig
                        (blame (because config_io "PEM encoding failed: ") (env.to_pem key_der)) _
                        (blame-IsConfig _ (env.to_pem key_der) (λ _. refl)) λ key_pem. tt

  make_identity-Only : (dir : FilePath) → Only IsConfig (make_identity env dir)
  unfolding make_identity write_key_file
  make_identity-Only dir =
      Only-bind IsConfig (map_err (cannot_create dir) (create_dir_all env dir)) _
        (Only-map_err IsConfig (cannot_create dir) (create_dir_all env dir) (λ _. refl))
        λ _.
          Only-bind IsConfig (lift (generate_identity env)) _
            (Only-lift IsConfig (generate_identity env) generate_identity-IsConfig)
            λ (cert_pem, key_pem).
              let cert = join dir "cert.pem" in
              let key = join dir "key.pem" in
              Only-bind IsConfig (map_err (cannot_write cert) (write_file env cert cert_pem)) _
                (Only-map_err IsConfig (cannot_write cert) (write_file env cert cert_pem)
                  (λ _. refl))
                λ _.
                  Only-bind IsConfig (map_err (cannot_create key) (open_private env key)) _
                    (Only-map_err IsConfig (cannot_create key) (open_private env key) (λ _. refl))
                    λ _.
                      Only-map_err IsConfig (cannot_write key) (write_open env key key_pem)
                        (λ _. refl)

  pub ensure_identity-Only : (dir : FilePath) → Only IsConfig (ensure_identity env dir)
  unfolding ensure_identity
  ensure_identity-Only dir = record {
    at = λ w.
        elim (Bool-cases (is_file (join dir "cert.pem") w && is_file (join dir "key.pem") w)) [
          | inl e ↦ rw (e, ensure_identity) tt
          | inr e ↦ rw (e, ensure_identity) ((make_identity-Only dir).at w)
        ];
  }
