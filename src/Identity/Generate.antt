-- ===== src/Identity/Generate.antt =====
-- identity.rs: a new key and the certificate for it; the crates rsa and rcgen are parameters.
use atv.Base.{List, ℕ}
use atv.Base.Exec.{Result, ok}
use atv.Base.Results.{◌>>=◌}
use atv.Error.{AtvError, config_io}
use atv.World.{Env}
use atv.Tls.{because, blame}

module _ (env : Env) where
  -- The certificate and the key, both as PEM.
  unfoldable pub generate_identity : Result AtvError (List ℕ × List ℕ)
  generate_identity = do
    key ← blame (because config_io "RSA key generation failed: ") env.rsa_new_key
    key_der ← blame (because config_io "PKCS#8 encoding failed: ") (env.to_pkcs8_der key)
    key_pair ← blame (because config_io "rcgen key import failed: ") (env.from_pkcs8_der key_der)
    cert ← blame (because config_io "certificate build failed: ") (env.self_signed key_pair)
    key_pem ← blame (because config_io "PEM encoding failed: ") (env.to_pem key_der)
    ok (cert, key_pem)
