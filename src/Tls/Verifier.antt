-- ===== src/Tls/Verifier.antt =====
-- tls.rs: the certificate verifier, which trusts any TV: pairing is where the trust comes from.
use atv.Base.{ℕ, String, List}
use atv.Base.Exec.{Result, ok}

-- `SignatureScheme` is its number, and `DigitallySignedStruct` a scheme and a signature.
pub record DigitallySignedStruct : Type 0 where
  pub scheme : ℕ
  pub signature : List ℕ

-- `ServerCertVerified` and `HandshakeSignatureValid`, of which rustls has the value `assertion()`.
pub data Assertion : Type 0 where
  assertion : Assertion

pub record AcceptAnyServerCert : Type 0 where
  pub schemes : List ℕ

-- `AcceptAnyServerCert::new`, from the schemes that the ring provider supports.
abbrev pub new : List ℕ → AcceptAnyServerCert
new supported_schemes = record { schemes = supported_schemes }

-- The methods; none looks at its arguments. An error would be a rustls error, by its text.
unfoldable pub verify_server_cert :
    AcceptAnyServerCert → List ℕ → List (List ℕ) → String → List ℕ → ℕ → Result String Assertion
verify_server_cert self end_entity intermediates server_name ocsp_response now = ok assertion

unfoldable pub verify_tls12_signature :
    AcceptAnyServerCert → List ℕ → List ℕ → DigitallySignedStruct → Result String Assertion
verify_tls12_signature self message cert dss = ok assertion

unfoldable pub verify_tls13_signature :
    AcceptAnyServerCert → List ℕ → List ℕ → DigitallySignedStruct → Result String Assertion
verify_tls13_signature self message cert dss = ok assertion

unfoldable pub supported_verify_schemes : AcceptAnyServerCert → List ℕ
supported_verify_schemes self = self.schemes
