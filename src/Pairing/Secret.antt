-- ===== src/Pairing/Secret.antt =====
-- pairing.rs: the pairing secret. SHA-256 and the reading of certificates are parameters.
use atv.Base.{
  ℕ, zero, suc, ◌<>◌, Bool, true, ◌&&◌, ◌||◌, not, none, some, List, [], ◌∷◌, ◌++◌, length, is_some,
  ◌==◌, if◌then◌else◌,
}
use atv.Base.Exec.{Result, ok, err}
use atv.Base.Results.{◌>>=◌}
use atv.Error
use atv.Error.{AtvError, pairing_failed, protocol_error}
use atv.World.{Env}
use atv.Tls.{because, blame}
use atv.Wol.{hex_digit, from_str_radix}

unfoldable pub strip_leading_zeros : List ℕ → List ℕ
strip_leading_zeros [] = []
strip_leading_zeros (zero ∷ bytes) = strip_leading_zeros bytes
strip_leading_zeros (suc b ∷ bytes) = suc b ∷ bytes

-- `code.chars().all(|c| c.is_ascii_hexdigit())`
unfoldable pub all_hex : List ℕ → Bool
all_hex [] = true
all_hex (c ∷ code) = is_some (hex_digit c) && all_hex code

-- `&code[from..from + 2]`
abbrev pub two_at : ℕ → List ℕ → List ℕ
two_at zero (a ∷ b ∷ s) = a ∷ b ∷ []
two_at zero (a ∷ []) = a ∷ []
two_at zero [] = []
two_at (suc i) [] = []
two_at (suc i) (c ∷ s) = two_at i s

-- `u8::from_str_radix(s, 16).expect("validated hex")`, with 0 for the panic.
unfoldable pub hex_byte : List ℕ → ℕ
hex_byte s = elim (from_str_radix s) [ some b ↦ b | none ↦ 0 ]

-- `digest[0]`
abbrev pub first_byte : List ℕ → ℕ
first_byte [] = 0
first_byte (b ∷ _) = b

module _ (env : Env) where
  unfoldable pub rsa_numbers : List ℕ → Result AtvError (List ℕ × List ℕ)
  rsa_numbers cert_der = do
    key ← blame (because protocol_error "cannot parse certificate: ") (env.rsa_public_key cert_der)
    elim key [
      | some (modulus, exponent) ↦ ok (strip_leading_zeros modulus, strip_leading_zeros exponent)
      | none ↦ err (Error.new protocol_error "certificate public key is not RSA")
    ]

  -- What is hashed.
  abbrev pub hashed : List ℕ × List ℕ → List ℕ × List ℕ → List ℕ → List ℕ
  hashed client server code =
      client.0
      ++ (client.1
          ++ (server.0 ++ (server.1 ++ (hex_byte (two_at 2 code) ∷ hex_byte (two_at 4 code) ∷ []))))

  -- From the check of the code on.
  unfoldable pub checked_secret : List ℕ → List ℕ → List ℕ → Result AtvError (List ℕ)
  checked_secret client_cert_der server_cert_der code = do
    client ← rsa_numbers client_cert_der
    server ← rsa_numbers server_cert_der
    let digest = env.sha256 (hashed client server code)
    if not (first_byte digest == hex_byte (two_at 0 code))
        then err
            (Error.new pairing_failed "pairing code checksum mismatch — was the code mistyped?")
        else ok digest

  unfoldable pub compute_pairing_secret : List ℕ → List ℕ → List ℕ → Result AtvError (List ℕ)
  compute_pairing_secret client_cert_der server_cert_der code =
      if not (length code == 6) || not (all_hex code)
      then err (
          Error.new pairing_failed
            ("pairing code must be exactly 6 hex digits, got " <> env.debug_text code))
      else checked_secret client_cert_der server_cert_der code
