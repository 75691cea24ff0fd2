-- ===== src/Tests/Pairing.antt =====
-- pairing.rs and identity.rs at concrete inputs.
use atv.Base.{
  ℕ, zero, suc, ◌≡◌, refl, arith, length, ◌==◌, if◌then◌else◌, Bool, true, false, String, some,
  none, List, [], ◌∷◌, codes, is_some,
}
use atv.Base.Exec.{Run, Result, ok, err, returns}
use atv.Base.Ends.{Ends}
use atv.Error.{AtvError}
use atv.World.{Env, World}
use atv.World.Conn.{conn_read, conn_write}
use atv.Proto.Polo.{OuterMessage, ok_message}
use atv.Framing.{frame, read_message, write_message, encode_len, read_len}
use atv.Wol.{hex_digit, from_str_radix}
use atv.Config.{credential_dir_from_env, resolve_credential_dir, set, join, ensure_paired}
use atv.Tls.{
  from_credential_dir, read_file, connect, connect_timeout, client_from_pem, set_up, peer_cert_der,
}
use atv.Session.Power.Loops.{IsFinite}
use atv.Pairing.{
  PairOutput, options_message, configuration_message, handle, receive, send, send_reply, flow_round,
  flow_loop, finish, pair, clean_code,
}
use atv.Pairing.Said.{said, Revealed, Failed}
use atv.Pairing.Reveals.{pair-Reveals}
use atv.Identity.{ensure_identity}
use atv.Identity.Paired.{ensure_identity-paired}
use atv.Identity.Private.{Private, ensure_identity-Private}
use atv.Pairing.Secret.{
  compute_pairing_secret, checked_secret, rsa_numbers, strip_leading_zeros, all_hex, hex_byte,
  two_at,
}
use atv.Pairing.Digest.{IsSecret, compute_pairing_secret-digest, hex_byte_total}
use atv.Tests.Fixture.{closed, byte_at, byte_at-ends, env_of, world}

plain : Env
unfolding env_of
plain = env_of (λ _. [])

abbrev code : List ℕ
code = codes "06aabb"

-- The first `n` bytes, with zeros behind them where there are fewer.
pad : ℕ → List ℕ → List ℕ
pad zero bytes = []
pad (suc n) [] = 0 ∷ pad n []
pad (suc n) (b ∷ bytes) = b ∷ pad n bytes

length-pad : (n : ℕ) (bytes : List ℕ) → length (pad n bytes) ≡ n
unfolding pad
length-pad zero bytes = refl
length-pad (suc n) [] = omega (arith, length-pad n [])
length-pad (suc n) (b ∷ bytes) = omega (arith, length-pad n bytes)

-- The client's certificate is 1 and its key is 5 and 3; the server's key is 7 and 4. A digest begins
-- with the number of bytes hashed and the bytes themselves.
hashing : Env
unfolding plain pad
hashing = record plain {
  rsa_public_key = λ cert.
      ok (some (if length cert == 1 then (0 ∷ 5 ∷ [], 0 ∷ 0 ∷ 3 ∷ []) else (7 ∷ [], 0 ∷ 4 ∷ [])));
  sha256 = λ message. pad 32 (length message ∷ message);
}

hashing-long : (message : List ℕ) → length (hashing.sha256 message) ≡ 32
unfolding hashing
hashing-long message = length-pad 32 (length message ∷ message)

abbrev client : List ℕ
client = 1 ∷ []

digest : List ℕ
unfolding pad
digest = pad 32 (6 ∷ 5 ∷ 3 ∷ 7 ∷ 4 ∷ 0xaa ∷ 0xbb ∷ [])

secret : compute_pairing_secret hashing client [] code ≡ ok digest
unfolding plain hashing pad digest compute_pairing_secret checked_secret rsa_numbers
    strip_leading_zeros all_hex hex_byte from_str_radix hex_digit
secret = refl

compute_pairing_secret-digest_example : IsSecret hashing client [] code digest
compute_pairing_secret-digest_example =
    compute_pairing_secret-digest hashing hashing-long client [] code digest secret

hex_byte_total_example :
    (is_some (from_str_radix (two_at 0 code)) ≡ true)
    × (is_some (from_str_radix (two_at 2 code)) ≡ true)
    × (is_some (from_str_radix (two_at 4 code)) ≡ true)
unfolding all_hex hex_digit
hex_byte_total_example = hex_byte_total code refl refl

abbrev bare : World
bare = record world { files = λ _. none }

ensure_identity-paired_example :
    Ends
      (λ _ t.
        (ensure_paired "/etc/atv" t ≡ returns tt t)
        × (ensure_identity plain "/etc/atv" t ≡ returns tt t))
      (λ _ _. Unit)
      (ensure_identity plain "/etc/atv" bare)
ensure_identity-paired_example = ensure_identity-paired plain "/etc/atv" bare

-- A TV that acknowledges the request, sends its options, shows the code and takes the secret; the
-- codec knows these four messages by a number.
message : ℕ → OuterMessage
message k =
    if k == 1
    then record ok_message { pairing_request_ack = some (record { server_name = none }) }
    else if k == 2
    then options_message
    else if k == 3
    then record ok_message { configuration_ack = some tt }
    else record ok_message { secret_ack = some (record { secret = [] }) }

decode : List ℕ → Result String OuterMessage
unfolding message
decode [] = err "no message"
decode (k ∷ _) = ok (message k)

script : List ℕ
script = 1 ∷ 1 ∷ 1 ∷ 2 ∷ 1 ∷ 3 ∷ 1 ∷ 4 ∷ []

tv : Env
unfolding decode script env_of
tv = record (env_of (λ _. script)) { polo = record { encode = λ _. 9 ∷ []; decode = decode } }

run : Run World AtvError PairOutput
unfolding tv byte_at conn_read conn_write credential_dir_from_env resolve_credential_dir set join
    ensure_paired from_credential_dir read_file connect connect_timeout client_from_pem set_up frame
    read_message write_message encode_len read_len peer_cert_der ensure_identity handle receive send
    send_reply flow_round flow_loop finish pair clean_code compute_pairing_secret checked_secret
    rsa_numbers strip_leading_zeros all_hex hex_byte from_str_radix hex_digit
run = pair tv 10 "192.0.2.10" 6467 world

abbrev paired : Run World AtvError PairOutput → Bool
paired (returns out t) = out.paired
paired _ = false

run_pairs : paired run ≡ true
unfolding run
run_pairs = refl

tv-IsFinite : IsFinite tv 8
unfolding tv script
tv-IsFinite id p h = (closed, byte_at-ends script p h)

-- The last message is taken for the acknowledgement whatever it is, as long as its status is OK.
any_ack :
    (handle tv (record { awaiting_code = true }) options_message).0
    ≡ ok (some configuration_message)
unfolding handle
any_ack = refl

pair-Reveals_example :
    Ends
      (λ _ t. Revealed tv (said world.log) t)
      (Failed tv (said world.log))
      (pair tv 10 "192.0.2.10" 6467 world)
pair-Reveals_example = pair-Reveals tv 10 "192.0.2.10" 6467 world

-- A new key file has the mode 0600, which is 384.
ensure_identity-Private_example :
    Ends
      (λ _ t. Private (t.files (join "/etc/atv" "key.pem")))
      (λ _ t. Private (t.files (join "/etc/atv" "key.pem")))
      (ensure_identity plain "/etc/atv" bare)
ensure_identity-Private_example = ensure_identity-Private plain "/etc/atv" bare tt
