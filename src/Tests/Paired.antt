-- ===== src/Tests/Paired.antt =====
-- The program at a TV that is paired.
use atv.Base.{
  ℕ, ◌≡◌, refl, arith, String, true, none, some, is_some, List, [], ◌∷◌, codes, if◌then◌else◌, ◌==◌,
}
use atv.Base.Exec.{Result, ok, err, returns}
use atv.Proto.Polo.{OuterMessage, ok_message}
use atv.Framing.{frame, encode_len}
use atv.Config.{credential_dir_from_env, resolve_credential_dir, set, join, ensure_paired}
use atv.Tls.{
  from_credential_dir, read_file, connect, connect_timeout, client_from_pem, set_up, peer_cert_der,
}
use atv.Wol.{hex_digit, from_str_radix}
use atv.World.{Env, World, sent, eprinted, connecting}
use atv.Cli
use atv.Cli.{status}
use atv.Main.{main}
use atv.Base.Ends.{Ends}
use atv.Main.Paired.{Knows, main-Knows}
use atv.Tls.Verifier
use atv.Identity.{ensure_identity}
use atv.Pairing as PairingHandle
use atv.Pairing.{
  options_message, configuration_message, initial_message, secret_message, pair, clean_code,
}
use atv.Pairing.Secret.{
  compute_pairing_secret, checked_secret, rsa_numbers, strip_leading_zeros, all_hex, hex_byte,
}
use atv.Pairing.Said.{prompt}
use atv.Pairing.Spoken.{takes}
use atv.Pairing.Agreed.{Agrees, pair-Agrees}
use atv.Tests.Fixture.{byte_at, env_of, world}
use atv.Tests.Dialogue.{conn, json, target}

-- A pairing: the codec knows the TV's four messages by a number.
shown : OuterMessage → List ℕ
shown m =
    if is_some m.pairing_request_ack
    then 1 ∷ []
    else if is_some m.options
    then 2 ∷ []
    else if is_some m.configuration_ack
    then 3 ∷ []
    else if is_some m.secret_ack
    then 4 ∷ []
    else 9 ∷ []

abbrev acknowledged : OuterMessage
acknowledged = record ok_message { pairing_request_ack = some (record { server_name = none }) }

abbrev configured : OuterMessage
configured = record ok_message { configuration_ack = some tt }

abbrev taken : OuterMessage
taken = record ok_message { secret_ack = some (record { secret = [] }) }

read : List ℕ → Result String OuterMessage
read [] = err "no message"
read (k ∷ _) =
    if k == 1
    then ok acknowledged
    else if k == 2
    then ok options_message
    else if k == 3
    then ok configured
    else ok taken

agreeing : Env
unfolding shown read env_of
agreeing = record (env_of (λ _. 1 ∷ 1 ∷ 1 ∷ 2 ∷ 1 ∷ 3 ∷ 1 ∷ 4 ∷ [])) {
  polo = record { encode = shown; decode = read };
}

abbrev connected : World
connected = record world { connects = 1; log = connecting "192.0.2.10" 6467 5000 ∷ [] }

abbrev digest : List ℕ
digest = 6 ∷ 5 ∷ 3 ∷ 5 ∷ 3 ∷ 0xaa ∷ 0xbb ∷ []

agreeing-Agrees :
    Agrees agreeing "192.0.2.10" 6467 world connected conn acknowledged options_message configured
      taken digest
unfolding agreeing byte_at frame encode_len PairingHandle.handle credential_dir_from_env
    resolve_credential_dir set join ensure_identity from_credential_dir ensure_paired read_file
    client_from_pem connect connect_timeout set_up peer_cert_der compute_pairing_secret
    checked_secret rsa_numbers strip_leading_zeros all_hex hex_byte from_str_radix hex_digit
    clean_code
agreeing-Agrees = record {
  dir = "/etc/atv";
  tls = record {
    client_cert_der = 7 ∷ [];
    config = record {
      verifier = Verifier.new agreeing.supported_schemes;
      certs = (7 ∷ []) ∷ [];
      key = 7 ∷ [];
    };
  };
  made = world;
  loaded = world;
  line = codes " 06aAbB ";
  server = 9 ∷ [];
  finds = refl;
  makes = refl;
  loads = refl;
  connects = refl;
  written = λ _. refl;
  acks = record { is_ok = refl; has_ack = refl };
  offers = record { is_ok = refl; no_ack = refl; has_options = refl };
  configures = record {
    is_ok = refl;
    no_ack = refl;
    no_options = refl;
    has_configuration_ack = refl;
  };
  is_known = takes (record {
    is_ok = refl;
    no_ack = refl;
    no_options = refl;
    no_configuration_ack = refl;
    has_secret_ack = refl;
  });
  carried = ((refl, omega arith), ((refl, omega arith), ((refl, omega arith), tt)));
  spoken = (refl, (refl, (refl, (refl, (refl, (refl, tt))))));
  typed = refl;
  certified = refl;
  computed = refl;
  answer_carried = (refl, omega arith);
  answer_spoken = (refl, (refl, tt));
}

pair-Agrees_example :
    (at : String) × (t : World) × (pair agreeing 10 "192.0.2.10" 6467 world
      ≡ returns (record { timestamp = at; host = "192.0.2.10"; paired = true }) t)
    × (t.log
        ≡ sent 0 (frame agreeing.polo (secret_message digest))
          ∷ eprinted prompt
          ∷ sent 0 (frame agreeing.polo configuration_message)
          ∷ sent 0 (frame agreeing.polo options_message)
          ∷ sent 0 (frame agreeing.polo initial_message)
          ∷ connecting "192.0.2.10" 6467 5000
          ∷ [])
pair-Agrees_example =
    pair-Agrees agreeing 10 "192.0.2.10" 6467 world connected conn acknowledged options_message
      configured taken digest agreeing-Agrees (omega arith)

-- `atv status` behind this pairing.
main-Knows_example :
    Ends
      (λ code t.
        code ≡ 0
        → Ends
            (Knows agreeing json)
            (λ _ _. ⊥)
            (main agreeing json 10 (record { command = status target }) t))
      (λ _ _. ⊥)
      (main agreeing json 10 (record { command = Cli.pair target }) world)
main-Knows_example = main-Knows agreeing json 10 target (status target) world
