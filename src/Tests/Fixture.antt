-- ===== src/Tests/Fixture.antt =====
-- An environment to run the program in: a TV that sends a script of bytes on each connection and
-- then closes it, and a small codec for the messages that the tests use.
use atv.Base.{
  ℕ, zero, suc, ◌*◌, ◌^◌, ◌≤◌, ◌<◌, ◌≡◌, refl, Bool, none, some, List, [], ◌∷◌, ◌==◌, if◌then◌else◌,
  length, codes, arith, String,
}
use atv.Base.Exec.{Result, ok, err}
use atv.Stream.{Codec, IoError, unexpected_eof}
use atv.Proto.Remote.{RemoteMessage, default}
use atv.Proto.Polo.{ok_message}
use atv.World.{Env, World}
use atv.Session.Handshake.{
  configure_message, set_active_message, ping_response, key_message, app_link_message,
  power_key_message,
}
use atv.Session.Handshake.Replies.{IsReply, configure, set_active, pong, IsRemoteCodec}

abbrev pub start_message : Bool → RemoteMessage
start_message on = record default { remote_start = some (record { started = on }) }

abbrev pub ping_request : ℕ → RemoteMessage
ping_request v = record default { remote_ping_request = some (record { val1 = v; val2 = 0 }) }

abbrev encode : RemoteMessage → List ℕ
encode m = elim m.remote_configure [
  | some c ↦ 1 ∷ c.code1 ∷ []
  | none ↦ elim m.remote_set_active [
    | some a ↦ 2 ∷ a.active ∷ []
    | none ↦ elim m.remote_ping_request [
      | some p ↦ 3 ∷ p.val1 ∷ []
      | none ↦ elim m.remote_ping_response [
        | some p ↦ 4 ∷ p.val1 ∷ []
        | none ↦ elim m.remote_key_inject [
          | some k ↦ 5 ∷ k.key_code ∷ []
          | none ↦ elim m.remote_start [
            | some s ↦ 6 ∷ (if s.started then 1 else 0) ∷ []
            | none ↦ elim m.remote_error [
              | some e ↦ 7 ∷ []
              | none ↦ elim m.remote_app_link_launch_request [ some l ↦ 8 ∷ l.app_link | none ↦ [] ]
            ]
          ]
        ]
      ]
    ]
  ]
]

decode_tagged : ℕ → List ℕ → Result String RemoteMessage
unfolding key_message app_link_message
decode_tagged tag [] = err "no value"
decode_tagged tag (v ∷ rest) =
    if tag == 1
    then ok (configure_message v)
    else if tag == 2
    then ok (set_active_message v)
    else if tag == 3
    then ok (ping_request v)
    else if tag == 4
    then ok (ping_response v)
    else if tag == 5
    then ok (key_message v)
    else if tag == 6
    then ok (start_message (v == 1))
    else if tag == 8
    then ok (app_link_message (v ∷ rest))
    else err "unknown tag"

decode : List ℕ → Result String RemoteMessage
unfolding decode_tagged
decode [] = ok default
decode (tag ∷ rest) = decode_tagged tag rest

unfoldable pub remote : Codec RemoteMessage
unfolding decode
remote = record { encode = encode; decode = decode }

pub remote-IsRemoteCodec : IsRemoteCodec remote
unfolding remote power_key_message
remote-IsRemoteCodec = record {
  reply_decodes = reply_decodes;
  reply_fits = reply_fits;
  key_decodes = refl;
  key_fits = omega arith;
}
  where
    reply_decodes : (m : RemoteMessage) → IsReply m → remote.decode (remote.encode m) ≡ ok m
    reply_decodes m (configure c) = refl
    reply_decodes m (set_active a) = refl
    reply_decodes m (pong v) = refl

    reply_fits : (m : RemoteMessage) → IsReply m → length (remote.encode m) < 2 ^ 64
    reply_fits m (configure c) = omega arith
    reply_fits m (set_active a) = omega arith
    reply_fits m (pong v) = omega arith

abbrev pub closed : IoError
closed = record { kind = unexpected_eof; text = "closed" }

unfoldable pub byte_at : List ℕ → ℕ → Result IoError ℕ
byte_at [] i = err closed
byte_at (b ∷ bs) zero = ok b
byte_at (b ∷ bs) (suc i) = byte_at bs i

pub byte_at-ends : (bs : List ℕ) (p : ℕ) → length bs ≤ p → byte_at bs p ≡ err closed
unfolding byte_at
byte_at-ends [] p h = refl
byte_at-ends (b ∷ bs) zero h = absurd (omega arith)
byte_at-ends (b ∷ bs) (suc p) h = byte_at-ends bs p (omega arith)

unfoldable pub env_of : (ℕ → List ℕ) → Env
unfolding byte_at remote
env_of script = record {
  connect_tcp = λ _. ok tt;
  set_read_timeout = λ _. ok tt;
  set_write_timeout = λ _. ok tt;
  tls_new = λ _. ok tt;
  inbound = λ id. byte_at (script id);
  write_fault = λ _. none;
  peer_certificate = λ _. some (9 ∷ []);
  now = λ n. n * 1000;
  timestamp = λ _. "2026-08-15T12:34:56+09:00";
  stdout_fault = none;
  socket_addr = λ host _. host;
  var_os = λ _. some "/etc/atv";
  read_fault = λ _. none;
  write_file_fault = λ _. none;
  file_write_fault = λ _. none;
  stdin_line = ok (codes " 06aAbB ");
  create_dir_fault = λ _. none;
  pem_certs = λ bs. ok (bs ∷ []);
  pem_private_key = λ bs. ok (some bs);
  supported_schemes = 0x0403 ∷ 0x0807 ∷ [];
  protocol_versions = ok tt;
  client_auth_cert = λ _ _. ok tt;
  rsa_new_key = ok (1 ∷ []);
  to_pkcs8_der = λ key. ok key;
  from_pkcs8_der = λ der. ok der;
  self_signed = λ key. ok (2 ∷ key);
  to_pem = λ der. ok (3 ∷ der);
  rsa_public_key = λ der. ok (some (0 ∷ 5 ∷ [], 0 ∷ 0 ∷ 3 ∷ []));
  sha256 = λ bytes. length bytes ∷ bytes;
  status_text = λ _. "status";
  debug_text = λ _. "code";
  udp_bind = ok tt;
  udp_set_broadcast = ok tt;
  udp_send_to = ok tt;
  remote = remote;
  polo = record { encode = λ _. []; decode = λ _. ok ok_message };
  key_name = λ _. none;
  key_of_name = λ _. none;
  mdns_daemon = ok tt;
  mdns_browse = ok tt;
  mdns_event = λ _. err "timeout";
  i32_text = λ _. "26";
}

abbrev pub world : World
world = record {
  connects = 0;
  position = 0;
  writes = 0;
  readings = 0;
  files = λ _. some (record { content = 7 ∷ []; mode = 384 });
  log = [];
}
