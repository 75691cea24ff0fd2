-- ===== src/Lib.antt =====
-- atv: a command-line remote control for Android TV devices that speaks the Remote protocol v2.
--
-- The program's parts. src/cli.rs reads the command line, src/main.rs dispatches it and prints one
-- JSON object. src/session.rs runs the commands `status`, `on`, `off`, `key` and `launch` against
-- the TV's session port; src/pairing.rs runs `pair` against the pairing port. Both find their
-- credentials by src/config.rs, connect by src/tls.rs, and exchange the messages that
-- proto/*.proto declare in the frames of src/framing.rs. src/identity.rs makes the credentials,
-- src/wol.rs wakes a TV that has left the network, src/discover.rs looks for TVs by mDNS, and
-- src/error.rs has the error kinds and their exit codes.
--
-- What is modelled where.
--   Error           src/error.rs: ErrorKind, AtvError, exit_code and the names in the JSON
--   Framing         src/framing.rs: write_message and read_message over any reader and writer
--                   (Stream); Varint, RoundTrip and Effects have the lemmas and the theorems
--   Proto           the generated types of proto/remotemessage.proto and proto/polo.proto, with the
--                   fields that the code reads or sets; an enum is its number
--   Config          src/config.rs: resolve_credential_dir, credential_dir_from_env, ensure_paired
--   Tls             src/tls.rs: from_credential_dir, connect, peer_cert_der; AcceptAnyServerCert
--                   (Verifier)
--   Identity        src/identity.rs: generate_identity (Generate), ensure_identity, write_key_file
--   Pairing         src/pairing.rs: compute_pairing_secret (Secret), PairingFlow, pair; Code reads
--                   the six digits by a description of their own
--   Wol             src/wol.rs: parse_mac, magic_packet, send_magic_packet; Written describes the
--                   texts that parse_mac accepts
--   Session         src/session.rs: SessionHandshake with `new` and `handle` (Handshake), read_power,
--                   press_power_once and set_power (Power), set_power_with_wake and wait_for_port
--                   (Wake), status, send_keys and send_app_link (Commands)
--   Cli             src/cli.rs: parse_keycode (Number has str::parse::<i32>), the commands and their
--                   ports
--   Discover        src/discover.rs: the browse loop, the choice of an address, and the devices as a
--                   sorted table (Table); Text has strip_suffix and the order of texts
--   Output          src/output.rs and the structs that derive Serialize: the objects that are
--                   printed; Objects reads them back
--   Main            src/main.rs and src/output.rs: run, main and emit (Emit has what it leaves);
--                   Served, Woken, Rejected and Paired are about whole runs, Tells about their
--                   errors; Work is what a command does before it prints
--   World           what the program meets and does, see below; Speech is a connection whose stream
--                   is known, Chat a dialogue and the loops that go through one
--   Base            the shared helpers: actions with a state and errors (Exec), rules for how they
--                   end (Ends), which errors they have (Only) and that they halt (Halts), bit
--                   operations at variables (Bits)
--   Tests           runs and the theorems at concrete inputs
--
-- State and effects. An action of the program is a function from a World to a Run: it returns, it
-- fails with an error, or it is stuck. The World counts the connections tried, the writes, and the
-- readings of the clock, has the position in the stream of the last connection and the files, and
-- logs every effect with the newest first. An Env answers what the program cannot choose: whether
-- a connection succeeds, which byte stands where in a connection's inbound stream or how its read
-- fails, which write fails, what the clock shows, the environment variables, and what rustls and
-- the generated encoders and decoders do. Theorems hold for every Env, under the hypotheses that
-- they name: IsRemoteCodec says that the messages the client sends decode to themselves, IsFinite
-- that the inbound streams end, Advances that the clock goes on.
--
-- Loops and fuel. A loop of the source that waits for the TV or for the clock takes fuel and is
-- stuck when it runs out; `stuck` is no outcome of the program. The loops of read_power and
-- press_power_once, and the one of pair, take a message of at least a byte in each round, so fuel
-- beyond the length of the stream is enough (Session.Power.Ending, Pairing.Ending), and the loop
-- of wait_for_port reads the clock once in a round (Session.Wake.Ending; Session.Wake.Poll says
-- what it waits for). The loops with a fixed count (the retries of set_power, five groups of the
-- length prefix, sixteen copies of the MAC) recurse on it; the writer's loop over a u64 takes ten
-- rounds, which are seventy bits. A bound on u64 is written out as a remainder. The loop of
-- discover reads the clock once in a round too (Discover.Ending), and so the fuel of main is
-- enough where it is beyond the streams and the readings of the clock (Main.Ending). The wait of
-- press_power_once reads the clock once in a round as well, and Session.Power.Deadline is about
-- fuel beyond these readings, for a stream without end.
--
-- Shared proofs. World.Closed names the predicates on a World that talking to one port of one host
-- keeps (IsClosed), and those that pairing keeps too (IsFree). The modules called Closed prove once
-- for each component that it keeps any such predicate; what was broadcast or printed so far, and
-- where connections went, are instances. The modules called Kinds say which errors a component can
-- have, by Base.Only, and those called Tells put them together along a run.
--
-- Not modelled: the generated code, rustls, rcgen, SHA-256, X.509 parsing, mdns_sd and serde_json,
-- which are parameters; what clap makes of the arguments; tracing; the panic of adding a timeout
-- that Instant cannot represent. A write that fails counts as not sent, on stdout too, and stderr
-- can always be written. An array of a fixed length, such as the six bytes of a MAC, is a list.
-- Time passes as the Env says, not by the sleeps. The line from stdin is ASCII, the umask is 022,
-- and directories are not files of the model.
pub mod Base
pub mod Error
pub mod Stream
pub mod Framing
pub mod Proto
pub mod World
pub mod Config
pub mod Tls
pub mod Identity
pub mod Pairing
pub mod Wol
pub mod Session
pub mod Cli
pub mod Discover
pub mod Output
pub mod Main
mod Tests
