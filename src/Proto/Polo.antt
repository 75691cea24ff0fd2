-- ===== src/Proto/Polo.antt =====
-- The messages of the pairing port. An enum is its number.
use atv.Base.{ℕ, Option, none, List}

pub record PairingRequest : Type 0 where
  pub service_name : List ℕ
  pub client_name : Option (List ℕ)

pub record PairingRequestAck : Type 0 where
  pub server_name : Option (List ℕ)

pub record Encoding : Type 0 where
  pub symbol_type : ℕ
  pub symbol_length : ℕ

pub record Options : Type 0 where
  pub input_encodings : List Encoding
  pub output_encodings : List Encoding
  pub preferred_role : Option ℕ

pub record Configuration : Type 0 where
  pub encoding : Encoding
  pub client_role : ℕ

pub record Secret : Type 0 where
  pub secret : List ℕ

pub record OuterMessage : Type 0 where
  pub protocol_version : ℕ
  pub status : ℕ
  pub pairing_request : Option PairingRequest
  pub pairing_request_ack : Option PairingRequestAck
  pub options : Option Options
  pub configuration : Option Configuration
  pub configuration_ack : Option (Unit {0})
  pub secret : Option Secret
  pub secret_ack : Option Secret

-- `Status::Ok`, `EncodingType::Hexadecimal`, `RoleType::Input`
abbrev pub status_ok : ℕ
status_ok = 200

abbrev pub hexadecimal : ℕ
hexadecimal = 3

abbrev pub role_input : ℕ
role_input = 1

-- An `OuterMessage` of version 2 with status OK and no other field.
abbrev pub ok_message : OuterMessage
ok_message = record {
  protocol_version = 2;
  status = status_ok;
  pairing_request = none;
  pairing_request_ack = none;
  options = none;
  configuration = none;
  configuration_ack = none;
  secret = none;
  secret_ack = none;
}
