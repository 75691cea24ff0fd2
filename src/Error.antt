-- ===== src/Error.antt =====
-- error.rs: the error kinds, their names in the JSON object, and the exit codes.
use atv.Base.{ℕ, String}

pub data ErrorKind : Type 0 where
  unreachable not_paired auth_rejected pairing_failed protocol_error config_io : ErrorKind

pub record AtvError : Type 0 where
  pub kind : ErrorKind
  pub detail : String

-- `AtvError::new`
abbrev pub new : ErrorKind → String → AtvError
new k text = record { kind = k; detail = text }

-- `#[serde(rename_all = "snake_case")]`
unfoldable pub kind_name : ErrorKind → String
kind_name unreachable = "unreachable"
kind_name not_paired = "not_paired"
kind_name auth_rejected = "auth_rejected"
kind_name pairing_failed = "pairing_failed"
kind_name protocol_error = "protocol_error"
kind_name config_io = "config_io"

unfoldable pub exit_code_of : ErrorKind → ℕ
exit_code_of protocol_error = 1
exit_code_of config_io = 1
exit_code_of unreachable = 3
exit_code_of not_paired = 4
exit_code_of auth_rejected = 4
exit_code_of pairing_failed = 5

unfoldable pub exit_code : AtvError → ℕ
unfolding exit_code_of
exit_code e = exit_code_of e.kind
