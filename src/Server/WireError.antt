-- ===== src/Server/WireError.antt =====
-- server/errors.go: how an error is reported on the wire.
pub mod Codes
use hislip.Prelude.{ℕ, Bool, true, false, if◌then◌else◌}
use hislip.Errors.{
  Error, err_session_not_ready, err_invalid_session, err_invalid_sub_address,
  err_invalid_init_sequence, err_max_clients, err_unrecognized_control_code,
}
use hislip.Protocol.ErrorCode.{
  fatal_code_for, error_code_for, fatal_channels_not_established, fatal_invalid_init_sequence,
  fatal_max_clients_exceeded, non_fatal_unrecognized_control_code,
}

abbrev pub code_handshake_timeout : ℕ
code_handshake_timeout = 128

abbrev pub code_response_timeout : ℕ
code_response_timeout = 129

pub record WireError : Type 0 where
  pub fatal : Bool
  pub fatal_code : ℕ
  pub code : ℕ

abbrev pub as_fatal : ℕ → WireError
as_fatal c = record { fatal = true; fatal_code = c; code = 0 }

abbrev pub as_error : ℕ → WireError
as_error c = record { fatal = false; fatal_code = 0; code = c }

-- The errors that the session layer adds.
unfoldable pub session_error : Error → WireError
unfolding error_code_for
session_error err_session_not_ready = as_fatal fatal_channels_not_established
session_error err_invalid_session = as_fatal fatal_invalid_init_sequence
session_error err_invalid_sub_address = as_fatal fatal_invalid_init_sequence
session_error err_invalid_init_sequence = as_fatal fatal_invalid_init_sequence
session_error err_max_clients = as_fatal fatal_max_clients_exceeded
session_error err_unrecognized_control_code = as_error non_fatal_unrecognized_control_code
session_error e = as_error (error_code_for e)

unfoldable pub wire_error_for : Error → WireError
unfolding fatal_code_for session_error
wire_error_for e = if (fatal_code_for e).1 then as_fatal (fatal_code_for e).0 else session_error e
