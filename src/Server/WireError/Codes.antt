-- ===== src/Server/WireError/Codes.antt =====
-- The codes that errors are reported with.
use hislip.Prelude.{◌<◌, ◌≡◌, Bool, true, false, arith}
use hislip.Errors.{
  Error, err_short_buffer, err_invalid_prologue, err_protocol_version, err_session_not_ready,
  err_invalid_session, err_invalid_sub_address, err_invalid_init_sequence, err_max_clients,
}
use hislip.Protocol.ErrorCode.{fatal_reserved_min, non_fatal_reserved_min}
use hislip.Server.WireError.{wire_error_for}

-- The errors that end a session: a broken header, a version that cannot be, the initialization errors
-- and an operation before both channels are there.
abbrev pub is_fatal : Error → Bool
is_fatal err_short_buffer = true
is_fatal err_invalid_prologue = true
is_fatal err_protocol_version = true
is_fatal err_session_not_ready = true
is_fatal err_invalid_session = true
is_fatal err_invalid_sub_address = true
is_fatal err_invalid_init_sequence = true
is_fatal err_max_clients = true
is_fatal _ = false

-- An error is reported as fatal exactly if it is one of these, so never because an instrument or a
-- transport failed; and the code of either kind of report is below the reserved ranges.
pub wire_error_codes :
    (e : Error)
    → ((wire_error_for e).fatal ≡ is_fatal e)
      × ((wire_error_for e).fatal_code < fatal_reserved_min)
      × ((wire_error_for e).code < non_fatal_reserved_min)
unfolding wire_error_for
wire_error_codes e = ground arith
