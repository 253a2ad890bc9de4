-- ===== src/Protocol/ErrorCode.antt =====
-- protocol/errors.go and the error codes of protocol/constants.go: the codes that errors are
-- reported with.
use hislip.Prelude.{ℕ, Bool, true, false}
use hislip.Errors.{
  Error, err_short_buffer, err_invalid_prologue, err_unknown_message_type,
  err_reserved_message_type, err_wrong_channel, err_protocol_version, err_message_too_large,
}

abbrev pub fatal_unidentified : ℕ
fatal_unidentified = 0

abbrev pub fatal_poorly_formed_header : ℕ
fatal_poorly_formed_header = 1

abbrev pub fatal_channels_not_established : ℕ
fatal_channels_not_established = 2

abbrev pub fatal_invalid_init_sequence : ℕ
fatal_invalid_init_sequence = 3

abbrev pub fatal_max_clients_exceeded : ℕ
fatal_max_clients_exceeded = 4

abbrev pub fatal_reserved_min : ℕ
fatal_reserved_min = 6

abbrev pub non_fatal_unidentified : ℕ
non_fatal_unidentified = 0

abbrev pub non_fatal_unrecognized_message_type : ℕ
non_fatal_unrecognized_message_type = 1

abbrev pub non_fatal_unrecognized_control_code : ℕ
non_fatal_unrecognized_control_code = 2

abbrev pub non_fatal_unrecognized_vendor_msg : ℕ
non_fatal_unrecognized_vendor_msg = 3

abbrev pub non_fatal_message_too_large : ℕ
non_fatal_message_too_large = 4

abbrev pub non_fatal_reserved_min : ℕ
non_fatal_reserved_min = 6

abbrev pub non_fatal_device_defined_min : ℕ
non_fatal_device_defined_min = 128

-- The code, and whether the error is fatal.
unfoldable pub fatal_code_for : Error → ℕ × Bool
fatal_code_for err_invalid_prologue = (fatal_poorly_formed_header, true)
fatal_code_for err_short_buffer = (fatal_poorly_formed_header, true)
fatal_code_for err_protocol_version = (fatal_invalid_init_sequence, true)
fatal_code_for _ = (fatal_unidentified, false)

unfoldable pub error_code_for : Error → ℕ
error_code_for err_unknown_message_type = non_fatal_unrecognized_message_type
error_code_for err_reserved_message_type = non_fatal_unrecognized_message_type
error_code_for err_wrong_channel = non_fatal_unrecognized_message_type
error_code_for err_message_too_large = non_fatal_message_too_large
error_code_for _ = non_fatal_unidentified
