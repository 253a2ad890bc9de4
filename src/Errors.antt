-- ===== src/Errors.antt =====
-- The sentinel errors of protocol/errors.go, server/errors.go, server/config.go, server/data.go,
-- server/transaction.go and server/serve.go, and results that carry them.
-- `errors.Is` of one of them is a test of the constructor; `external` is an error value that other
-- code makes (a transport, an instrument), with its text.
use hislip.Prelude.{Bool, true, false, Bytes}
use hislip.Prelude.Text.{codes}

pub data Error : Type 0 where
  err_short_buffer err_invalid_prologue err_unknown_message_type err_reserved_message_type : Error
  err_wrong_channel err_protocol_version err_message_too_large err_payload_length : Error
  err_session_not_ready err_invalid_session err_invalid_init_sequence : Error
  err_invalid_sub_address err_max_clients err_locked err_unsupported_mode : Error
  err_unrecognized_control_code err_invalid_config err_overlap_not_implemented : Error
  err_input_queued_required err_invalid_transition err_client_fatal : Error
  eof unexpected_eof nil_dereference : Error
  external : Bytes → Error

pub data Result {ℓ} (A : Type ℓ) : Type ℓ where
  err : Error → Result A
  ok : A → Result A

-- `if err != nil { return err }`, with the value of the call for what follows.
infixl 5 ◌>>=◌ ◌>>◌
abbrev pub ◌>>=◌ {ℓ κ} : {A : Type ℓ} {B : Type κ} → Result A → (A → Result B) → Result B
err cause >>= rest = err cause
ok value >>= rest = rest value

abbrev pub ◌>>◌ {κ} : {B : Type κ} → Result (Unit {0}) → Result B → Result B
first >> then_run = first >>= λ done. then_run

-- `if cond { return err }`
abbrev pub fail_if : Bool → Error → Result (Unit {0})
fail_if true e = err e
fail_if false e = ok tt

-- `err.Error()`.
unfoldable pub text : Error → Bytes
text err_short_buffer = codes "hislip: buffer too short"
text err_invalid_prologue = codes "hislip: invalid message prologue"
text err_unknown_message_type = codes "hislip: unknown message type"
text err_reserved_message_type = codes "hislip: reserved message type"
text err_wrong_channel = codes "hislip: message not legal on this channel"
text err_protocol_version = codes "hislip: unsupported protocol version"
text err_message_too_large = codes "hislip: message exceeds maximum size"
text err_payload_length = codes "hislip: payload length does not match header"
text err_session_not_ready = codes "hislip: session not ready, both channels required"
text err_invalid_session = codes "hislip: unknown or already paired session ID"
text err_invalid_init_sequence = codes "hislip: invalid initialization sequence"
text err_invalid_sub_address = codes "hislip: unknown sub-address"
text err_max_clients = codes "hislip: maximum number of clients exceeded"
text err_locked = codes "hislip: locked by another session"
text err_unsupported_mode = codes "hislip: requested mode not supported"
text err_unrecognized_control_code = codes "hislip: unrecognized control code"
text err_invalid_config = codes "hislip: invalid server configuration"
text err_overlap_not_implemented = codes "hislip: overlap mode is not implemented"
text err_input_queued_required =
    codes "hislip: Response.InputQueued must be supplied to implement the interrupted check"
text err_invalid_transition = codes "hislip: invalid transaction state transition"
text err_client_fatal = codes "hislip: peer reported a fatal error"
text eof = codes "EOF"
text unexpected_eof = codes "unexpected EOF"
text nil_dereference = codes "runtime error: invalid memory address or nil pointer dereference"
text (external t) = t
