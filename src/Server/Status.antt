-- ===== src/Server/Status.antt =====
-- server/status.go: the status byte, its MAV bit and the service request latch.
pub mod Byte
pub mod Latch
use Prim.Native.Nat.{bit_and, bit_or}
use hislip.Prelude.{ℕ, ◌-◌, Bool, true, false, not, ◌==◌, if◌then◌else◌}
use hislip.Protocol.MessageId.{status_query_initial_message_id}

abbrev pub status_mav : ℕ
status_mav = 0x10

abbrev pub status_rqs : ℕ
status_rqs = 0x40

pub record Status : Type 0 where
  pub last_received : ℕ
  pub response_pending : Bool
  pub srq_latched : Bool
  pub srq_status : ℕ
  pub started : Bool

-- Status.Reset gives every field its value at the start of a session.
abbrev pub status_reset : Status
status_reset = record {
  last_received = status_query_initial_message_id;
  response_pending = false;
  srq_latched = false;
  srq_status = 0;
  started = true;
}

abbrev pub new_status : Status
new_status = status_reset

-- `if !s.started { s.Reset() }`
abbrev ensure_started : Status → Status
ensure_started s = if s.started then s else status_reset

-- Status.ReceivedSyncMessage.
unfoldable pub status_received : Status → ℕ → Status
status_received s id = record (ensure_started s) { last_received = id }

-- LastReceived, whose reset of a zero Status is `ensure_started`.
unfoldable pub last_received_id : Status → ℕ
last_received_id s = (ensure_started s).last_received

unfoldable pub set_response_pending : Status → Bool → Status
set_response_pending s pending = record s { response_pending = pending }

unfoldable pub latch_service_request : Status → ℕ → Bool × Status
latch_service_request s status =
    if s.srq_latched
    then (false, s)
    else (true, record s { srq_latched = true; srq_status = status })

unfoldable pub take_service_request : Status → Bool × Status
take_service_request s = (s.srq_latched, record s { srq_latched = false; srq_status = 0 })

-- Status.MAV.
unfoldable pub mav : Status → ℕ → Bool → Bool
unfolding last_received_id
mav s query_id rmt_delivered =
    if not (query_id == last_received_id s)
    then false
    else if rmt_delivered
    then false
    else s.response_pending

-- Status.Byte. `x &^ StatusMAV` keeps the other bits of a byte.
unfoldable pub status_byte : Status → ℕ → ℕ → Bool → ℕ
status_byte s device query_id rmt_delivered =
    if mav s query_id rmt_delivered
    then bit_or device status_mav
    else bit_and device (0xff - status_mav)
