-- ===== src/Server/Session.antt =====
-- server/session.go: one logical session, a pair of connections. A connection is named by a number.
pub mod Operations
use hislip.Prelude.{
  ℕ, suc, Bool, true, false, not, Option, none, some, List, [], ◌∷◌, Bytes, if◌then◌else◌,
}
use hislip.Errors.{Result, ok, err, err_invalid_session, err_session_not_ready}
use hislip.Protocol.Version.{Version}
use hislip.Protocol.MessageType.{Channel}
use hislip.Protocol.MessageId.{no_message_id}
use hislip.Server.Rmt.{Rmt, rmt_reset}
use hislip.Server.Status.{Status, new_status, status_reset}
use hislip.Server.Transaction.{Transaction, new_transaction}
use hislip.Server.Policy.{
  Policy, Disposition, no_response_expected, policy_feed, policy_disposition, policy_reset,
}
use hislip.Server.Config.{Config}

-- The type State of session.go.
pub data SessionState : Type 0 where
  state_pairing state_ready state_clearing state_closed : SessionState

-- MessageWriter of server/writer.go: its connection, its channel and the bytes written.
pub record Writer : Type 0 where
  pub conn : ℕ
  pub channel : Channel
  pub written : ℕ

abbrev pub new_writer : ℕ → Channel → Writer
new_writer conn channel = record { conn = conn; channel = channel; written = 0 }

-- `op_cancel` names the context of the bus operation in flight, `next_op` the next context, and
-- `cancelled` those whose cancel function has been called. `pending` tells that the synchronous reader
-- has installed its InputQueued predicate.
pub record Session : Type 0 where
  pub id : ℕ
  pub version : Version
  pub overlap : Bool
  pub state : SessionState
  pub sync : Option ℕ
  pub async : Option ℕ
  pub rmt : Rmt
  pub status : Status
  pub last_tx : ℕ
  pub max_rx : ℕ
  pub max_tx : ℕ
  pub op_cancel : Option ℕ
  pub next_op : ℕ
  pub cancelled : List ℕ
  pub tx : Transaction
  pub sync_w : Option Writer
  pub async_w : Option Writer
  pub pending : Bool
  pub policy : Option Policy

unfoldable pub new_session : ℕ → Version → ℕ → Config → Session
new_session id version sync_stream cfg = record {
  id = id;
  version = version;
  overlap = false;
  state = state_pairing;
  sync = some sync_stream;
  async = none;
  rmt = record { expected = false };
  status = new_status;
  last_tx = no_message_id;
  max_rx = cfg.max_rx_payload;
  max_tx = cfg.max_tx_payload;
  op_cancel = none;
  next_op = 0;
  cancelled = [];
  tx = new_transaction;
  sync_w = none;
  async_w = none;
  pending = false;
  policy = none;
}

abbrev feed_policy : Option Policy → Bytes → Option Policy
feed_policy none p = none
feed_policy (some q) p = some (policy_feed q p)

-- An empty chunk is not fed.
unfoldable pub feed_program_message : Session → Bytes → Session
feed_program_message s [] = s
feed_program_message s (x ∷ xs) = record s { policy = feed_policy s.policy (x ∷ xs) }

abbrev disposition_of : Option Policy → Disposition
disposition_of none = no_response_expected
disposition_of (some q) = policy_disposition q

abbrev reset_policy : Option Policy → Option Policy
reset_policy none = none
reset_policy (some q) = some (policy_reset q)

-- programDisposition: the decision, and the policy reset for the next message.
unfoldable pub program_disposition : Session → Disposition × Session
program_disposition s = (disposition_of s.policy, record s { policy = reset_policy s.policy })

abbrev pub is_pairing : SessionState → Bool
is_pairing state_pairing = true
is_pairing _ = false

abbrev pub is_ready : SessionState → Bool
is_ready state_ready = true
is_ready _ = false

abbrev pub is_clearing : SessionState → Bool
is_clearing state_clearing = true
is_clearing _ = false

abbrev is_some : Option ℕ → Bool
is_some none = false
is_some (some c) = true

unfoldable pub attach_async : Session → ℕ → Result Session
attach_async s stream =
    if not (is_pairing s.state)
    then err err_invalid_session
    else if is_some s.async
    then err err_invalid_session
    else ok (record s { async = some stream; state = state_ready })

unfoldable pub ready : Session → Bool
ready s = is_ready s.state

abbrev require : SessionState → Result (Unit {0})
require state_ready = ok tt
require state_clearing = ok tt
require state_closed = err err_invalid_session
require state_pairing = err err_session_not_ready

unfoldable pub require_ready : Session → Result (Unit {0})
require_ready s = require s.state

unfoldable pub begin_clear : Session → Session
begin_clear s = if is_ready s.state then record s { state = state_clearing } else s

-- What is reset is the modes, the RMT and status trackers and the last MessageID sent.
unfoldable pub complete_clear : Session → Bool → Session
unfolding rmt_reset
complete_clear s overlap = record s {
  overlap = overlap;
  rmt = rmt_reset s.rmt;
  status = status_reset;
  last_tx = no_message_id;
  state = if is_clearing s.state then state_ready else s.state;
}

abbrev pub set_sync_writer : Session → Writer → Session
set_sync_writer s w = record s { sync_w = some w }

abbrev pub set_async_writer : Session → Writer → Session
set_async_writer s w = record s { async_w = some w }

abbrev pub set_sync_pending : Session → Session
set_sync_pending s = record s { pending = true }

abbrev pub set_last_tx_message_id : Session → ℕ → Session
set_last_tx_message_id s id = record s { last_tx = id }

-- Operation: a fresh context, registered in place of the one before.
unfoldable pub operation : Session → ℕ × Session
operation s = (s.next_op, record s { op_cancel = some s.next_op; next_op = suc s.next_op })

-- The release function that Operation returns.
unfoldable pub release_operation : Session → ℕ → Session
release_operation s op = record s { op_cancel = none; cancelled = op ∷ s.cancelled }

abbrev cancel : Option ℕ → List ℕ → List ℕ
cancel none cs = cs
cancel (some op) cs = op ∷ cs

unfoldable pub abort_operation : Session → Session
abort_operation s = record s { op_cancel = none; cancelled = cancel s.op_cancel s.cancelled }

-- The part of close that runs under the lock, and the cancellation.
unfoldable pub close_session : Session → Session
close_session s = record s {
  sync = none;
  async = none;
  state = state_closed;
  op_cancel = none;
  cancelled = cancel s.op_cancel s.cancelled;
}
