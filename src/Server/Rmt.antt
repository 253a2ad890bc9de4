-- ===== src/Server/Rmt.antt =====
-- server/rmt.go: the RMT-expected tracker of a session.
pub mod Exchange
use hislip.Prelude.{Bool, true, false, if◌then◌else◌}

pub data Interrupted : Type 0 where
  not_interrupted interrupted_rmt_mismatch interrupted_input_queued : Interrupted

unfoldable pub notifies : Interrupted → Bool
notifies interrupted_input_queued = true
notifies _ = false

pub record Rmt : Type 0 where
  pub expected : Bool

abbrev pub differ : Bool → Bool → Bool
differ true true = false
differ false false = false
differ _ _ = true

unfoldable pub sent_data_end : Rmt → Rmt
sent_data_end r = record r { expected = true }

-- RMT.ReceivedSyncMessage: RMT-expected is cleared whatever the flag.
unfoldable pub rmt_received : Rmt → Bool → Interrupted × Rmt
rmt_received r rmt_delivered = (
  if differ r.expected rmt_delivered then interrupted_rmt_mismatch else not_interrupted,
  record r { expected = false },
)

-- RMT.ReceivedStatusQuery.
unfoldable pub rmt_queried : Rmt → Bool → Rmt
rmt_queried r rmt_delivered = if rmt_delivered then record r { expected = false } else r

-- RMT.Reset.
unfoldable pub rmt_reset : Rmt → Rmt
rmt_reset r = record r { expected = false }
