-- ===== src/Server/Clear.antt =====
-- server/clear.go: the Device Clear transaction.
pub mod Restores
use hislip.Prelude.{ℕ, ◌%◌, Bool, true, false, not, Option, none, some, ◌==◌, if◌then◌else◌}
use hislip.Errors.{Error, Result, ok, err, err_unknown_message_type}
use hislip.Protocol.MessageType
use hislip.Protocol.Header.{Header, no_header}
use hislip.Server.Status.{set_response_pending}
use hislip.Server.Transaction.{clear, tx_reset}
use hislip.Server.Session.{
  Session, require_ready, abort_operation, begin_clear, complete_clear, is_clearing,
}
use hislip.Server.Config.{Config, feature_bitmap}
use hislip.Server.Device.{Device}
use hislip.Server.State.{State, M, and_then, ◌>>=◌, ◌>>◌, pure, fail, change, lift}
use hislip.Server.Data.{step_tx, dev_result}

module _ {D : Type 0} where
  -- BeginDeviceClear. What was done before a refused transition stays done.
  unfoldable pub begin_device_clear : Config → M D Header
  unfolding require_ready abort_operation set_response_pending clear begin_clear feature_bitmap
  begin_device_clear cfg =
      (λ s. lift (require_ready s.sess) s)
      >> change (λ x. record (abort_operation x) { status = set_response_pending x.status false })
      >> step_tx clear
      >> change begin_clear
      >> pure (record no_header {
        type = MessageType.async_device_clear_acknowledge;
        control = feature_bitmap cfg 1;
      })

  -- CompleteDeviceClear: the acknowledgement, and beside it the error of the instrument's clear. A
  -- message of another type is refused with neither.
  unfoldable pub complete_device_clear :
      Device D → Config → Header → State D → (Header × Result (Unit {0})) × State D
  unfolding feature_bitmap complete_clear tx_reset
  complete_device_clear dev cfg h s =
      if not (h.type == MessageType.device_clear_complete)
      then ((no_header, err err_unknown_message_type), s)
      else let agreed = feature_bitmap cfg h.control in
        let sess = complete_clear s.sess (agreed % 2 == 1) in
        let (r, t) =
          dev_result (dev.clear s.dev)
            (record s { sess = record sess { tx = tx_reset sess.tx } }) in
        ((record no_header { type = MessageType.device_clear_acknowledge; control = agreed }, r), t)

unfoldable pub discard_during_clear : Session → Header → Bool
discard_during_clear sess h =
    if not (is_clearing sess.state)
    then false
    else not (h.type == MessageType.device_clear_complete)
