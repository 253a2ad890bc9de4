-- ===== src/Server/Clear/Restores.antt =====
-- Device Clear from both sides: what is abandoned, what is refused, and what is restored.
use hislip.Prelude.{ℕ, ◌≡◌, ◌≢◌, true, false, not, none, some, ◌∷◌, ◌==◌, arith}
use hislip.Errors.{ok, err, err_invalid_transition}
use hislip.Protocol.MessageType
use hislip.Protocol.MessageId.{no_message_id}
use hislip.Protocol.Header.{Header, no_header}
use hislip.Server.Rmt.{rmt_reset}
use hislip.Server.Status.{set_response_pending}
use hislip.Server.Transaction.{tx_idle, tx_clearing, clear, tx_reset}
use hislip.Server.Session.{
  require_ready, abort_operation, begin_clear, complete_clear, state_ready, state_clearing,
}
use hislip.Server.Config.{Config, feature_bitmap}
use hislip.Server.Config.Profile.{IsProfile, validate_iff}
use hislip.Server.Device.{Device}
use hislip.Server.State.{State}
use hislip.Server.Clear.{begin_device_clear, complete_device_clear, discard_during_clear}

module _ {D : Type 0} where
  -- An AsyncDeviceClear on a ready session whose transaction is not being cleared: the operation in
  -- flight is cancelled, no response is pending, transaction and session are clearing, and every
  -- synchronous message but DeviceClearComplete is discarded from then on. The instrument and the
  -- connections are not touched.
  pub begin_device_clear-abandons :
      (cfg : Config) (s : State D)
      → s.sess.state ≡ state_ready
      → s.sess.tx.state ≢ tx_clearing
      → let r = begin_device_clear cfg s in
        (r.0
          ≡ ok (record no_header {
            type = MessageType.async_device_clear_acknowledge;
            control = feature_bitmap cfg 1;
          }))
        × (r.1.sess.op_cancel ≡ none)
        × ((op : ℕ) → s.sess.op_cancel ≡ some op → r.1.sess.cancelled ≡ op ∷ s.sess.cancelled)
        × (r.1.sess.status.response_pending ≡ false)
        × (r.1.sess.tx.state ≡ tx_clearing)
        × (r.1.sess.state ≡ state_clearing)
        × ((h : Header)
            → discard_during_clear r.1.sess h ≡ not (h.type == MessageType.device_clear_complete))
        × (r.1.dev ≡ s.dev)
        × (r.1.conns ≡ s.conns)
  unfolding begin_device_clear require_ready abort_operation set_response_pending clear begin_clear
      discard_during_clear
  begin_device_clear-abandons cfg s ready other = ground arith

  -- A second AsyncDeviceClear while the first is under way is refused as an invalid transition.
  pub begin_device_clear_again :
      (cfg : Config) (s : State D)
      → s.sess.state ≡ state_clearing
      → s.sess.tx.state ≡ tx_clearing
      → (begin_device_clear cfg s).0 ≡ err err_invalid_transition
  unfolding begin_device_clear require_ready abort_operation set_response_pending clear
  begin_device_clear_again cfg s ready other = ground arith

  -- DeviceClearComplete on a session that is being cleared, with an admitted profile, whether the
  -- instrument's clear fails or not: the session is ready again and in synchronized mode whatever the
  -- client asked for, the transaction is idle, RMT-expected and the last MessageID are as at the start
  -- of a session, and so is the status: no response is pending, no service request is latched, the
  -- status byte last sent is 0, and the last message received is 0xfffffefe. Locks and limits stay.
  pub complete_device_clear-restores :
      (dev : Device D) (cfg : Config) (h : Header) (s : State D)
      → IsProfile cfg
      → h.type ≡ MessageType.device_clear_complete
      → s.sess.state ≡ state_clearing
      → let r = complete_device_clear dev cfg h s in
        (r.0.0 ≡ record no_header { type = MessageType.device_clear_acknowledge })
        × (r.1.sess.state ≡ state_ready)
        × (r.1.sess.overlap ≡ false)
        × (r.1.sess.tx ≡ record { state = tx_idle; id = no_message_id })
        × (r.1.sess.rmt.expected ≡ false)
        × (r.1.sess.status ≡ record {
          last_received = 0xffff_fefe;
          response_pending = false;
          srq_latched = false;
          srq_status = 0;
          started = true;
        })
        × (r.1.sess.last_tx ≡ no_message_id)
        × (r.1.locks ≡ s.locks)
        × (r.1.sess.max_rx ≡ s.sess.max_rx)
        × (r.1.sess.max_tx ≡ s.sess.max_tx)
  unfolding complete_device_clear complete_clear tx_reset rmt_reset
  complete_device_clear-restores dev cfg h s p t c = ground (arith, (validate_iff cfg).2 p)

  -- The response policy is no part of what a Device Clear resets: it goes on with the state that the
  -- abandoned message left it in.
  pub complete_device_clear-policy :
      (dev : Device D) (cfg : Config) (h : Header) (s : State D)
      → (complete_device_clear dev cfg h s).1.sess.policy ≡ s.sess.policy
  unfolding complete_device_clear complete_clear tx_reset
  complete_device_clear-policy dev cfg h s = ground arith
