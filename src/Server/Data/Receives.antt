-- ===== src/Server/Data/Receives.antt =====
-- ReceiveData and Trigger: what arrives at the instrument, and what a failing instrument leaves.
use hislip.Prelude.{
  ◌≡◌, ◌≢◌, ◌⊎◌, inr, ap, ◌∙◌, true, false, Option, none, some, Bytes, ◌==◌, if◌then◌else◌, arith,
}
use hislip.Errors.{Error, Result, ok, err, err_invalid_transition}
use hislip.Protocol.MessageType
use hislip.Protocol.Header.{Header, message_id, rmt_delivered}
use hislip.Server.Rmt.{not_interrupted, rmt_received}
use hislip.Server.Status.{status_received}
use hislip.Server.Transaction.{
  TxState, tx_idle, tx_receiving_input, tx_input_complete, begin_input, complete_input, complete,
}
use hislip.Server.Session.{require_ready, state_ready}
use hislip.Server.Device.{Device}
use hislip.Server.State.{State, on_sync}
use hislip.Server.Reports.{report_operation_error}
use hislip.Server.Reports.Outcomes.{operation_error-IsAlike}
use hislip.Server.Data.{receive_data, trigger_device, arrive, input_step}

-- Input may be taken: no message yet, or one whose end has not come.
abbrev pub TakesInput : TxState → Type 0
TakesInput t = (t ≡ tx_idle) ⊎ (t ≡ tx_receiving_input)

abbrev pub IsData : Header → Type 0
IsData h = (h.type ≡ MessageType.data_message) ⊎ (h.type ≡ MessageType.data_end)

-- The result of a call of the instrument.
abbrev pub of_write : Option Error → Result (Unit {0})
of_write none = ok tt
of_write (some e) = err e

module _ {D : Type 0} where
  -- A Data or DataEnd that comes while input may be taken goes to the instrument whole, marked as the end
  -- exactly if it is a DataEnd, and the instrument's error is the error of the call. Whether it fails or
  -- not, an interrupted error is declared exactly if the flag disagrees with RMT-expected, which is
  -- cleared; the message is the last one received; and the transaction has moved on, with the MessageID
  -- of the message when it is complete. Nothing is sent.
  pub receive_data_lem :
      (dev : Device D) (h : Header) (payload : Bytes) (s : State D)
      → IsData h
      → TakesInput s.sess.tx.state
      → let end = h.type == MessageType.data_end in
        let r = receive_data dev h payload s in
        (r.0.1 ≡ of_write (dev.write s.dev payload end).0)
        × (r.1.dev ≡ (dev.write s.dev payload end).1)
        × (r.0.0 ≡ not_interrupted → rmt_delivered h ≡ s.sess.rmt.expected)
        × (rmt_delivered h ≡ s.sess.rmt.expected → r.0.0 ≡ not_interrupted)
        × (r.1.sess.rmt.expected ≡ false)
        × (r.1.sess.status.last_received ≡ message_id h)
        × (r.1.sess.tx ≡ (
            if end
            then record { state = tx_input_complete; id = message_id h }
            else record { state = tx_receiving_input; id = s.sess.tx.id }))
        × (r.1.conns ≡ s.conns)
  unfolding receive_data arrive input_step rmt_received status_received begin_input complete_input
  receive_data_lem dev h payload s d t = ground arith

  -- What ReceiveData leaves alone.
  pub record Keeps (s t : State D) : Type 0 where
    pub sync_w : t.sess.sync_w ≡ s.sess.sync_w
    pub async_w : t.sess.async_w ≡ s.sess.async_w
    pub pending : t.sess.pending ≡ s.sess.pending
    pub max_tx : t.sess.max_tx ≡ s.sess.max_tx
    pub policy : t.sess.policy ≡ s.sess.policy

  pub receive_data-Keeps :
      (dev : Device D) (h : Header) (payload : Bytes) (s : State D)
      → IsData h
      → TakesInput s.sess.tx.state
      → Keeps s (receive_data dev h payload s).1
  unfolding receive_data arrive input_step begin_input complete_input
  receive_data-Keeps dev h payload s d t = ground arith

  receive_data_pending :
      (dev : Device D) (h : Header) (payload : Bytes) (s : State D)
      → IsData h
      → TakesInput s.sess.tx.state
      → s.sess.status.response_pending ≡ false
      → (receive_data dev h payload s).1.sess.status.response_pending ≡ false
  unfolding receive_data arrive input_step status_received begin_input complete_input
  receive_data_pending dev h payload s d t none_pending = ground arith

  -- Behind a message that is complete, until its transaction moves on, a DataEnd is refused as an
  -- invalid transition and does not reach the instrument; the transaction stays as it is.
  pub complete_refuses :
      (dev : Device D) (h : Header) (payload : Bytes) (s : State D)
      → h.type ≡ MessageType.data_end
      → s.sess.tx.state ≡ tx_input_complete
      → let r = receive_data dev h payload s in
        (r.0.1 ≡ err err_invalid_transition) × (r.1.dev ≡ s.dev) × (r.1.sess.tx ≡ s.sess.tx)
  unfolding receive_data arrive input_step rmt_received status_received complete_input
  complete_refuses dev h payload s d t = ground arith

  -- A DataEnd that comes while input may be taken and that the instrument refuses: the instrument's
  -- error is returned, nothing is sent, no response is pending if none was before, and the transaction
  -- is left complete, with the MessageID of that DataEnd. Behind the report of the error to the client,
  -- the next DataEnd is refused as an invalid transition: it does not reach the instrument, and the
  -- transaction stays complete as it is.
  pub failed_write_blocks :
      (dev : Device D) (h h' : Header) (payload payload' : Bytes) (e : Error) (s : State D)
      → h.type ≡ MessageType.data_end
      → h'.type ≡ MessageType.data_end
      → TakesInput s.sess.tx.state
      → (dev.write s.dev payload true).0 ≡ some e
      → let first = receive_data dev h payload s in
        let reported = (report_operation_error on_sync e first.1).1 in
        let second = receive_data dev h' payload' reported in
        (first.0.1 ≡ err e)
        × (first.1.conns ≡ s.conns)
        × (s.sess.status.response_pending ≡ false → first.1.sess.status.response_pending ≡ false)
        × (first.1.sess.tx ≡ record { state = tx_input_complete; id = message_id h })
        × (second.0.1 ≡ err err_invalid_transition)
        × (second.1.dev ≡ (dev.write s.dev payload true).1)
        × (second.1.sess.tx ≡ record { state = tx_input_complete; id = message_id h })
  failed_write_blocks dev h h' payload payload' e s d d' t w =
      let r = receive_data_lem dev h payload s (inr d) t in
      let first = (receive_data dev h payload s).1 in
      let told = operation_error-IsAlike on_sync e first in
      let complete_now : first.sess.tx ≡ record { state = tx_input_complete; id = message_id h } =
        ground arith in
      let refused =
        complete_refuses dev h' payload' (report_operation_error on_sync e first).1 d'
          (ap (λ t. t.state) (told.tx ∙ complete_now)) in
      ground (arith, receive_data_pending dev h payload s (inr d) t)

  -- A Trigger on a ready session that is idle triggers the instrument once. If that succeeds the
  -- transaction is idle again; if it fails its error is returned, and the transaction is left complete,
  -- where complete_refuses applies.
  pub trigger_device_lem :
      (dev : Device D) (h : Header) (s : State D)
      → h.type ≡ MessageType.trigger
      → s.sess.state ≡ state_ready
      → TakesInput s.sess.tx.state
      → let r = trigger_device dev h s in
        (r.0.1 ≡ of_write (dev.trigger s.dev).0)
        × (r.1.dev ≡ (dev.trigger s.dev).1)
        × ((dev.trigger s.dev).0 ≡ none → r.1.sess.tx.state ≡ tx_idle)
        × ((dev.trigger s.dev).0 ≢ none → r.1.sess.tx.state ≡ tx_input_complete)
        × (r.1.sess.rmt.expected ≡ false)
        × (r.1.sess.status.last_received ≡ message_id h)
  unfolding trigger_device arrive rmt_received status_received require_ready complete_input complete
  trigger_device_lem dev h s d ready t = ground arith
