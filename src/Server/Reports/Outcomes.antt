-- ===== src/Server/Reports/Outcomes.antt =====
-- What an error report does: who is told, what is counted, and whether the session ends.
use hislip.Prelude.{ℕ, ◌+◌, ◌≡◌, refl, inl, true, false, ◌==◌, if◌then◌else◌, Bytes, arith}
use hislip.Errors.{Error, ok, err, text}
use hislip.Protocol.MessageType
use hislip.Protocol.MessageType.{channel_synchronous, legal_on}
use hislip.Protocol.Header.{Header, no_header}
use hislip.Server.WireError.{wire_error_for}
use hislip.Server.Session.{Writer}
use hislip.Server.State.{State, Side, send, on_sync, on_async, send_error, send_fatal_error}
use hislip.Server.State.Sends.{grown, IsOpen, send-sent}
use hislip.Server.Reports.{report_operation_error}

error_legal : legal_on MessageType.error channel_synchronous ≡ true
unfolding legal_on
error_legal = refl

fatal_legal : legal_on MessageType.fatal_error channel_synchronous ≡ true
unfolding legal_on
fatal_legal = refl

-- The message that tells the client of an error, with its code.
abbrev pub error_header : ℕ → Header
error_header code = record no_header { type = MessageType.error; control = code }

abbrev pub fatal_header : ℕ → Header
fatal_header code = record no_header { type = MessageType.fatal_error; control = code }

module _ {D : Type 0} where
  -- The transaction and the instrument of two states are the same, and whether a response is pending.
  pub record IsAlike (s t : State D) : Type 0 where
    pub tx : t.sess.tx ≡ s.sess.tx
    pub pending : t.sess.status.response_pending ≡ s.sess.status.response_pending
    pub dev : t.dev ≡ s.dev

  send-IsAlike :
      (side : Side) (h : Header) (b : Bytes) (s : State D) → IsAlike s (send side h b s).1
  unfolding send
  send-IsAlike on_sync h b s = record {
    tx = ground arith;
    pending = ground arith;
    dev = ground arith;
  }
  send-IsAlike on_async h b s = record {
    tx = ground arith;
    pending = ground arith;
    dev = ground arith;
  }

  -- An error report moves neither, whether or not the client can be told.
  pub operation_error-IsAlike :
      (side : Side) (e : Error) (s : State D) → IsAlike s (report_operation_error side e s).1
  unfolding report_operation_error send_error send_fatal_error
  operation_error-IsAlike on_sync e s = record {
    tx = ground arith;
    pending = ground arith;
    dev = ground arith;
  }
  operation_error-IsAlike on_async e s = record {
    tx = ground arith;
    pending = ground arith;
    dev = ground arith;
  }

  -- On an open synchronous connection an operation error is reported in one message with the error's
  -- text. One that is not fatal is an Error, with its code, and with the device-defined code 128 where
  -- that is 0; the report succeeds, so the session goes on, and one non-fatal error is counted. One that
  -- is fatal is a FatalError, ends the session with the error, and one fatal error is counted. Neither
  -- moves the transaction, the state of the session or the instrument.
  pub report_operation_error-tells :
      (w : Writer) (e : Error) (s : State D)
      → IsOpen on_sync channel_synchronous w s
      → let r = report_operation_error on_sync e s in
        ((wire_error_for e).fatal ≡ false
          → (r.0 ≡ ok tt)
            × (r.1.conns w.conn
                ≡ grown
                    (s.conns w.conn)
                    (error_header
                      (if (wire_error_for e).code == 0 then 128 else (wire_error_for e).code))
                    (text e))
            × (r.1.counters.non_fatal_errors ≡ s.counters.non_fatal_errors + 1)
            × (r.1.counters.fatal_errors ≡ s.counters.fatal_errors))
        × ((wire_error_for e).fatal ≡ true
            → (r.0 ≡ err e)
              × (r.1.conns w.conn
                  ≡ grown (s.conns w.conn) (fatal_header (wire_error_for e).fatal_code) (text e))
              × (r.1.counters.fatal_errors ≡ s.counters.fatal_errors + 1)
              × (r.1.counters.non_fatal_errors ≡ s.counters.non_fatal_errors))
        × (r.1.sess.tx ≡ s.sess.tx)
        × (r.1.sess.state ≡ s.sess.state)
        × (r.1.dev ≡ s.dev)
  unfolding report_operation_error send_error send_fatal_error
  report_operation_error-tells w e s o =
      let code = if (wire_error_for e).code == 0 then 128 else (wire_error_for e).code in
      let fatal_code = (wire_error_for e).fatal_code in
      let n = record s {
        counters = record (s.counters) { non_fatal_errors = s.counters.non_fatal_errors + 1 };
      } in
      let f = record s {
        counters = record (s.counters) { fatal_errors = s.counters.fatal_errors + 1 };
      } in
      ground (
        arith,
        send-sent on_sync channel_synchronous w (error_header code) (text e) n (ground arith)
            error_legal (inl refl),
        send-sent on_sync channel_synchronous w (fatal_header fatal_code) (text e) f (ground arith)
            fatal_legal (inl refl),
      )
