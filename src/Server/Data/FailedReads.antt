-- ===== src/Server/Data/FailedReads.antt =====
-- The end of a response whose read failed.
use hislip.Prelude.{
  ℕ, ◌+◌, ◌%◌, ◌^◌, ◌<◌, ◌≡◌, refl, inl, inr, true, some, [], Bytes, length, arith,
}
use hislip.Prelude.Text.{codes}
use hislip.Errors.{ok}
use hislip.Protocol.MessageType
use hislip.Protocol.MessageType.{channel_synchronous, channel_asynchronous, legal_on}
use hislip.Protocol.Header.{no_header}
use hislip.Server.Transaction.{tx_sending_response, begin_response}
use hislip.Server.Session.{Writer}
use hislip.Server.WireError.{code_response_timeout}
use hislip.Server.State.{State, on_sync, send_error}
use hislip.Server.State.Sends.{sent, IsOpen, send-sent}
use hislip.Server.Data.{
  response_truncated, response_absent, Response, complete_absent_response, send_failed,
}
use hislip.Server.Data.Chunks.{CanSend, terminate-ended, ended, with_tx}

pub error_legal : legal_on MessageType.error channel_synchronous ≡ true
unfolding legal_on
error_legal = refl

-- The writer behind the Error message.
abbrev pub error_writer : Writer → Bytes → Writer
error_writer w description = record w { written = (w.written + 16 + length description) % 2 ^ 64 }

module _ {D : Type 0} where
  -- The state behind an Error message on the synchronous channel.
  abbrev pub after_error : Writer → Bytes → State D → State D
  after_error w description s =
      sent on_sync w
        (record no_header { type = MessageType.error; control = code_response_timeout }) description
        s

  pub send_error-sent :
      (w : Writer) (description : Bytes) (s : State D)
      → IsOpen on_sync channel_synchronous w s
      → send_error on_sync code_response_timeout description s
        ≡ (ok tt, after_error w description s)
  unfolding send_error
  send_error-sent w description s o =
      send-sent on_sync channel_synchronous w
        (record no_header { type = MessageType.error; control = code_response_timeout }) description
        s o error_legal (inl refl)

  pub send_failed-absent :
      (r : Response) (w : Writer) (s : State D)
      → IsOpen on_sync channel_synchronous w s
      → CanSend s.sess.tx.state
      → let m = codes "no response from instrument" in
        send_failed r 0 s ≡ (
          some (response_absent, ok tt),
          ended r (error_writer w m) [] (with_tx tx_sending_response (after_error w m s)),
        )
  unfolding send_failed complete_absent_response begin_response
  send_failed-absent r w s o c =
      let m = codes "no response from instrument" in
      ground (
        arith,
        send_error-sent w m s o,
        terminate-ended r (error_writer w m) [] (with_tx tx_sending_response (after_error w m s))
            (ground arith) (inr refl),
      )

  pub send_failed-truncated :
      (r : Response) (w : Writer) (n : ℕ) (s : State D)
      → 0 < n
      → IsOpen on_sync channel_synchronous w s
      → CanSend s.sess.tx.state
      → let m = codes "response truncated" in
        send_failed r n s
        ≡ (some (response_truncated, ok tt), ended r (error_writer w m) [] (after_error w m s))
  unfolding send_failed
  send_failed-truncated r w n s pos o c =
      let m = codes "response truncated" in
      ground (
        arith,
        send_error-sent w m s o,
        terminate-ended r (error_writer w m) [] (after_error w m s) (ground arith) (ground arith),
      )
