-- ===== src/Server/Serve/Sending.antt =====
-- What a report on the asynchronous channel sends.
use hislip.Prelude.{
  ℕ, ◌+◌, ◌≡◌, refl, ap, ◌∙◌, inl, inr, true, false, Bytes, ◌++◌, ◌==◌, Bool-cases, arith,
}
use hislip.Errors.{Error, text}
use hislip.Protocol.MessageType
use hislip.Protocol.MessageType.{channel_asynchronous, legal_on}
use hislip.Protocol.Header.{Header}
use hislip.Protocol.Stream.{Stream}
use hislip.Protocol.Codec.Framing.{message_bytes}
use hislip.Server.WireError.{wire_error_for}
use hislip.Server.Session.{Writer}
use hislip.Server.State.{State, on_async, send_error, send_fatal_error}
use hislip.Server.State.Sends.{sent, IsOpen, send-sent}
use hislip.Server.Reports.Outcomes.{error_header, fatal_header}
use hislip.Server.Reports.{report_operation_error, operation_code}

pub error_legal : legal_on MessageType.error channel_asynchronous ≡ true
unfolding legal_on
error_legal = refl

pub fatal_legal : legal_on MessageType.fatal_error channel_asynchronous ≡ true
unfolding legal_on
fatal_legal = refl

pub size_legal :
    legal_on MessageType.async_maximum_message_size_response channel_asynchronous ≡ true
unfolding legal_on
size_legal = refl

module _ {D : Type 0} where
  -- One message has gone out on connection `k`, and nothing on any other.
  pub record IsAnswered (k : ℕ) (s t : State D) : Type 0 where
    pub header : Header
    pub payload : Bytes
    pub written : (t.conns k).written ≡ (s.conns k).written ++ message_bytes header payload
    pub others : (j : ℕ) → (k == j) ≡ false → t.conns j ≡ s.conns j

  pub sent-IsAnswered :
      (w : Writer) (h : Header) (payload : Bytes) (s x t : State D)
      → x.conns ≡ s.conns
      → t ≡ sent on_async w h payload x
      → IsAnswered w.conn s t
  sent-IsAnswered w h payload s x t same e = record {
    header = h;
    payload = payload;
    written =
        ap (λ (y : State D). (y.conns w.conn).written) e
        ∙ ground arith
        ∙ ap (λ (f : ℕ → Stream). (f w.conn).written ++ message_bytes h payload) same;
    others = λ j ne.
        ap (λ (y : State D). y.conns j) e ∙ ground arith ∙ ap (λ (f : ℕ → Stream). f j) same;
  }

  pub report-IsAnswered :
      (w : Writer) (e : Error) (s : State D)
      → IsOpen on_async channel_asynchronous w s
      → IsAnswered w.conn s (report_operation_error on_async e s).1
  unfolding report_operation_error send_error send_fatal_error
  report-IsAnswered w e s o =
      let n = record s {
        counters = record (s.counters) { non_fatal_errors = s.counters.non_fatal_errors + 1 };
      } in
      let f = record s {
        counters = record (s.counters) { fatal_errors = s.counters.fatal_errors + 1 };
      } in
      let code = operation_code (wire_error_for e).code in
      let fatal_code = (wire_error_for e).fatal_code in
      elim (Bool-cases (wire_error_for e).fatal) [
        | inl fatal ↦ sent-IsAnswered w (fatal_header fatal_code) (text e) s f _ refl (
            ground (
              arith,
              send-sent on_async channel_asynchronous w (fatal_header fatal_code) (text e) f
                  (ground arith) fatal_legal (inl refl),
            ))
        | inr other ↦ sent-IsAnswered w (error_header code) (text e) s n _ refl (
            ground (
              arith,
              send-sent on_async channel_asynchronous w (error_header code) (text e) n
                  (ground arith) error_legal (inl refl),
            ))
      ]
