-- ===== src/Server/Data/Failures.antt =====
-- SendResponse where the instrument fails.
use hislip.Prelude.{
  ℕ, zero, suc, ◌+◌, ◌≤◌, ◌<◌, ◌≡◌, refl, ap, ◌∙◌, sym, subst, inl, inr, Bool, true, false, some,
  List, [], ◌∷◌, ◌++◌, Bytes, length, ◌==◌, append_assoc, append-nil, arith,
}
use hislip.Prelude.Text.{codes}
use hislip.Errors.{Error, ok}
use hislip.Protocol.MessageType
use hislip.Protocol.MessageType.{channel_synchronous, channel_asynchronous, legal_on}
use hislip.Protocol.MessageId.{no_message_id}
use hislip.Protocol.Header.{no_header}
use hislip.Protocol.Codec.Framing.{message_bytes}
use hislip.Server.Status.{set_response_pending}
use hislip.Server.Transaction.{
  tx_idle, tx_input_complete, tx_response_pending, tx_sending_response, expect_response,
  begin_response,
}
use hislip.Server.Session.{Writer}
use hislip.Server.Device.{Device, Chunk}
use hislip.Server.WireError.{code_response_timeout}
use hislip.Server.State.{State, on_sync}
use hislip.Server.State.Sends.{IsOpen, send-sent}
use hislip.Server.Data.{
  ResponseOutcome, response_truncated, response_absent, Response, Attempt, response_header,
  after_chunk, send_chunk, send_failed, send_loop, send_response, validate_response, set_pending,
}
use hislip.Server.Data.Responds.{
  wire, chunk_writer, conn-chunk_writer, chunked-IsOpen, chunked-wire, chunked-rest,
}
use hislip.Server.Data.Chunks.{data_legal, CanSend, Reads, chunked, with_tx}
use hislip.Server.Data.Prefix.{total, loop-prefix}
use hislip.Server.Data.FailedReads.{send_failed-absent, send_failed-truncated}

-- Whether anything was delivered before the failure.
abbrev pub failure_outcome : ℕ → ResponseOutcome
failure_outcome zero = response_absent
failure_outcome (suc n) = response_truncated

abbrev pub failure_text : ℕ → Bytes
failure_text zero = codes "no response from instrument"
failure_text (suc n) = codes "response truncated"

-- What goes out at a failure behind `n` bytes: the Error message, and an empty DataEnd.
abbrev pub failure_wire : ℕ → ℕ → Bytes
failure_wire id n =
    message_bytes (record no_header { type = MessageType.error; control = code_response_timeout })
      (failure_text n)
    ++ message_bytes (response_header MessageType.data_end id []) []

module _ {D : Type 0} where
  -- How a failed response leaves the session and its connection `k`.
  pub record IsEndedEarly (k : ℕ) (r : Response) (before : Bytes) (s t : State D) : Type 0 where
    pub written : (t.conns k).written ≡ before
    pub others : (j : ℕ) → (k == j) ≡ false → t.conns j ≡ s.conns j
    pub tx : t.sess.tx ≡ record { state = tx_idle; id = no_message_id }
    pub rmt_expected : t.sess.rmt.expected ≡ true
    pub last_tx : t.sess.last_tx ≡ r.message_id

  send_failed-ends :
      (r : Response) (w : Writer) (n : ℕ) (s : State D)
      → IsOpen on_sync channel_synchronous w s
      → CanSend s.sess.tx.state
      → (t : State D) × (send_failed r n s ≡ (some (failure_outcome n, ok tt), t))
        × IsEndedEarly w.conn r ((s.conns w.conn).written ++ failure_wire r.message_id n) s t
  send_failed-ends r w zero s o c = (
    _,
    send_failed-absent r w s o c,
    ground (
      arith,
      append_assoc (s.conns w.conn).written
          (message_bytes
            (record no_header { type = MessageType.error; control = code_response_timeout })
            (codes "no response from instrument"))
          (message_bytes (response_header MessageType.data_end r.message_id []) []),
    ),
  )
  send_failed-ends r w (suc n) s o c = (
    _,
    send_failed-truncated r w (suc n) s (omega arith) o c,
    ground (
      arith,
      append_assoc (s.conns w.conn).written
          (message_bytes
            (record no_header { type = MessageType.error; control = code_response_timeout })
            (codes "response truncated"))
          (message_bytes (response_header MessageType.data_end r.message_id []) []),
    ),
  )

  -- A chunk that comes with an error goes out as Data whether it is marked as the end or not.
  chunk-failed :
      (r : Response) (w : Writer) (c : Chunk) (e : Error) (n m : ℕ) (s : State D)
      (again : ℕ → State D → Attempt D)
      → n + length c.bytes ≡ m
      → c.error ≡ some e
      → IsOpen on_sync channel_synchronous w s
      → CanSend s.sess.tx.state
      → send_chunk r c n s (after_chunk c.error c.end r c.bytes again)
        ≡ send_failed r m (chunked r w c.bytes s)
  unfolding send_chunk begin_response
  chunk-failed r w c e n m s again g f o p = ground (
    arith,
    send-sent on_sync channel_synchronous w
        (response_header MessageType.data_message r.message_id c.bytes) c.bytes
        (with_tx tx_sending_response s) (ground arith) data_legal (inr refl),
  )

  loop-failed :
      (dev : Device D) (r : Response) (w : Writer) (fuel : ℕ) (s : State D) (bs : List Bytes)
      (c : Chunk) (d' : D) (e : Error)
      → Reads dev r.scratch s.dev bs c d'
      → length bs < fuel
      → c.error ≡ some e
      → IsOpen on_sync channel_synchronous w s
      → CanSend s.sess.tx.state
      → let n = total bs + length c.bytes in
        (t : State D) × (send_loop dev r fuel 0 s ≡ (some (failure_outcome n, ok tt), t))
        × IsEndedEarly w.conn r
            ((s.conns w.conn).written
              ++ (wire r.message_id bs
                  ++ (wire r.message_id (c.bytes ∷ []) ++ failure_wire r.message_id n)))
            s
            t
  loop-failed dev r w fuel s bs c d' e reads h f o p =
      let (u, w', again, run, v) =
        loop-prefix dev r w fuel 0 w.conn s s.dev bs c d' refl refl reads h o p in
      let u' = record u { dev = d' } in
      let n = total bs + length c.bytes in
      let w2 = chunk_writer w' c.bytes in
      let x = chunked r w' c.bytes u' in
      let open' = chunked-IsOpen r w' c.bytes u' (ground (arith, v.is_open)) v.can_send in
      let (t, failed, z) = send_failed-ends r w2 n x open'.0 open'.1 in
      let kc = conn-chunk_writer w' c.bytes ∙ v.conn in
      let z' =
        subst (λ k. IsEndedEarly k r ((x.conns k).written ++ failure_wire r.message_id n) x t) kc
          z in
      let cw =
        subst
          (λ k. (x.conns k).written ++ [] ≡ (u.conns k).written ++ wire r.message_id (c.bytes ∷ []))
          v.conn (chunked-wire r w' c.bytes [] u') in
      (
        t,
        run
            ∙ chunk-failed r w' c e (0 + total bs) n u' again (omega arith) f
                (ground (arith, v.is_open)) v.can_send
            ∙ failed,
        record {
          written =
              z'.written
              ∙ ap (λ b. b ++ failure_wire r.message_id n)
                  (sym (append-nil (x.conns w.conn).written)
                    ∙ cw
                    ∙ ap (λ b. b ++ wire r.message_id (c.bytes ∷ [])) v.written)
              ∙ append_assoc ((s.conns w.conn).written ++ wire r.message_id bs)
                  (wire r.message_id (c.bytes ∷ [])) (failure_wire r.message_id n)
              ∙ append_assoc (s.conns w.conn).written (wire r.message_id bs)
                  (wire r.message_id (c.bytes ∷ []) ++ failure_wire r.message_id n);
          others = λ j ne.
              z'.others j ne
              ∙ (chunked-rest r w' c.bytes u').1 j (ground (arith, v.conn))
              ∙ v.others j ne;
          tx = z'.tx;
          rmt_expected = z'.rmt_expected;
          last_tx = z'.last_tx;
        },
      )

  -- On a session with both writers, whose synchronous connection takes every write, whose input is
  -- complete, and with a buffer that is not empty and within the session's limit: SendResponse with
  -- more fuel than there are intermediate chunks, on an instrument whose read fails behind them, and
  -- with a predicate for queued input, whatever that says. What was read goes out as Data messages,
  -- then an Error message says whether the response is absent or truncated, then an empty DataEnd ends
  -- it. The call succeeds with that outcome: the transaction is idle, RMT-expected is set, the
  -- MessageID is recorded, no response is pending and no other connection is written to.
  pub send_response-failed :
      (dev : Device D) (r : Response) (w a : Writer) (fuel : ℕ) (s : State D) (bs : List Bytes)
      (c : Chunk) (d' : D) (e : Error) (queued : Bool)
      → Reads dev r.scratch s.dev bs c d'
      → length bs < fuel
      → c.error ≡ some e
      → IsOpen on_sync channel_synchronous w s
      → s.sess.async_w ≡ some a
      → s.sess.tx.state ≡ tx_input_complete
      → 0 < r.scratch
      → r.scratch ≤ s.sess.max_tx
      → r.input_queued ≡ some queued
      → let n = total bs + length c.bytes in
        (t : State D) × (send_response dev r fuel s ≡ (some (failure_outcome n, ok tt), t))
        × IsEndedEarly w.conn r
            ((s.conns w.conn).written
              ++ (wire r.message_id bs
                  ++ (wire r.message_id (c.bytes ∷ []) ++ failure_wire r.message_id n)))
            s
            t
        × (t.sess.status.response_pending ≡ false)
  unfolding send_response validate_response expect_response set_response_pending
  send_response-failed dev r w a fuel s bs c d' e queued reads h f o aw st pos fits q =
      let u = set_pending true (with_tx tx_response_pending s) in
      let (t, run, v) = loop-failed dev r w fuel u bs c d' e reads h f (ground arith) (inl refl) in
      (
        set_pending false t,
        ground (arith, run),
        record {
          written = v.written;
          others = v.others;
          tx = v.tx;
          rmt_expected = v.rmt_expected;
          last_tx = v.last_tx;
        },
        refl,
      )
