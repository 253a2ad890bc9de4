-- ===== src/Server/Data/Responds.antt =====
-- SendResponse against the reads of the instrument: what the client gets, and how the session is left.
use hislip.Prelude.{
  ℕ, zero, suc, ◌+◌, ◌%◌, ◌^◌, ◌≤◌, ◌<◌, ◌≡◌, refl, ap, ◌∙◌, sym, subst, inl, inr, true, false,
  none, some, List, [], ◌∷◌, ◌++◌, Bytes, length, ◌==◌, if◌then◌else◌, append_assoc, Bool-cases,
  arith,
}
use hislip.Errors.{ok}
use hislip.Protocol.MessageType
use hislip.Protocol.MessageType.{channel_synchronous, channel_asynchronous, legal_on}
use hislip.Protocol.MessageId.{no_message_id}
use hislip.Protocol.Header.{header_size}
use hislip.Protocol.Codec.Framing.{message_bytes}
use hislip.Protocol.Stream.{Stream}
use hislip.Server.Status.{set_response_pending}
use hislip.Server.Transaction.{
  tx_idle, tx_input_complete, tx_response_pending, expect_response, tx_sending_response,
  begin_response,
}
use hislip.Server.Session.{Writer}
use hislip.Server.Device.{Device, Chunk}
use hislip.Server.State.{State, on_sync}
use hislip.Server.State.Sends.{IsOpen}
use hislip.Server.Data.{
  response_complete, Response, Attempt, response_header, after_chunk, send_chunk, send_loop,
  send_response, validate_response, set_pending,
}
use hislip.Server.Data.Chunks.{
  CanSend, with_tx, ended, send_end-ended, chunked, send_chunk-chunked, Reads, loop-step,
}

-- What the client gets for the chunks of a response: a Data message for each that has bytes.
abbrev pub wire : ℕ → List Bytes → Bytes
wire id [] = []
wire id (b ∷ bs) =
    (if length b == 0 then [] else message_bytes (response_header MessageType.data_message id b) b)
    ++ wire id bs

-- The writer behind an intermediate chunk.
pub chunk_writer : Writer → Bytes → Writer
chunk_writer w b =
    if length b == 0
    then w
    else record w { written = (w.written + header_size + length b) % 2 ^ 64 }

pub conn-chunk_writer : (w : Writer) (b : Bytes) → (chunk_writer w b).conn ≡ w.conn
unfolding chunk_writer
conn-chunk_writer w b = ground arith

-- A chunk that completes the response.
abbrev pub IsEnd : Chunk → Type 0
IsEnd c = (c.end ≡ true) × (c.error ≡ none)

module _ {D : Type 0} where
  -- How a complete response leaves the session, its connection `k` and the instrument.
  pub record IsDelivered (r : Response) (k : ℕ) (bs : List Bytes) (last : Bytes) (d' : D)
      (before : ℕ → Stream) (t : State D) : Type 0 where
    pub dev : t.dev ≡ d'
    pub written :
        (t.conns k).written
        ≡ (before k).written
          ++ (wire r.message_id bs
              ++ message_bytes (response_header MessageType.data_end r.message_id last) last)
    pub others : (j : ℕ) → (k == j) ≡ false → t.conns j ≡ before j
    pub tx : t.sess.tx ≡ record { state = tx_idle; id = no_message_id }
    pub rmt_expected : t.sess.rmt.expected ≡ true
    pub last_tx : t.sess.last_tx ≡ r.message_id

  last-chunk :
      (r : Response) (w : Writer) (c : Chunk) (delivered : ℕ) (s : State D)
      (again : ℕ → State D → Attempt D)
      → IsEnd c
      → IsOpen on_sync channel_synchronous w s
      → CanSend s.sess.tx.state
      → r.input_queued ≡ some false
      → send_chunk r c delivered s (after_chunk c.error c.end r c.bytes again)
        ≡ (some (response_complete, ok tt), ended r w c.bytes s)
  unfolding send_chunk begin_response
  last-chunk r w c delivered s again i o p q = ground (
    arith,
    send_end-ended r w c.bytes s o p q,
    send_end-ended r w c.bytes (with_tx tx_sending_response s) (ground arith) (inr refl) q,
  )

  -- The chunk that ends the response.
  last-IsDelivered :
      (dev : Device D) (r : Response) (w : Writer) (fuel delivered : ℕ) (s : State D) (c : Chunk)
      (d' : D)
      → dev.read s.dev r.scratch ≡ (c, d')
      → IsEnd c
      → IsOpen on_sync channel_synchronous w s
      → CanSend s.sess.tx.state
      → r.input_queued ≡ some false
      → (t : State D) × (send_loop dev r (suc fuel) delivered s
          ≡ (some (response_complete, ok tt), t))
        × IsDelivered r w.conn [] c.bytes d' s.conns t
  last-IsDelivered dev r w fuel delivered s c d' e i o p q = (
    ended r w c.bytes (record s { dev = d' }),
    loop-step dev r fuel delivered s c d' e
        ∙ last-chunk r w c delivered (record s { dev = d' }) _ i (ground arith) p q,
    ground arith,
  )

  pub chunked-IsOpen :
      (r : Response) (w : Writer) (b : Bytes) (s : State D)
      → IsOpen on_sync channel_synchronous w s
      → CanSend s.sess.tx.state
      → IsOpen on_sync channel_synchronous (chunk_writer w b) (chunked r w b s)
        × CanSend (chunked r w b s).sess.tx.state
  unfolding chunk_writer
  chunked-IsOpen r w b s o p = ground arith

  -- The wire and the rest of the state behind an intermediate chunk.
  pub chunked-wire :
      (r : Response) (w : Writer) (b : Bytes) (bs : List Bytes) (s : State D)
      → ((chunked r w b s).conns w.conn).written ++ wire r.message_id bs
        ≡ (s.conns w.conn).written ++ wire r.message_id (b ∷ bs)
  chunked-wire r w b bs s = elim (Bool-cases (length b == 0)) [
    | inl none_sent ↦ ground arith
    | inr some_sent ↦ ground (
      arith,
      append_assoc (s.conns w.conn).written
          (message_bytes (response_header MessageType.data_message r.message_id b) b)
          (wire r.message_id bs),
    )
  ]

  pub chunked-rest :
      (r : Response) (w : Writer) (b : Bytes) (s : State D)
      → ((chunked r w b s).dev ≡ s.dev)
        × ((j : ℕ) → (w.conn == j) ≡ false → (chunked r w b s).conns j ≡ s.conns j)
  chunked-rest r w b s = (ground arith, λ j ne. ground arith)

  -- One more chunk in front.
  IsDelivered-chunked :
      (r : Response) (w : Writer) (b : Bytes) (bs : List Bytes) (last : Bytes) (d' : D)
      (s t : State D)
      → IsDelivered r w.conn bs last d' (chunked r w b s).conns t
      → IsDelivered r w.conn (b ∷ bs) last d' s.conns t
  IsDelivered-chunked r w b bs last d' s t v = record {
    dev = v.dev;
    written =
        let end = message_bytes (response_header MessageType.data_end r.message_id last) last in
        v.written
        ∙ sym (append_assoc ((chunked r w b s).conns w.conn).written (wire r.message_id bs) end)
        ∙ ap (λ x. x ++ end) (chunked-wire r w b bs s)
        ∙ append_assoc (s.conns w.conn).written (wire r.message_id (b ∷ bs)) end;
    others = λ j ne. v.others j ne ∙ (chunked-rest r w b s).1 j ne;
    tx = v.tx;
    rmt_expected = v.rmt_expected;
    last_tx = v.last_tx;
  }

  pub loop-IsDelivered :
      (dev : Device D) (r : Response) (w : Writer) (fuel delivered : ℕ) (s : State D) (d : D)
      (bs : List Bytes) (c : Chunk) (d' : D)
      → s.dev ≡ d
      → Reads dev r.scratch d bs c d'
      → length bs < fuel
      → IsEnd c
      → IsOpen on_sync channel_synchronous w s
      → CanSend s.sess.tx.state
      → r.input_queued ≡ some false
      → (t : State D) × (send_loop dev r fuel delivered s ≡ (some (response_complete, ok tt), t))
        × IsDelivered r w.conn bs c.bytes d' s.conns t
  loop-IsDelivered dev r w zero delivered s d bs c d' a e h i o p q = absurd (omega arith)
  loop-IsDelivered dev r w (suc fuel) delivered s d [] c d' a e h i o p q =
      last-IsDelivered dev r w fuel delivered s c d' (ap (λ x. dev.read x r.scratch) a ∙ e) i o p q
  loop-IsDelivered dev r w (suc fuel) delivered s d (b ∷ bs) c d' a (d1, e, es) h i o p q =
      let s' = record s { dev = d1 } in
      let open' = chunked-IsOpen r w b s' (ground arith) p in
      let same = conn-chunk_writer w b in
      let (t, run, v) =
        loop-IsDelivered dev r (chunk_writer w b) fuel (delivered + length b) (chunked r w b s') d1
          bs c d' (chunked-rest r w b s').0 es (omega arith) i open'.0 open'.1 q in
      (
        t,
        loop-step dev r fuel delivered s _ d1 (ap (λ x. dev.read x r.scratch) a ∙ e)
            ∙ send_chunk-chunked r w b delivered s' _ (ground arith) p
            ∙ run,
        IsDelivered-chunked r w b bs c.bytes d' s' t
            (subst (λ k. IsDelivered r k bs c.bytes d' (chunked r w b s').conns t) same v),
      )

  -- On a session with both writers, whose synchronous connection takes every write, whose input is
  -- complete, and with a buffer that is not empty and within the session's limit: SendResponse with
  -- more fuel than there are intermediate chunks, on an instrument that completes its response, with
  -- no input queued, succeeds. The chunks go out as Data messages and the last as DataEnd, all with
  -- the MessageID of the response, in the order in which they were read; no other connection is
  -- written to, the transaction is idle, RMT-expected is set, the MessageID is recorded, and no
  -- response is pending any more.
  pub send_response-IsDelivered :
      (dev : Device D) (r : Response) (w : Writer) (a : Writer) (fuel : ℕ) (s : State D)
      (bs : List Bytes) (c : Chunk) (d' : D)
      → Reads dev r.scratch s.dev bs c d'
      → length bs < fuel
      → IsEnd c
      → IsOpen on_sync channel_synchronous w s
      → s.sess.async_w ≡ some a
      → s.sess.tx.state ≡ tx_input_complete
      → 0 < r.scratch
      → r.scratch ≤ s.sess.max_tx
      → r.input_queued ≡ some false
      → (t : State D) × (send_response dev r fuel s ≡ (some (response_complete, ok tt), t))
        × IsDelivered r w.conn bs c.bytes d' s.conns t
        × (t.sess.status.response_pending ≡ false)
  unfolding send_response validate_response expect_response set_response_pending
  send_response-IsDelivered dev r w a fuel s bs c d' reads h i o aw st pos fits q =
      let u = set_pending true (with_tx tx_response_pending s) in
      let (t, run, v) =
        loop-IsDelivered dev r w fuel 0 u s.dev bs c d' refl reads h i (ground arith) (inl refl)
          q in
      (
        set_pending false t,
        ground (arith, run),
        record {
          dev = v.dev;
          written = v.written;
          others = v.others;
          tx = v.tx;
          rmt_expected = v.rmt_expected;
          last_tx = v.last_tx;
        },
        refl,
      )
