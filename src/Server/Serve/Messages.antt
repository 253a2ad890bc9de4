-- ===== src/Server/Serve/Messages.antt =====
-- A whole program message through the synchronous handler.
use hislip.Prelude.{
  ℕ, ◌^◌, ◌≤◌, ◌<◌, ◌≡◌, ◌≢◌, refl, ap, ◌∙◌, sym, subst, inr, Bool, true, false, none, some, List,
  ◌++◌, Bytes, length, take, take-length-append, length-append, arith,
}
use hislip.Errors.{ok}
use hislip.Protocol.MessageType
use hislip.Protocol.MessageType.{channel_synchronous}
use hislip.Protocol.MessageId.{no_message_id}
use hislip.Protocol.Header.{Header, message_id}
use hislip.Protocol.Header.BigEndian.{put_be, length-put_be, get_be-put_be}
use hislip.Server.Policy.{no_response_expected, response_expected}
use hislip.Server.Transaction.{tx_idle, tx_input_complete, complete}
use hislip.Server.Session.{
  Session, Writer, feed_program_message, program_disposition, operation, release_operation,
  state_clearing,
}
use hislip.Server.Config.{Config}
use hislip.Server.Device.{Device, Chunk}
use hislip.Server.Reader.{Message}
use hislip.Server.State.{State, on_sync}
use hislip.Server.Data.{receive_data}
use hislip.Server.Data.{Response}
use hislip.Server.Data.Receives.{receive_data_lem, receive_data-Keeps, TakesInput}
use hislip.Server.Data.Responds.{IsEnd, IsDelivered, send_response-IsDelivered}
use hislip.Server.Data.Chunks.{Reads}
use hislip.Server.State.Sends.{IsOpen}
use hislip.Server.Reports.{outcome_counted, interrupted_counted}
use hislip.Server.Clear.{discard_during_clear}
use hislip.Server.Serve.{
  handle_data, handle_sync, decode_max_size, put_uint64, response_scratch, respond,
}

-- The maximum message size comes back from its eight bytes, whatever follows them, for every 64-bit
-- number; and the buffer of a response is within the session's limit, unless that is none, and within
-- what was allocated.
pub decode-put_uint64 :
    (v : ℕ) (rest : Bytes) (buf limit : ℕ)
    → v < 2 ^ 64
    → (decode_max_size (put_uint64 v ++ rest) ≡ v)
      × (response_scratch buf limit ≤ buf)
      × (0 < limit → response_scratch buf limit ≤ limit)
unfolding decode_max_size put_uint64 response_scratch
decode-put_uint64 v rest buf limit h = (
  ground (
    arith,
    length-put_be 8 v,
    length-append (put_be 8 v) rest,
    ap (λ n. take n (put_be 8 v ++ rest)) (length-put_be 8 v),
    take-length-append (put_be 8 v) rest,
    get_be-put_be 8 v,
  ),
  ground arith,
  ground arith,
)

-- The response to a message: with its MessageID, in chunks of the session's limit.
abbrev pub response_to : Config → Header → Session → Response
response_to cfg h sess = record {
  message_id = message_id h;
  scratch = response_scratch cfg.max_tx_payload sess.max_tx;
  input_queued = some false;
}

pub scratch_fits :
    (buf limit : ℕ)
    → 0 < buf
    → 0 < limit
    → (0 < response_scratch buf limit) × (response_scratch buf limit ≤ limit)
unfolding response_scratch
scratch_fits buf limit b l = ground arith

module _ {D : Type 0} where
  -- A DataEnd that ends a command, a message that expects no response, on a session that may take input
  -- and whose instrument accepts it: the handler succeeds without any fuel, the transaction is idle
  -- again, so that the next message may come, the instrument has got the payload as the end of a
  -- message, and nothing is sent.
  pub handle_data-command :
      (dev : Device D) (cfg : Config) (msg : Message) (queued : Bool) (s : State D)
      → msg.header.type ≡ MessageType.data_end
      → TakesInput s.sess.tx.state
      → (dev.write s.dev msg.payload true).0 ≡ none
      → (program_disposition (feed_program_message s.sess msg.payload)).0 ≡ no_response_expected
      → let r = handle_data dev cfg msg 0 queued s in
        (r.0 ≡ some (ok tt))
        × (r.1.sess.tx ≡ record { state = tx_idle; id = no_message_id })
        × (r.1.dev ≡ (dev.write s.dev msg.payload true).1)
        × (r.1.conns ≡ s.conns)
  unfolding handle_data complete program_disposition feed_program_message
  handle_data-command dev cfg msg queued s t i w d =
      ground (arith, receive_data_lem dev msg.header msg.payload s (inr t) i)

  -- What SendResponse makes of the state behind a query.
  query-answered :
      (dev : Device D) (cfg : Config) (h : Header) (w a : Writer) (fuel : ℕ) (s : State D)
      (bs : List Bytes) (c : Chunk) (d' : D)
      → let r = response_to cfg h s.sess in
        Reads dev r.scratch s.dev bs c d'
        → length bs < fuel
        → IsEnd c
        → IsOpen on_sync channel_synchronous w s
        → s.sess.async_w ≡ some a
        → s.sess.tx.state ≡ tx_input_complete
        → 0 < cfg.max_tx_payload
        → 0 < s.sess.max_tx
        → (t : State D) × (respond dev cfg h fuel false (operation s.sess) s ≡ (some (ok tt), t))
          × IsDelivered r w.conn bs c.bytes d' s.conns t
          × (t.sess.op_cancel ≡ none)
  unfolding operation release_operation outcome_counted
  query-answered dev cfg h w a fuel s bs c d' reads f i o aw st pos lim =
      let r = response_to cfg h s.sess in
      let fit = scratch_fits cfg.max_tx_payload s.sess.max_tx pos lim in
      let u = record s { sess = (operation s.sess).1 } in
      let (t, run, v, p) =
        send_response-IsDelivered dev r w a fuel u bs c d' reads f i
          (record { installed = o.installed; on_channel = o.on_channel; takes_all = o.takes_all })
          aw st fit.0 fit.1 refl in
      (
        record t { sess = release_operation t.sess s.sess.next_op },
        ground (arith, run),
        record {
          dev = v.dev;
          written = v.written;
          others = v.others;
          tx = v.tx;
          rmt_expected = v.rmt_expected;
          last_tx = v.last_tx;
        },
        refl,
      )

  -- The state in which the response to a query begins.
  abbrev queried : Device D → Message → State D → State D
  queried dev msg s =
      let r = receive_data dev msg.header msg.payload s in
      record (r.1) {
        counters = interrupted_counted r.0.0 r.1.counters;
        sess = (program_disposition (feed_program_message r.1.sess msg.payload)).1;
      }

  queried-begins :
      (dev : Device D) (msg : Message) (w : Writer) (s : State D)
      → msg.header.type ≡ MessageType.data_end
      → TakesInput s.sess.tx.state
      → IsOpen on_sync channel_synchronous w s
      → let t = queried dev msg s in
        IsOpen on_sync channel_synchronous w t
        × (t.sess.tx.state ≡ tx_input_complete)
        × (t.sess.async_w ≡ s.sess.async_w)
        × (t.sess.pending ≡ s.sess.pending)
        × (t.sess.max_tx ≡ s.sess.max_tx)
        × (t.dev ≡ (dev.write s.dev msg.payload true).1)
        × (t.conns ≡ s.conns)
  unfolding program_disposition feed_program_message
  queried-begins dev msg w s d i o = ground (
    arith,
    receive_data_lem dev msg.header msg.payload s (inr d) i,
    receive_data-Keeps dev msg.header msg.payload s (inr d) i,
  )

  queried-runs :
      (dev : Device D) (cfg : Config) (msg : Message) (fuel : ℕ) (s : State D)
      → msg.header.type ≡ MessageType.data_end
      → TakesInput s.sess.tx.state
      → (dev.write s.dev msg.payload true).0 ≡ none
      → (program_disposition (feed_program_message s.sess msg.payload)).0 ≡ response_expected
      → handle_data dev cfg msg fuel false s
        ≡ respond dev cfg msg.header fuel false
            (operation (queried dev msg s).sess)
            (queried dev msg s)
  unfolding handle_data program_disposition feed_program_message
  queried-runs dev cfg msg fuel s t i w d = ground (
    arith,
    receive_data_lem dev msg.header msg.payload s (inr t) i,
    receive_data-Keeps dev msg.header msg.payload s (inr t) i,
  )

  -- A DataEnd that ends a query, a message that expects a response, on a session that may take input,
  -- that has both writers and no queued input, whose synchronous connection takes every write and whose
  -- limits are not zero; with an instrument that accepts the
  -- message and then completes its response, and more fuel than it gives intermediate chunks: the
  -- handler succeeds. The client gets the instrument's response on the synchronous connection, as Data
  -- messages and a DataEnd with the MessageID of the query, and nothing goes out elsewhere; the
  -- transaction is idle, RMT-expected is set, the MessageID is recorded, and no operation is in
  -- flight.
  pub handle_data-query :
      (dev : Device D) (cfg : Config) (msg : Message) (w a : Writer) (fuel : ℕ) (s : State D)
      (bs : List Bytes) (c : Chunk) (d' : D)
      → msg.header.type ≡ MessageType.data_end
      → TakesInput s.sess.tx.state
      → (dev.write s.dev msg.payload true).0 ≡ none
      → (program_disposition (feed_program_message s.sess msg.payload)).0 ≡ response_expected
      → let r = response_to cfg msg.header s.sess in
        Reads dev r.scratch (dev.write s.dev msg.payload true).1 bs c d'
        → length bs < fuel
        → IsEnd c
        → IsOpen on_sync channel_synchronous w s
        → s.sess.async_w ≡ some a
        → 0 < cfg.max_tx_payload
        → 0 < s.sess.max_tx
        → (t : State D) × (handle_data dev cfg msg fuel false s ≡ (some (ok tt), t))
          × IsDelivered r w.conn bs c.bytes d' s.conns t
          × (t.sess.op_cancel ≡ none)
  handle_data-query dev cfg msg w a fuel s bs c d' t i wr d reads f e o aw pos lim =
      let q = queried dev msg s in
      let b = queried-begins dev msg w s t i o in
      let same : response_to cfg msg.header s.sess ≡ response_to cfg msg.header q.sess =
        ap
          (λ n. record {
            message_id = message_id msg.header;
            scratch = response_scratch cfg.max_tx_payload n;
            input_queued = some false;
          })
          (sym b.4) in
      let (t', run, v, op) =
        query-answered dev cfg msg.header w a fuel q bs c d'
          (subst (λ (x : Response). Reads dev x.scratch q.dev bs c d') same
            (subst (λ x. Reads dev (response_scratch cfg.max_tx_payload s.sess.max_tx) x bs c d')
              (sym b.5) reads))
          f e b.0 (b.2 ∙ aw) b.1 pos (ground arith) in
      (
        t',
        queried-runs dev cfg msg fuel s t i wr d ∙ run,
        subst (λ x. IsDelivered x w.conn bs c.bytes d' s.conns t') (sym same)
            (subst (λ x. IsDelivered (response_to cfg msg.header q.sess) w.conn bs c.bytes d' x t')
              b.6 v),
        op,
      )

  -- While a session is clearing, a message that the reader accepted, of any type but DeviceClearComplete,
  -- changes nothing and is not answered.
  pub handle_sync-discards :
      (dev : Device D) (cfg : Config) (msg : Message) (fuel : ℕ) (queued : Bool) (s : State D)
      → msg.error ≡ none
      → s.sess.state ≡ state_clearing
      → msg.header.type ≢ MessageType.device_clear_complete
      → handle_sync dev cfg msg fuel queued s ≡ (some (ok tt), s)
  unfolding handle_sync discard_during_clear
  handle_sync-discards dev cfg msg fuel queued s n c t = ground arith
