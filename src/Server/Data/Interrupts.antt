-- ===== src/Server/Data/Interrupts.antt =====
-- SendResponse where the client has sent its next message before the response is complete.
use hislip.Prelude.{
  ℕ, ◌+◌, ◌≤◌, ◌<◌, ◌≡◌, ◌≢◌, refl, inl, inr, true, false, some, List, [], ◌++◌, Bytes, length,
  ◌==◌, arith,
}
use hislip.Errors.{ok}
use hislip.Protocol.MessageType
use hislip.Protocol.MessageType.{channel_synchronous, channel_asynchronous, legal_on}
use hislip.Protocol.MessageId.{no_message_id}
use hislip.Protocol.Header.{Header, no_header}
use hislip.Protocol.Codec.Framing.{message_bytes}
use hislip.Server.Status.{set_response_pending}
use hislip.Server.Transaction.{
  tx_idle, tx_input_complete, tx_response_pending, tx_sending_response, tx_interrupted,
  expect_response, begin_response, interrupt, complete,
}
use hislip.Server.Session.{Writer}
use hislip.Server.Device.{Device, Chunk}
use hislip.Server.State.{State, on_sync, on_async}
use hislip.Server.State.Sends.{sent, IsOpen, send-sent}
use hislip.Server.Data.{
  response_interrupted, Response, Attempt, after_chunk, send_interrupted, send_chunk, send_end,
  send_response, validate_response, set_pending,
}
use hislip.Server.Data.Responds.{wire, IsEnd}
use hislip.Server.Data.Chunks.{CanSend, Reads, with_tx}
use hislip.Server.Data.Prefix.{total, loop-prefix}

interrupted_legal : legal_on MessageType.interrupted channel_synchronous ≡ true
unfolding legal_on
interrupted_legal = refl

async_legal : legal_on MessageType.async_interrupted channel_asynchronous ≡ true
unfolding legal_on
async_legal = refl

abbrev pub interrupted_header : Response → Header
interrupted_header r = record no_header { type = MessageType.interrupted; parameter = r.message_id }

abbrev pub async_header : Response → Header
async_header r = record no_header { type = MessageType.async_interrupted; parameter = r.message_id }

module _ {D : Type 0} where
  -- The transaction is interrupted and no response is pending.
  abbrev unpended : State D → State D
  unpended s = with_tx tx_interrupted (set_pending false s)

  abbrev interrupted_state : Response → Writer → Writer → State D → State D
  interrupted_state r w a s =
      let t =
        sent on_sync w (interrupted_header r) []
          (sent on_async a (async_header r) [] (unpended s)) in
      record t { sess = record (t.sess) { tx = record { state = tx_idle; id = no_message_id } } }

  send_interrupted-sent :
      (r : Response) (w a : Writer) (s : State D)
      → IsOpen on_sync channel_synchronous w s
      → IsOpen on_async channel_asynchronous a s
      → a.conn ≢ w.conn
      → CanSend s.sess.tx.state
      → send_interrupted r s ≡ (ok tt, interrupted_state r w a s)
  unfolding send_interrupted interrupt set_response_pending complete
  send_interrupted-sent r w a s o p ne c = ground (
    arith,
    send-sent on_async channel_asynchronous a (async_header r) [] (unpended s) (ground arith)
        async_legal (inl refl),
    send-sent on_sync channel_synchronous w (interrupted_header r) []
        (sent on_async a (async_header r) [] (unpended s)) (ground arith) interrupted_legal
        (inl refl),
  )

  chunk-interrupted :
      (r : Response) (w a : Writer) (c : Chunk) (n : ℕ) (s : State D)
      (again : ℕ → State D → Attempt D)
      → IsEnd c
      → r.input_queued ≡ some true
      → IsOpen on_sync channel_synchronous w s
      → IsOpen on_async channel_asynchronous a s
      → a.conn ≢ w.conn
      → CanSend s.sess.tx.state
      → send_chunk r c n s (after_chunk c.error c.end r c.bytes again)
        ≡ (some (response_interrupted, ok tt), interrupted_state r w a s)
  unfolding send_chunk send_end begin_response
  chunk-interrupted r w a c n s again i q o p ne can = ground (
    arith,
    send_interrupted-sent r w a s o p ne can,
    send_interrupted-sent r w a (with_tx tx_sending_response s) (ground arith) (ground arith) ne
        (inr refl),
  )

  -- On a session with both writers, on different connections that take every write, whose input is
  -- complete, and with a buffer that is not empty and within the session's limit: SendResponse with
  -- more fuel than there are intermediate chunks, where input is queued when the instrument completes
  -- its response. The chunks read before the last one have gone out as Data messages, the last is
  -- dropped, and no DataEnd is sent. An AsyncInterrupted goes out on the asynchronous connection and
  -- an Interrupted on the synchronous one, both with the MessageID of the response. The transaction is
  -- idle, no response is pending, and RMT-expected is as it was.
  pub send_response-interrupted :
      (dev : Device D) (r : Response) (w a : Writer) (fuel : ℕ) (s : State D) (bs : List Bytes)
      (c : Chunk) (d' : D)
      → Reads dev r.scratch s.dev bs c d'
      → length bs < fuel
      → IsEnd c
      → r.input_queued ≡ some true
      → IsOpen on_sync channel_synchronous w s
      → IsOpen on_async channel_asynchronous a s
      → a.conn ≢ w.conn
      → s.sess.tx.state ≡ tx_input_complete
      → 0 < r.scratch
      → r.scratch ≤ s.sess.max_tx
      → (t : State D) × (send_response dev r fuel s ≡ (some (response_interrupted, ok tt), t))
        × ((t.conns w.conn).written
            ≡ ((s.conns w.conn).written ++ wire r.message_id bs)
              ++ message_bytes (interrupted_header r) [])
        × ((t.conns a.conn).written ≡ (s.conns a.conn).written ++ message_bytes (async_header r) [])
        × (t.sess.tx ≡ record { state = tx_idle; id = no_message_id })
        × (t.sess.status.response_pending ≡ false)
        × (t.sess.rmt ≡ s.sess.rmt)
  unfolding send_response validate_response expect_response set_response_pending
  send_response-interrupted dev r w a fuel s bs c d' reads h i q o p ne st pos fits =
      let x = set_pending true (with_tx tx_response_pending s) in
      let (u, w', again, run, v) =
        loop-prefix dev r w fuel 0 w.conn x s.dev bs c d' refl refl reads h (ground arith)
          (inl refl) in
      let u' = record u { dev = d' } in
      let apart : (w.conn == a.conn) ≡ false = ground arith in
      let same : u.conns a.conn ≡ s.conns a.conn = v.others a.conn apart in
      let last =
        chunk-interrupted r w' a c (0 + total bs) u' again i q (ground (arith, v.is_open))
          (record {
            installed = ground (arith, v.async_w);
            on_channel = p.on_channel;
            takes_all = ground (arith, same);
          })
          (ground (arith, v.conn)) v.can_send in
      (
        set_pending false (interrupted_state r w' a u'),
        ground (arith, run, last),
        ground (arith, v.conn, v.written, same),
        ground (arith, v.conn, v.written, same),
        refl,
        refl,
        v.rmt,
      )
