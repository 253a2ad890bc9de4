-- ===== src/Server/Serve/Queries.antt =====
-- A query and a command through the whole synchronous handler.
use hislip.Prelude.{ℕ, ◌<◌, ◌≡◌, ◌∙◌, Bool, true, false, none, some, List, Bytes, length, arith}
use hislip.Errors.{Result, ok, err}
use hislip.Protocol.MessageType
use hislip.Protocol.MessageType.{channel_synchronous}
use hislip.Server.Policy.{no_response_expected, response_expected}
use hislip.Server.Session.{Writer, state_ready, feed_program_message, program_disposition}
use hislip.Server.Config.{Config}
use hislip.Server.Device.{Device, Chunk}
use hislip.Server.Reader.{Message}
use hislip.Server.Transaction.{tx_idle}
use hislip.Protocol.MessageId.{no_message_id}
use hislip.Server.Dispatch.{Class, accept}
use hislip.Server.Dispatch.Accepts.{IsAccepted, accept_iff}
use hislip.Server.State.{State, on_sync}
use hislip.Server.State.Sends.{IsOpen}
use hislip.Server.Data.Chunks.{Reads}
use hislip.Server.Data.Receives.{TakesInput}
use hislip.Server.Data.Responds.{IsEnd, IsDelivered}
use hislip.Server.Clear.{discard_during_clear}
use hislip.Server.Serve.{handle_data, handle_sync, switch_sync}
use hislip.Server.Serve.Messages.{response_to, handle_data-command, handle_data-query}

module _ {D : Type 0} where
  switched :
      (dev : Device D) (cfg : Config) (msg : Message) (fuel : ℕ) (queued : Bool)
      (a : Class × Result (Unit {0})) (s : State D)
      → a.1 ≡ ok tt
      → msg.header.type ≡ MessageType.data_end
      → switch_sync dev cfg msg fuel queued a s ≡ handle_data dev cfg msg fuel queued s
  switched dev cfg msg fuel queued (class, ok _) s e t = ground arith
  switched dev cfg msg fuel queued (class, err x) s e t = ground arith

  -- On a ready session a DataEnd that is read and accepted goes to the data handler.
  handle_sync-data :
      (dev : Device D) (cfg : Config) (msg : Message) (fuel : ℕ) (queued : Bool) (s : State D)
      → msg.error ≡ none
      → s.sess.state ≡ state_ready
      → IsAccepted s.sess msg.header channel_synchronous
      → msg.header.type ≡ MessageType.data_end
      → handle_sync dev cfg msg fuel queued s ≡ handle_data dev cfg msg fuel queued s
  unfolding handle_sync discard_during_clear
  handle_sync-data dev cfg msg fuel queued s n r a t =
      let accepted = (accept_iff cfg s.sess msg.header channel_synchronous).1 a in
      ground (
        arith,
        switched dev cfg msg fuel queued (accept cfg (some s.sess) msg.header channel_synchronous) s
            accepted t,
      )

  -- A DataEnd that was read and that the session accepts, and that ends a query, a message that expects
  -- a response, on a ready session that may take input, that has both writers and no queued
  -- input, whose synchronous connection takes every write and whose limits are not zero; with an instrument that accepts the message and then completes its response, and more
  -- fuel than it gives intermediate chunks: the synchronous handler succeeds. The client gets the
  -- instrument's response on the synchronous connection, as Data messages and a DataEnd with the
  -- MessageID of the query, and nothing goes out elsewhere; the transaction is idle, RMT-expected is
  -- set, the MessageID is recorded, and no operation is in flight.
  pub handle_sync-query :
      (dev : Device D) (cfg : Config) (msg : Message) (w a : Writer) (fuel : ℕ) (s : State D)
      (bs : List Bytes) (c : Chunk) (d' : D)
      → msg.error ≡ none
      → s.sess.state ≡ state_ready
      → IsAccepted s.sess msg.header channel_synchronous
      → msg.header.type ≡ MessageType.data_end
      → TakesInput s.sess.tx.state
      → (dev.write s.dev msg.payload true).0 ≡ none
      → (program_disposition (feed_program_message s.sess msg.payload)).0 ≡ response_expected
      → let r = response_to cfg msg.header s.sess in
        Reads dev r.scratch (dev.write s.dev msg.payload true).1 bs c d'
        → length bs < fuel
        → IsEnd c
        → IsOpen on_sync channel_synchronous w s
        → s.sess.async_w ≡ some a
        → 0 < cfg.max_tx_payload
        → 0 < s.sess.max_tx
        → (t : State D) × (handle_sync dev cfg msg fuel false s ≡ (some (ok tt), t))
          × IsDelivered r w.conn bs c.bytes d' s.conns t
          × (t.sess.op_cancel ≡ none)
  handle_sync-query dev cfg msg w a fuel s bs c d' n r acc t i wr d reads f e o aw pos lim =
      let (t', run, v, op) =
        handle_data-query dev cfg msg w a fuel s bs c d' t i wr d reads f e o aw pos lim in
      (t', handle_sync-data dev cfg msg fuel false s n r acc t ∙ run, v, op)

  -- A DataEnd that was read and that the session accepts, and that ends a command, a message that
  -- expects no response, on a ready session that may take input and whose instrument accepts the
  -- message: the synchronous handler succeeds without any fuel, the transaction is idle again, so that
  -- the next message may come, the instrument has got the payload as the end of a message, and nothing
  -- is sent.
  pub handle_sync-command :
      (dev : Device D) (cfg : Config) (msg : Message) (queued : Bool) (s : State D)
      → msg.error ≡ none
      → s.sess.state ≡ state_ready
      → IsAccepted s.sess msg.header channel_synchronous
      → msg.header.type ≡ MessageType.data_end
      → TakesInput s.sess.tx.state
      → (dev.write s.dev msg.payload true).0 ≡ none
      → (program_disposition (feed_program_message s.sess msg.payload)).0 ≡ no_response_expected
      → let r = handle_sync dev cfg msg 0 queued s in
        (r.0 ≡ some (ok tt))
        × (r.1.sess.tx ≡ record { state = tx_idle; id = no_message_id })
        × (r.1.dev ≡ (dev.write s.dev msg.payload true).1)
        × (r.1.conns ≡ s.conns)
  handle_sync-command dev cfg msg queued s n r acc t i wr d =
      rw (handle_sync-data dev cfg msg 0 queued s n r acc t)
        (handle_data-command dev cfg msg queued s t i wr d)
