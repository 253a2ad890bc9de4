-- ===== src/Internal/TestDevice/Queries.antt =====
-- A query to the test instrument, through the server's synchronous handler.
use hislip.Prelude.{
  ℕ, suc, ◌<◌, ◌≡◌, refl, ap, ◌∙◌, true, false, none, some, List, ◌++◌, concat, Bytes, length,
  get_elem?, All, arith,
}
use hislip.Errors.{ok}
use hislip.Protocol.MessageType
use hislip.Protocol.MessageType.{channel_synchronous}
use hislip.Server.Policy.{response_expected}
use hislip.Server.Session.{Writer, state_ready, feed_program_message, program_disposition}
use hislip.Server.Config.{Config}
use hislip.Server.Reader.{Message}
use hislip.Server.Dispatch.Accepts.{IsAccepted}
use hislip.Server.State.{State, on_sync}
use hislip.Server.State.Sends.{IsOpen}
use hislip.Server.Data.Receives.{TakesInput}
use hislip.Server.Data.Responds.{IsDelivered}
use hislip.Server.Serve.{handle_sync}
use hislip.Server.Serve.Messages.{response_to, scratch_fits}
use hislip.Server.Serve.Queries.{handle_sync-query}
use hislip.Internal.TestDevice.{TestDevice, op_write, op_read, test_device}
use hislip.Internal.TestDevice.Answers.{response-IsWhole}

-- The instrument has taken a program message, and may be read.
record HasTaken (d d' : TestDevice) (p : Bytes) : Type 0 where
  written : d'.written ≡ d.written ++ p
  responses : d'.responses ≡ d.responses
  errors : d'.errors ≡ d.errors
  resp_idx : d'.resp_idx ≡ d.resp_idx
  in_flight : d'.in_flight ≡ d.in_flight

write-HasTaken :
    (d : TestDevice) (p : Bytes)
    → d.errors op_write ≡ none
    → ((test_device.write d p true).0 ≡ none) × HasTaken d (test_device.write d p true).1 p
unfolding test_device
write-HasTaken d p e = ground arith

-- A query that was read and accepted, on a ready session with both writers that may take input and has
-- no input queued, whose synchronous connection takes every write and whose limits are not zero; with
-- the test instrument behind the server, which has a response prepared, none under way, and no error
-- for writes and reads; and more fuel than the response has bytes: the handler succeeds, and the client
-- gets Data messages and a DataEnd whose payloads, put together, are the prepared response. All
-- payloads but the last have the size of the response buffer. The instrument has got the query, and
-- its next response is the one behind.
pub query_answered :
    (cfg : Config) (msg : Message) (w a : Writer) (fuel : ℕ) (s : State TestDevice)
    (response : Bytes)
    → msg.error ≡ none
    → s.sess.state ≡ state_ready
    → IsAccepted s.sess msg.header channel_synchronous
    → msg.header.type ≡ MessageType.data_end
    → TakesInput s.sess.tx.state
    → (program_disposition (feed_program_message s.sess msg.payload)).0 ≡ response_expected
    → IsOpen on_sync channel_synchronous w s
    → s.sess.async_w ≡ some a
    → 0 < cfg.max_tx_payload
    → 0 < s.sess.max_tx
    → s.dev.errors op_write ≡ none
    → s.dev.errors op_read ≡ none
    → s.dev.in_flight ≡ false
    → get_elem? s.dev.responses s.dev.resp_idx ≡ some response
    → length response < fuel
    → let r = response_to cfg msg.header s.sess in
      (t : State TestDevice) × (bs : List Bytes) × (final : Bytes) × (handle_sync test_device cfg
          msg fuel false s
        ≡ (some (ok tt), t))
      × IsDelivered r w.conn bs final t.dev s.conns t
      × (concat bs ++ final ≡ response)
      × All (λ b. length b ≡ r.scratch) bs
      × (t.dev.written ≡ s.dev.written ++ msg.payload)
      × (t.dev.resp_idx ≡ suc s.dev.resp_idx)
      × (t.dev.in_flight ≡ false)
query_answered cfg msg w a fuel s response n r acc t i q o aw pos lim ew er f g fl =
    let (wrote, taken) = write-HasTaken s.dev msg.payload ew in
    let d = (test_device.write s.dev msg.payload true).1 in
    let fit = scratch_fits cfg.max_tx_payload s.sess.max_tx pos lim in
    let (bs, c, d', v) =
      response-IsWhole (response_to cfg msg.header s.sess).scratch d response fit.0
        (rw (taken.errors) er) (taken.in_flight ∙ f) (rw (taken.responses, taken.resp_idx) g) in
    let (u, run, del, op) =
      handle_sync-query test_device cfg msg w a fuel s bs c d' n r acc t i wrote q v.reads
        (let few = v.few in omega arith) v.is_end o aw pos lim in
    let ans = v.answered in
    (
      u,
      bs,
      c.bytes,
      run,
      record {
        dev = refl;
        written = del.written;
        others = del.others;
        tx = del.tx;
        rmt_expected = del.rmt_expected;
        last_tx = del.last_tx;
      },
      v.whole,
      v.full,
      ap (λ (e : TestDevice). e.written) del.dev ∙ ans.written ∙ taken.written,
      ap (λ (e : TestDevice). e.resp_idx) del.dev ∙ ans.resp_idx ∙ ap suc taken.resp_idx,
      ap (λ (e : TestDevice). e.in_flight) del.dev ∙ ans.idle,
    )
