-- ===== src/Server/Data/Chunks.antt =====
-- The steps of SendResponse, on a connection that takes every write.
use hislip.Prelude.{
  ℕ, suc, ◌+◌, ◌≡◌, refl, ap, ◌⊎◌, inr, true, false, none, some, List, [], ◌∷◌, Bytes, length, ◌==◌,
  if◌then◌else◌, arith,
}
use hislip.Errors.{ok}
use hislip.Protocol.MessageType
use hislip.Protocol.MessageType.{channel_synchronous, channel_asynchronous, legal_on}
use hislip.Protocol.MessageId.{no_message_id}
use hislip.Server.Transaction.{
  TxState, tx_idle, tx_response_pending, tx_sending_response, begin_response, complete,
}
use hislip.Server.Session.{Writer}
use hislip.Server.Device.{Device, Chunk}
use hislip.Server.State.{State, on_sync}
use hislip.Server.State.Sends.{sent, IsOpen, send-sent}
use hislip.Server.Data.{
  response_complete, Response, Attempt, response_header, after_chunk, terminate, send_chunk,
  send_end, send_loop,
}

-- A response may be sent: it is due or under way.
abbrev pub CanSend : TxState → Type 0
CanSend t = (t ≡ tx_response_pending) ⊎ (t ≡ tx_sending_response)

pub data_legal : legal_on MessageType.data_message channel_synchronous ≡ true
unfolding legal_on
data_legal = refl

pub end_legal : legal_on MessageType.data_end channel_synchronous ≡ true
unfolding legal_on
end_legal = refl

module _ {D : Type 0} where
  abbrev pub with_tx : TxState → State D → State D
  with_tx t s = record s { sess = record (s.sess) { tx = record (s.sess.tx) { state = t } } }

  -- The state behind a terminated response.
  abbrev pub ended : Response → Writer → Bytes → State D → State D
  ended r w bytes s =
      let t = sent on_sync w (response_header MessageType.data_end r.message_id bytes) bytes s in
      record t {
        sess = record (t.sess) {
          rmt = record { expected = true };
          last_tx = r.message_id;
          tx = record { state = tx_idle; id = no_message_id };
        };
      }

  pub terminate-ended :
      (r : Response) (w : Writer) (bytes : Bytes) (s : State D)
      → IsOpen on_sync channel_synchronous w s
      → CanSend s.sess.tx.state
      → terminate r bytes s ≡ (ok tt, ended r w bytes s)
  unfolding terminate complete
  terminate-ended r w bytes s o c = ground (
    arith,
    send-sent on_sync channel_synchronous w
        (response_header MessageType.data_end r.message_id bytes) bytes s o end_legal (inr refl),
  )

  pub send_end-ended :
      (r : Response) (w : Writer) (bytes : Bytes) (s : State D)
      → IsOpen on_sync channel_synchronous w s
      → CanSend s.sess.tx.state
      → r.input_queued ≡ some false
      → send_end r bytes s ≡ (some (response_complete, ok tt), ended r w bytes s)
  unfolding send_end begin_response
  send_end-ended r w bytes s o c q =
      ground
        (arith, terminate-ended r w bytes (with_tx tx_sending_response s) (ground arith) (inr refl))

  -- The state behind an intermediate chunk.
  abbrev pub chunked : Response → Writer → Bytes → State D → State D
  chunked r w b s =
      if length b == 0
      then s
      else sent on_sync w (response_header MessageType.data_message r.message_id b) b
          (with_tx tx_sending_response s)

  pub send_chunk-chunked :
      (r : Response) (w : Writer) (b : Bytes) (delivered : ℕ) (s : State D)
      (go : ℕ → State D → Attempt D)
      → IsOpen on_sync channel_synchronous w s
      → CanSend s.sess.tx.state
      → send_chunk r (record { bytes = b; end = false; error = none }) delivered s go
        ≡ go (delivered + length b) (chunked r w b s)
  unfolding send_chunk begin_response
  send_chunk-chunked r w b delivered s go o c = ground (
    arith,
    send-sent on_sync channel_synchronous w
        (response_header MessageType.data_message r.message_id b) b (with_tx tx_sending_response s)
        (ground arith) data_legal (inr refl),
  )

  -- From state `d` the instrument gives the chunks `bs`, each with no end and no error, then `c`, and is
  -- left in state `d'`.
  abbrev pub Reads : Device D → ℕ → D → List Bytes → Chunk → D → Type 0
  Reads dev n d [] c d' = dev.read d n ≡ (c, d')
  Reads dev n d (b ∷ bs) c d' =
      (e : D) × (dev.read d n ≡ (record { bytes = b; end = false; error = none }, e))
      × Reads dev n e bs c d'

  pub loop-step :
      (dev : Device D) (r : Response) (fuel delivered : ℕ) (s : State D) (c : Chunk) (d' : D)
      → dev.read s.dev r.scratch ≡ (c, d')
      → send_loop dev r (suc fuel) delivered s
        ≡ send_chunk r c delivered
            (record s { dev = d' })
            (after_chunk c.error c.end r c.bytes (λ n t. send_loop dev r fuel n t))
  unfolding send_loop
  loop-step dev r fuel delivered s c d' e =
      ap
        (λ (x : Chunk × D).
          send_chunk r x.0 delivered (record s { dev = x.1 })
            (after_chunk (x.0).error (x.0).end r (x.0).bytes (λ n t. send_loop dev r fuel n t)))
        e
