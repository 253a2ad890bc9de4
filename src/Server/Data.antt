-- ===== src/Server/Data.antt =====
-- server/data.go: program messages in, responses out.
pub mod Keeps
pub mod Receives
pub mod Chunks
pub mod Responds
pub mod Prefix
pub mod FailedReads
pub mod Failures
pub mod Interrupts
use hislip.Prelude.{
  ℕ, zero, suc, ◌+◌, Bool, true, false, not, ◌&&◌, ◌||◌, Option, none, some, List, [], ◌∷◌, Bytes,
  length, ltb, ◌==◌, if◌then◌else◌,
}
use hislip.Prelude.Text.{codes}
use hislip.Errors.{
  Error, Result, ok, err, err_unknown_message_type, err_invalid_config, err_short_buffer,
  err_message_too_large, err_input_queued_required,
}
use hislip.Protocol.MessageType
use hislip.Protocol.Header.{Header, no_header, message_id, rmt_delivered}
use hislip.Server.Rmt.{Interrupted, not_interrupted, rmt_received, sent_data_end}
use hislip.Server.Status.{status_received, set_response_pending}
use hislip.Server.Transaction
use hislip.Server.Transaction.{
  Transaction, begin_input, complete_input, expect_response, begin_response, complete, interrupt,
}
use hislip.Server.Session.{Session, Writer, require_ready, set_last_tx_message_id}
use hislip.Server.Device.{Device, Chunk}
use hislip.Server.WireError.{code_response_timeout}
use hislip.Server.State.{
  State, M, and_then, ◌>>=◌, ◌>>◌, pure, fail, change, lift, Side, on_sync, on_async, send,
  send_error,
}

pub data ResponseOutcome : Type 0 where
  response_complete response_truncated response_absent response_interrupted : ResponseOutcome

module _ {D : Type 0} where
  abbrev set_tx : Result Transaction → State D → Result (Unit {0}) × State D
  set_tx (err e) s = (err e, s)
  set_tx (ok t) s = (ok tt, record s { sess = record (s.sess) { tx = t } })

  -- A move of the session's transaction; one that is refused changes nothing.
  abbrev pub step_tx : (Transaction → Result Transaction) → M D (Unit {0})
  step_tx f s = set_tx (f s.sess.tx) s

  abbrev pub dev_result : Option Error × D → State D → Result (Unit {0}) × State D
  dev_result (none, d) s = (ok tt, record s { dev = d })
  dev_result (some e, d) s = (err e, record s { dev = d })

  -- What happens on the arrival of a Data, DataEnd or Trigger, before anything can fail.
  unfoldable pub arrive : Header → State D → Interrupted × State D
  unfolding rmt_received rmt_delivered status_received message_id
  arrive h s =
      let (i, rmt) = rmt_received s.sess.rmt (rmt_delivered h) in
      (
        i,
        record s {
          sess = record (s.sess) {
            rmt = rmt;
            status = status_received s.sess.status (message_id h);
          };
        },
      )

  -- The value that ReceiveData and Trigger return beside the error.
  abbrev pub beside : {A B : Type 0} → A → Result B × State D → (A × Result B) × State D
  beside a (r, s) = ((a, r), s)

  input_step : Header → M D (Unit {0})
  unfolding begin_input complete_input message_id
  input_step h =
      if h.type == MessageType.data_end
      then step_tx (λ t. complete_input t (message_id h))
      else step_tx begin_input

  unfoldable pub receive_data :
      Device D → Header → Bytes → State D → (Interrupted × Result (Unit {0})) × State D
  unfolding arrive input_step
  receive_data dev h payload s =
      let end = h.type == MessageType.data_end in
      if not (h.type == MessageType.data_message) && not end
      then ((not_interrupted, err err_unknown_message_type), s)
      else let (i, s') = arrive h s in
        beside i ((input_step h >> (λ t. dev_result (dev.write t.dev payload end) t)) s')

  -- Server.Trigger. A trigger is a whole program message of its own.
  unfoldable pub trigger_device :
      Device D → Header → State D → (Interrupted × Result (Unit {0})) × State D
  unfolding arrive require_ready complete_input complete message_id
  trigger_device dev h s =
      if not (h.type == MessageType.trigger)
      then ((not_interrupted, err err_unknown_message_type), s)
      else elim (require_ready s.sess) [
        | err e ↦ ((not_interrupted, err e), s)
        | ok _ ↦
            let (i, s') = arrive h s in
            beside i (
              (step_tx (λ t. complete_input t (message_id h))
                  >> (λ t. dev_result (dev.trigger t.dev) t)
                  >> step_tx complete)
                s')
      ]

-- Response: the two writers are the session's, `scratch` is the length of the buffer, and
-- `input_queued` is what the predicate answers when it is asked, none for a nil predicate.
pub record Response : Type 0 where
  pub message_id : ℕ
  pub scratch : ℕ
  pub input_queued : Option Bool

abbrev no_writer : Option Writer → Bool
no_writer none = true
no_writer (some w) = false

abbrev is_nil : Option Bool → Bool
is_nil none = true
is_nil (some b) = false

-- Response.validate.
unfoldable pub validate_response : Response → Session → Result (Unit {0})
validate_response r sess =
    if no_writer sess.sync_w || no_writer sess.async_w
    then err err_invalid_config
    else if r.scratch == 0
    then err err_short_buffer
    else if ltb sess.max_tx r.scratch
    then err err_message_too_large
    else if is_nil r.input_queued
    then err err_input_queued_required
    else ok tt

-- How an attempt ended; `none` is a loop whose fuel ran out.
abbrev pub Attempt : Type 0 → Type 0
Attempt D = Option (ResponseOutcome × Result (Unit {0})) × State D

abbrev is_failed : Option Error → Bool
is_failed none = false
is_failed (some e) = true

-- A Data or DataEnd of a response.
abbrev pub response_header : ℕ → ℕ → Bytes → Header
response_header type id payload = record {
  type = type;
  control = 0;
  parameter = id;
  length = length payload;
}

module _ {D : Type 0} where
  -- The DataEnd; only behind it are RMT-expected and the last MessageID set.
  unfoldable pub terminate : Response → Bytes → M D (Unit {0})
  unfolding send sent_data_end complete
  terminate r final =
      send on_sync (response_header MessageType.data_end r.message_id final) final
      >> change (λ x. set_last_tx_message_id (record x { rmt = sent_data_end x.rmt }) r.message_id)
      >> step_tx complete

  unfoldable pub complete_absent_response : Response → M D (Unit {0})
  unfolding send_error begin_response terminate
  complete_absent_response r =
      send_error on_sync code_response_timeout (codes "no response from instrument")
      >> step_tx begin_response
      >> terminate r []

  -- Both messages of the Interrupted transaction carry the MessageID of the response.
  unfoldable pub send_interrupted : Response → M D (Unit {0})
  unfolding interrupt set_response_pending send complete
  send_interrupted r =
      step_tx interrupt
      >> change (λ x. record x { status = set_response_pending x.status false })
      >> send on_async
          (record no_header { type = MessageType.async_interrupted; parameter = r.message_id }) []
      >> send on_sync
          (record no_header { type = MessageType.interrupted; parameter = r.message_id }) []
      >> step_tx complete

  -- `if err := ...; err != nil { return outcome, err }`
  abbrev pub attempt :
      Result (Unit {0}) × State D → ResponseOutcome → (State D → Attempt D) → Attempt D
  attempt (err e, s) outcome go = (some (outcome, err e), s)
  attempt (ok _, s) outcome go = go s

  abbrev finish : ResponseOutcome → State D → Attempt D
  finish outcome s = (some (outcome, ok tt), s)

  -- `if n > 0 { ... }`: an intermediate chunk goes out as Data. `go` has the bytes delivered so far.
  pub send_chunk : Response → Chunk → ℕ → State D → (ℕ → State D → Attempt D) → Attempt D
  unfolding begin_response send
  send_chunk r chunk delivered s go =
      if length chunk.bytes == 0
      then go delivered s
      else attempt (step_tx begin_response s) response_absent (λ t.
        if not chunk.end || is_failed chunk.error
        then attempt
            (send on_sync (response_header MessageType.data_message r.message_id chunk.bytes)
              chunk.bytes t)
            response_truncated (λ u. go (delivered + length chunk.bytes) u)
        else go delivered t)

  -- The backend failed: without a byte delivered the response is absent, else it is truncated.
  pub send_failed : Response → ℕ → State D → Attempt D
  unfolding complete_absent_response terminate send_error
  send_failed r delivered s =
      if delivered == 0
      then attempt (complete_absent_response r s) response_absent (finish response_absent)
      else attempt (send_error on_sync code_response_timeout (codes "response truncated") s)
          response_truncated
          (λ t. attempt (terminate r [] t) response_truncated (finish response_truncated))

  -- The backend offers the end of the response.
  pub send_end : Response → Bytes → State D → Attempt D
  unfolding send_interrupted begin_response terminate
  send_end r bytes s = elim r.input_queued [
    | some true ↦ attempt (send_interrupted r s) response_interrupted (finish response_interrupted)
    | _ ↦
        attempt (step_tx begin_response s) response_absent
          (λ t. attempt (terminate r bytes t) response_complete (finish response_complete))
  ]

  abbrev after_chunk :
      Option Error → Bool → Response → Bytes → (ℕ → State D → Attempt D) → ℕ → State D → Attempt D
  after_chunk (some e) end r bytes again delivered s = send_failed r delivered s
  after_chunk none false r bytes again delivered s = again delivered s
  after_chunk none true r bytes again delivered s = send_end r bytes s

  -- The loop of SendResponse on fuel, one unit for each read of the instrument.
  unfoldable pub send_loop : Device D → Response → ℕ → ℕ → State D → Attempt D
  unfolding send_chunk send_failed send_end
  send_loop dev r zero delivered s = (none, s)
  send_loop dev r (suc fuel) delivered s =
      let (chunk, d) = dev.read s.dev r.scratch in
      send_chunk r chunk delivered (record s { dev = d })
        (after_chunk chunk.error chunk.end r chunk.bytes (λ n t. send_loop dev r fuel n t))

  -- `defer sess.Status().SetResponsePending(false)`
  abbrev pub set_pending : Bool → State D → State D
  set_pending b s = record s {
    sess = record (s.sess) { status = set_response_pending s.sess.status b };
  }

  abbrev deferred : Attempt D → Attempt D
  deferred (a, s) = (a, set_pending false s)

  unfoldable pub send_response : Device D → Response → ℕ → State D → Attempt D
  unfolding validate_response expect_response set_response_pending send_loop
  send_response dev r fuel s = attempt (lift (validate_response r s.sess) s) response_absent (λ t.
      attempt (step_tx expect_response t) response_absent
        (λ u. deferred (send_loop dev r fuel 0 (set_pending true u))))
