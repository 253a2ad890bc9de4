-- ===== src/Server/Serve.antt =====
-- server/serve.go: what a session does with a message, on either channel. A handler is modelled by
-- itself, as one run in which the handler of the other channel changes nothing. The source has a task
-- for each channel and no mutex over a handler, so that two of them may run at the same time.
pub mod AsyncKeeps
pub mod SyncKeeps
pub mod Messages
pub mod Queries
pub mod Sending
pub mod Answers
use hislip.Prelude.{
  ℕ, zero, suc, ◌+◌, ◌*◌, ◌%◌, ◌^◌, Bool, true, false, not, ◌&&◌, ◌||◌, Option, none, some, List,
  Bytes, [], ◌∷◌, length, take, leb, ltb, ◌==◌, if◌then◌else◌,
}
use hislip.Prelude.Text.{codes}
use hislip.Errors.{
  Error, Result, ok, err, err_client_fatal, err_invalid_init_sequence, err_session_not_ready,
}
use hislip.Protocol.ErrorCode.{
  fatal_invalid_init_sequence, non_fatal_unrecognized_message_type,
  non_fatal_unrecognized_vendor_msg,
}
use hislip.Protocol.MessageType
use hislip.Protocol.MessageType.{channel_synchronous, channel_asynchronous, vendor_specific}
use hislip.Protocol.Header.{Header, no_header, message_id}
use hislip.Protocol.Header.BigEndian.{put_be, get_be}
use hislip.Server.Rmt.{Interrupted}
use hislip.Server.Policy.{Disposition, response_expected}
use hislip.Server.Transaction.{complete}
use hislip.Server.Locks.Waiting.{Round}
use hislip.Server.Session.{
  Session, Writer, operation, release_operation, feed_program_message, program_disposition,
}
use hislip.Server.Config.{Config}
use hislip.Server.Device.{Device}
use hislip.Server.Reader.{Message}
use hislip.Server.Dispatch.{Class, accept, is_sync_ordered}
use hislip.Server.State.{
  Counters, State, M, and_then, ◌>>=◌, ◌>>◌, pure, fail, count, change, Side, on_sync, on_async,
  send, send_error, send_fatal_error,
}
use hislip.Server.Data.{
  ResponseOutcome, Response, receive_data, trigger_device, send_response, step_tx,
}
use hislip.Server.Clear.{begin_device_clear, complete_device_clear, discard_during_clear}
use hislip.Server.Async.{status_query, lock, lock_info, remote_local, maximum_message_size}
use hislip.Server.Reports.{
  interrupted_counted, outcome_counted, one_fatal, one_non_fatal, ignored, report_read_error,
  report_accept_error, report_operation_error,
}

-- The length of the buffer: the session's limit, within what was allocated.
unfoldable pub response_scratch : ℕ → ℕ → ℕ
response_scratch buf limit = if limit == 0 || leb buf limit then buf else limit

unfoldable pub decode_max_size : Bytes → ℕ
unfolding get_be
decode_max_size payload = if ltb (length payload) 8 then 0 else get_be (take 8 payload)

unfoldable pub put_uint64 : ℕ → Bytes
unfolding put_be
put_uint64 v = put_be 8 v

-- How a handler ended: `none` where it has not, its fuel or its rounds being used up.
abbrev pub Handled : Type 0 → Type 0
Handled D = Option (Result (Unit {0})) × State D

abbrev is_response_expected : Disposition → Bool
is_response_expected response_expected = true
is_response_expected _ = false

-- What the predicate of `sess.syncPending()` answers: no input is queued for a session without a
-- synchronous reader.
abbrev input_queued : Session → Bool → Option Bool
input_queued sess queued = some (if sess.pending then queued else false)

module _ {D : Type 0} where
  abbrev done : Result (Unit {0}) × State D → Handled D
  done (r, s) = (some r, s)

  -- `if err != nil { return s.reportOperationError(...) }`
  abbrev pub or_report :
      {A : Type 0} → Side → Result A × State D → (A → M D (Unit {0})) → Result (Unit {0}) × State D
  or_report side (err e, s) go = report_operation_error side e s
  or_report side (ok a, s) go = go a s

  abbrev counted : {A : Type 0} → (Interrupted × Result A) × State D → Result A × State D
  counted ((i, r), s) = (r, record s { counters = interrupted_counted i s.counters })

  -- The deferred release of the operation's context.
  abbrev released : ℕ → Handled D → Handled D
  released op (r, s) = (r, record s { sess = release_operation s.sess op })

  abbrev answered : Option (ResponseOutcome × Result (Unit {0})) × State D → Handled D
  answered (none, s) = (none, s)
  answered (some (outcome, r), s) = done (
      or_report on_sync (r, record s { counters = outcome_counted outcome s.counters })
        (λ _. pure tt))

  abbrev respond : Device D → Config → Header → ℕ → Bool → ℕ × Session → State D → Handled D
  respond dev cfg h fuel queued (op, sess) s = released op (
      answered (
        send_response dev
          (record {
            message_id = message_id h;
            scratch = response_scratch cfg.max_tx_payload sess.max_tx;
            input_queued = input_queued sess queued;
          })
          fuel (record s { sess = sess })))

  -- Behind a DataEnd.
  abbrev decide :
      Device D → Config → Header → ℕ → Bool → Disposition × Session → State D → Handled D
  decide dev cfg h fuel queued (disposition, sess) s =
      if is_response_expected disposition
      then respond dev cfg h fuel queued (operation sess) s
      else done (step_tx complete (record s { sess = sess }))

  abbrev after_receive :
      Device D → Config → Message → ℕ → Bool → Result (Unit {0}) × State D → Handled D
  after_receive dev cfg msg fuel queued (err e, s) = done (report_operation_error on_sync e s)
  after_receive dev cfg msg fuel queued (ok _, s) =
      let fed = feed_program_message s.sess msg.payload in
      if not (msg.header.type == MessageType.data_end)
      then (some (ok tt), record s { sess = fed })
      else decide dev cfg msg.header fuel queued (program_disposition fed) s

  -- handleData. `queued` is what the session's reader answers when it is asked for input, and `fuel` bounds the reads of
  -- the response.
  unfoldable pub handle_data : Device D → Config → Message → ℕ → Bool → State D → Handled D
  unfolding receive_data interrupted_counted report_operation_error feed_program_message
      program_disposition operation send_response outcome_counted release_operation complete
      message_id response_scratch
  handle_data dev cfg msg fuel queued s =
      after_receive dev cfg msg fuel queued (counted (receive_data dev msg.header msg.payload s))

  abbrev handle_trigger : Device D → Header → M D (Unit {0})
  handle_trigger dev h s =
      or_report on_sync (counted (trigger_device dev h s))
        (λ _. count (λ c. record c { triggers = c.triggers + 1 }))

  -- The acknowledgement goes out before the instrument's error is reported.
  abbrev acknowledge : (Header × Result (Unit {0})) × State D → Result (Unit {0}) × State D
  acknowledge ((ack, r), s) =
      (send on_sync ack []
          >> count (λ c. record c { device_clears = c.device_clears + 1 })
          >> (λ t. or_report on_sync (r, t) (λ _. pure tt)))
        s

  -- The rest of the switch of handleSync.
  unfoldable pub handle_sync_other : Device D → Config → Class → Header → M D (Unit {0})
  unfolding trigger_device interrupted_counted report_operation_error complete_device_clear send
      send_error send_fatal_error vendor_specific
  handle_sync_other dev cfg class h =
      if h.type == MessageType.trigger
      then handle_trigger dev h
      else if h.type == MessageType.device_clear_complete
      then (λ s. acknowledge (complete_device_clear dev cfg h s))
      else if h.type == MessageType.fatal_error
      then count one_fatal >> fail err_client_fatal
      else if h.type == MessageType.error
      then count one_non_fatal
      else if h.type == MessageType.initialize
      then ignored
          (send_fatal_error on_sync fatal_invalid_init_sequence (codes "already initialized"))
        >> fail err_invalid_init_sequence
      else if is_sync_ordered class && vendor_specific h.type
      then count one_non_fatal
        >> send_error on_sync non_fatal_unrecognized_vendor_msg
            (codes "vendor extension not enabled")
      else count one_non_fatal
        >> send_error on_sync non_fatal_unrecognized_message_type (codes "unsupported message")

  abbrev switch_sync :
      Device D → Config → Message → ℕ → Bool → Class × Result (Unit {0}) → State D → Handled D
  switch_sync dev cfg msg fuel queued (class, err e) s = done (report_accept_error on_sync e s)
  switch_sync dev cfg msg fuel queued (class, ok _) s =
      if msg.header.type == MessageType.data_message || msg.header.type == MessageType.data_end
      then handle_data dev cfg msg fuel queued s
      else done (handle_sync_other dev cfg class msg.header s)

  unfoldable pub handle_sync : Device D → Config → Message → ℕ → Bool → State D → Handled D
  unfolding report_read_error discard_during_clear accept report_accept_error handle_data
      handle_sync_other
  handle_sync dev cfg msg fuel queued s = elim msg.error [
    | some e ↦ done (report_read_error on_sync e s)
    | none ↦
        if discard_during_clear s.sess msg.header
        then (some (ok tt), s)
        else switch_sync dev cfg msg fuel queued
            (accept cfg (some s.sess) msg.header channel_synchronous) s
  ]

  -- The response to a request, or its error.
  abbrev reply : Result Header × State D → Result (Unit {0}) × State D
  reply r = or_report on_async r (λ h. send on_async h [])

  abbrev reply_lock : Result (Option Header) × State D → Handled D
  reply_lock (err e, s) = done (report_operation_error on_async e s)
  reply_lock (ok none, s) = (none, s)
  reply_lock (ok (some h), s) = done (send on_async h [] s)

  abbrev polled : Result Header × State D → Result Header × State D
  polled (r, s) = (
    r,
    record s { counters = record (s.counters) { serial_polls = s.counters.serial_polls + 1 } },
  )

  unfoldable pub handle_async_other : Device D → Config → Header → Bytes → M D (Unit {0})
  unfolding begin_device_clear status_query lock_info remote_local maximum_message_size
      decode_max_size put_uint64 send send_error report_operation_error
  handle_async_other dev cfg h payload =
      if h.type == MessageType.async_device_clear
      then (λ s. reply (begin_device_clear cfg s))
      else if h.type == MessageType.async_status_query
      then (λ s. reply (polled (status_query dev h s)))
      else if h.type == MessageType.async_lock_info
      then (λ s. reply (lock_info h s))
      else if h.type == MessageType.async_remote_local_control
      then (λ s. reply (remote_local dev h s))
      else if h.type == MessageType.async_maximum_message_size
      then maximum_message_size cfg (decode_max_size payload)
        >>= (λ r. send on_async r.0 (put_uint64 r.1))
      else if h.type == MessageType.async_initialize
      then ignored (
          send on_async
            (record no_header {
              type = MessageType.fatal_error;
              control = fatal_invalid_init_sequence;
            })
            [])
        >> fail err_invalid_init_sequence
      else if h.type == MessageType.fatal_error
      then count one_fatal >> fail err_client_fatal
      else if h.type == MessageType.error
      then count one_non_fatal
      else count one_non_fatal
        >> send_error on_async non_fatal_unrecognized_message_type (codes "unsupported message")

  abbrev switch_async :
      Device D → Config → Message → List Round → Class × Result (Unit {0}) → State D → Handled D
  switch_async dev cfg msg rounds (class, err e) s = done (report_accept_error on_async e s)
  switch_async dev cfg msg rounds (class, ok _) s =
      if msg.header.type == MessageType.async_lock
      then reply_lock (lock msg.header msg.payload rounds s)
      else done (handle_async_other dev cfg msg.header msg.payload s)

  abbrev with_async_writer : Option Writer → State D → Handled D → Handled D
  with_async_writer none s h = (some (err err_session_not_ready), s)
  with_async_writer (some w) s h = h

  -- handleAsync. A lock request may wait, for the rounds given.
  unfoldable pub handle_async : Device D → Config → Message → List Round → State D → Handled D
  unfolding report_read_error accept report_accept_error lock report_operation_error send
      handle_async_other
  handle_async dev cfg msg rounds s = with_async_writer s.sess.async_w s (elim msg.error [
    | some e ↦ done (report_read_error on_async e s)
    | none ↦
        switch_async dev cfg msg rounds (accept cfg (some s.sess) msg.header channel_asynchronous) s
  ])
