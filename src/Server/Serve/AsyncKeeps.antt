-- ===== src/Server/Serve/AsyncKeeps.antt =====
-- The handlers of server/serve.go only write through the session's writers: whatever such writes keep,
-- a message on either channel keeps.
use hislip.Prelude.{ℕ, Option, none, some, List, Bytes, [], if-both, arith}
use hislip.Errors.{Error, Result, ok, err, err_invalid_init_sequence, err_client_fatal}
use hislip.Protocol.Header.{Header, no_header}
use hislip.Server.Rmt.{rmt_queried}
use hislip.Server.Status.{take_service_request, set_response_pending}
use hislip.Server.Transaction.{clear}
use hislip.Server.Locks.{info}
use hislip.Server.Locks.Waiting.{Round}
use hislip.Server.Session.{Writer, require_ready, abort_operation, begin_clear}
use hislip.Server.Config.{Config}
use hislip.Server.Device.{Device, mode_valid}
use hislip.Server.Reader.{Message}
use hislip.Server.Dispatch.{Class, accept}
use hislip.Server.State.{State, M, ◌>>=◌, Side, on_async, send, send_error, ◌>>◌, count, fail}
use hislip.Server.State.Keeps.{
  IsStable, Keeps, keeping, if-Keeps, count-Keeps, quiet-Keeps, send-Keeps, bind-Keeps,
}
use hislip.Server.Clear.{begin_device_clear}
use hislip.Server.Async.{status_query, lock, lock_info, remote_local, maximum_message_size}
use hislip.Server.Reports.{report_read_error, ignored, one_fatal, one_non_fatal}
use hislip.Protocol.MessageType
use hislip.Prelude.Text.{codes}
use hislip.Protocol.ErrorCode.{fatal_invalid_init_sequence, non_fatal_unrecognized_message_type}
use hislip.Protocol.MessageType.{channel_asynchronous}
use hislip.Server.Reports.Keeps.{
  ignored-Keeps, read_error-Keeps, operation_error-Keeps, accept_error-Keeps,
}
use hislip.Server.Serve.{
  Handled, reply, reply_lock, polled, put_uint64, decode_max_size, or_report, handle_async_other,
  switch_async, with_async_writer, handle_async, done,
}

module _ {D : Type 0} {P : State D → Type 0} (stable : IsStable P) where
  -- What an operation of the asynchronous channel leaves.
  begin_device_clear-P : (cfg : Config) (s : State D) → P s → P (begin_device_clear cfg s).1
  unfolding begin_device_clear require_ready abort_operation set_response_pending clear begin_clear
  begin_device_clear-P cfg s = stable.quiet s _ (ground arith)

  status_query-P :
      (dev : Device D) (h : Header) (s : State D) → P s → P (polled (status_query dev h s)).1
  unfolding status_query require_ready rmt_queried take_service_request
  status_query-P dev h s = stable.quiet s _ (ground arith)

  lock_info-P : (h : Header) (s : State D) → P s → P (lock_info h s).1
  unfolding lock_info require_ready info
  lock_info-P h s = stable.quiet s _ (ground arith)

  remote_local-P : (dev : Device D) (h : Header) (s : State D) → P s → P (remote_local dev h s).1
  unfolding remote_local require_ready mode_valid
  remote_local-P dev h s = stable.quiet s _ (ground arith)

  lock-P :
      (h : Header) (lock_string : Bytes) (rounds : List Round) (s : State D)
      → P s
      → P (lock h lock_string rounds s).1
  unfolding lock require_ready
  lock-P h lock_string rounds s = stable.quiet s _ (ground arith)

  size-Keeps :
      (cfg : Config) (client_max : ℕ) → Keeps P (maximum_message_size {D = D} cfg client_max)
  unfolding maximum_message_size
  size-Keeps cfg client_max = quiet-Keeps stable (λ s. ground arith)

  pub or_report-P :
      {A : Type 0} (side : Side) (r : Result A × State D) (go : A → M D (Unit {0}))
      → P r.1
      → ((a : A) → Keeps P (go a))
      → P (or_report side r go).1
  or_report-P side (err e, s) go p k = (operation_error-Keeps stable side e).after s p
  or_report-P side (ok a, s) go p k = (k a).after s p

  reply-Keeps : (m : M D Header) → ((s : State D) → P s → P (m s).1) → Keeps P (λ s. reply (m s))
  reply-Keeps m k = record {
    after = λ s p.
        or_report-P on_async (m s) (λ h. send on_async h []) (k s p)
          (λ h. send-Keeps stable on_async h []);
  }

  sized-Keeps :
      (cfg : Config) (client_max : ℕ)
      → Keeps P (maximum_message_size cfg client_max >>= (λ r. send on_async r.0 (put_uint64 r.1)))
  sized-Keeps cfg client_max =
      bind-Keeps stable (size-Keeps cfg client_max)
        (λ r. send-Keeps stable on_async r.0 (put_uint64 r.1))

  again-Keeps : Keeps P {A = Unit {0}} (
      ignored (
        send on_async
          (record no_header {
            type = MessageType.fatal_error;
            control = fatal_invalid_init_sequence;
          })
          [])
      >> fail err_invalid_init_sequence)
  again-Keeps = search (keeping, ignored-Keeps)

  client_fatal-Keeps : Keeps P {A = Unit {0}} (count one_fatal >> fail err_client_fatal)
  client_fatal-Keeps = search keeping

  other-Keeps :
      (side : Side) (code : ℕ) (description : Bytes)
      → Keeps P (count one_non_fatal >> send_error side code description)
  other-Keeps side code description = search keeping

  handle_async_other-Keeps :
      (dev : Device D) (cfg : Config) (h : Header) (payload : Bytes)
      → Keeps P (handle_async_other dev cfg h payload)
  unfolding handle_async_other
  handle_async_other-Keeps dev cfg h payload =
      if-Keeps stable _ _ _ (reply-Keeps (begin_device_clear cfg) (begin_device_clear-P cfg)) (
        if-Keeps stable _ _ _
          (reply-Keeps (λ s. polled (status_query dev h s)) (status_query-P dev h))
          (if-Keeps stable _ _ _ (reply-Keeps (lock_info h) (lock_info-P h)) (
            if-Keeps stable _ _ _ (reply-Keeps (remote_local dev h) (remote_local-P dev h)) (
              if-Keeps stable _ _ _ (sized-Keeps cfg (decode_max_size payload)) (
                if-Keeps stable _ _ _ again-Keeps (
                  if-Keeps stable _ _ _ client_fatal-Keeps (
                    if-Keeps stable _ _ _ (count-Keeps stable one_non_fatal) (
                      other-Keeps on_async non_fatal_unrecognized_message_type
                        (codes "unsupported message")))))))))

  reply_lock-P : (r : Result (Option Header) × State D) → P r.1 → P (reply_lock r).1
  reply_lock-P (err e, s) p = (operation_error-Keeps stable on_async e).after s p
  reply_lock-P (ok none, s) p = p
  reply_lock-P (ok (some h), s) p = (send-Keeps stable on_async h []).after s p

  switch_async-P :
      (dev : Device D) (cfg : Config) (msg : Message) (rounds : List Round)
      (a : Class × Result (Unit {0})) (s : State D)
      → P s
      → P (switch_async dev cfg msg rounds a s).1
  switch_async-P dev cfg msg rounds (class, err e) s p =
      (accept_error-Keeps stable on_async e).after s p
  switch_async-P dev cfg msg rounds (class, ok u) s p =
      if-both (λ (r : Handled D). P r.1) _ _ _
        (reply_lock-P (lock msg.header msg.payload rounds s)
          (lock-P msg.header msg.payload rounds s p))
        ((handle_async_other-Keeps dev cfg msg.header msg.payload).after s p)

  with_async_writer-P :
      (w : Option Writer) (s : State D) (r : Handled D)
      → P s
      → P r.1
      → P (with_async_writer w s r).1
  with_async_writer-P none s r p q = p
  with_async_writer-P (some w) s r p q = q

  -- What is read from the asynchronous channel: an error, or a message.
  abbrev async_arrived :
      Device D → Config → Message → List Round → State D → Option Error → Handled D
  async_arrived dev cfg msg rounds s (some e) = done (report_read_error on_async e s)
  async_arrived dev cfg msg rounds s none =
      switch_async dev cfg msg rounds (accept cfg (some s.sess) msg.header channel_asynchronous) s

  async_arrived-P :
      (dev : Device D) (cfg : Config) (msg : Message) (rounds : List Round) (s : State D)
      (e : Option Error)
      → P s
      → P (async_arrived dev cfg msg rounds s e).1
  async_arrived-P dev cfg msg rounds s (some e) p = (read_error-Keeps stable on_async e).after s p
  async_arrived-P dev cfg msg rounds s none p =
      switch_async-P dev cfg msg rounds (accept cfg (some s.sess) msg.header channel_asynchronous) s
        p

  pub handle_async-P :
      (dev : Device D) (cfg : Config) (msg : Message) (rounds : List Round) (s : State D)
      → P s
      → P (handle_async dev cfg msg rounds s).1
  unfolding handle_async
  handle_async-P dev cfg msg rounds s p =
      with_async_writer-P s.sess.async_w s (async_arrived dev cfg msg rounds s msg.error) p
        (async_arrived-P dev cfg msg rounds s msg.error p)
