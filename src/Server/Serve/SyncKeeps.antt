-- ===== src/Server/Serve/SyncKeeps.antt =====
-- handleSync of server/serve.go only writes through the session's writers: whatever such writes keep, a
-- message on the synchronous channel keeps.
use hislip.Prelude.{
  ℕ, ◌+◌, if◌then◌else◌, refl, Bool, Option, none, some, Bytes, [], if-both, arith,
}
use hislip.Prelude.Text.{codes}
use hislip.Errors.{Error, Result, ok, err, err_invalid_init_sequence, err_client_fatal}
use hislip.Protocol.ErrorCode.{fatal_invalid_init_sequence}
use hislip.Protocol.MessageType.{channel_synchronous}
use hislip.Protocol.Header.{Header, message_id}
use hislip.Server.Rmt.{Interrupted}
use hislip.Server.Policy.{Disposition}
use hislip.Server.Transaction.{complete}
use hislip.Server.Session.{
  Session, complete_clear, operation, release_operation, feed_program_message, program_disposition,
}
use hislip.Server.Config.{Config}
use hislip.Server.Device.{Device}
use hislip.Server.Reader.{Message}
use hislip.Server.Dispatch.{Class, accept}
use hislip.Server.State.{State, ◌>>◌, pure, fail, count, on_sync, send_error, send_fatal_error}
use hislip.Server.State.Keeps.{
  IsStable, Keeps, keeping, if-Keeps, then-Keeps, count-Keeps, pure-Keeps, send-Keeps,
  step_tx-Keeps,
}
use hislip.Server.Data.{ResponseOutcome, Response, receive_data, trigger_device, send_response}
use hislip.Server.Data.Keeps.{receive_data-P, trigger_device-P, send_response-Safe}
use hislip.Server.Clear.{complete_device_clear, discard_during_clear}
use hislip.Server.Reports.{one_fatal, one_non_fatal, ignored, report_read_error}
use hislip.Server.Reports.Keeps.{
  ignored-Keeps, read_error-Keeps, operation_error-Keeps, accept_error-Keeps,
}
use hislip.Server.Serve.{
  Handled, response_scratch, input_queued, or_report, counted, done, released, answered, respond,
  decide, after_receive, handle_data, handle_trigger, acknowledge, handle_sync_other, switch_sync,
  handle_sync,
}
use hislip.Server.Serve.AsyncKeeps.{or_report-P}

module _ {D : Type 0} {P : State D → Type 0} (stable : IsStable P) where
  counted-P : {A : Type 0} (r : (Interrupted × Result A) × State D) → P r.1 → P (counted r).1
  counted-P ((i, r), s) = stable.quiet s _ (record { conns = refl; sync_w = refl; async_w = refl })

  released-P : (op : ℕ) (r : Handled D) → P r.1 → P (released op r).1
  unfolding release_operation
  released-P op (r, s) = stable.quiet s _ (record { conns = refl; sync_w = refl; async_w = refl })

  answered-P :
      (r : Option (ResponseOutcome × Result (Unit {0})) × State D) → P r.1 → P (answered r).1
  answered-P (none, s) p = p
  answered-P (some (outcome, r), s) p =
      or_report-P stable on_sync (r, _) (λ _. pure tt)
        (stable.quiet s _ (record { conns = refl; sync_w = refl; async_w = refl }) p)
        (λ _. pure-Keeps stable)

  respond-P :
      (dev : Device D) (cfg : Config) (h : Header) (fuel : ℕ) (queued : Bool) (op : ℕ)
      (sess : Session) (s : State D)
      → P (record s { sess = sess })
      → P (respond dev cfg h fuel queued (op, sess) s).1
  respond-P dev cfg h fuel queued op sess s p =
      let r : Response = record {
        message_id = message_id h;
        scratch = response_scratch cfg.max_tx_payload sess.max_tx;
        input_queued = input_queued sess queued;
      } in
      let sending = send_response dev r fuel (record s { sess = sess }) in
      released-P op (answered sending) (
        answered-P sending
          (send_response-Safe stable dev r fuel (record s { sess = sess }) p).holds)

  decide-P :
      (dev : Device D) (cfg : Config) (h : Header) (fuel : ℕ) (queued : Bool) (d : Disposition)
      (sess : Session) (s : State D)
      → P (record s { sess = sess })
      → P (decide dev cfg h fuel queued (d, sess) s).1
  unfolding operation
  decide-P dev cfg h fuel queued d sess s p =
      if-both (λ (r : Handled D). P r.1) _ _ _
        (respond-P dev cfg h fuel queued (operation sess).0 (operation sess).1 s (
          stable.quiet (record s { sess = sess }) _
            (record { conns = refl; sync_w = refl; async_w = refl }) p))
        ((step_tx-Keeps stable complete).after (record s { sess = sess }) p)

  fed-P :
      (s : State D) (payload : Bytes)
      → P s
      → P (record s { sess = feed_program_message s.sess payload })
  unfolding feed_program_message
  fed-P s payload = stable.quiet s _ (ground arith)

  decided-P : (s : State D) → P s → P (record s { sess = (program_disposition s.sess).1 })
  unfolding program_disposition
  decided-P s = stable.quiet s _ (ground arith)

  after_receive-P :
      (dev : Device D) (cfg : Config) (msg : Message) (fuel : ℕ) (queued : Bool)
      (r : Result (Unit {0}) × State D)
      → P r.1
      → P (after_receive dev cfg msg fuel queued r).1
  after_receive-P dev cfg msg fuel queued (err e, s) p =
      (operation_error-Keeps stable on_sync e).after s p
  after_receive-P dev cfg msg fuel queued (ok u, s) p =
      let fed = feed_program_message s.sess msg.payload in
      let q = fed-P s msg.payload p in
      if-both (λ (r : Handled D). P r.1) _ _ _ q
        (decide-P dev cfg msg.header fuel queued (program_disposition fed).0
          (program_disposition fed).1 s (decided-P (record s { sess = fed }) q))

  handle_data-P :
      (dev : Device D) (cfg : Config) (msg : Message) (fuel : ℕ) (queued : Bool) (s : State D)
      → P s
      → P (handle_data dev cfg msg fuel queued s).1
  unfolding handle_data
  handle_data-P dev cfg msg fuel queued s p =
      after_receive-P dev cfg msg fuel queued (counted (receive_data dev msg.header msg.payload s))
        (counted-P (receive_data dev msg.header msg.payload s)
          (receive_data-P stable dev msg.header msg.payload s p))

  trigger-Keeps : (dev : Device D) (h : Header) → Keeps P (handle_trigger dev h)
  trigger-Keeps dev h = record {
    after = λ s p.
        or_report-P stable on_sync (counted (trigger_device dev h s))
          (λ _. count (λ c. record c { triggers = c.triggers + 1 }))
          (counted-P (trigger_device dev h s) (trigger_device-P stable dev h s p))
          (λ _. count-Keeps stable _);
  }

  complete_device_clear-P :
      (dev : Device D) (cfg : Config) (h : Header) (s : State D)
      → P s
      → P (complete_device_clear dev cfg h s).1
  unfolding complete_device_clear complete_clear
  complete_device_clear-P dev cfg h s = stable.quiet s _ (ground arith)

  reported-Keeps : (r : Result (Unit {0})) → Keeps P (λ t. or_report on_sync (r, t) (λ _. pure tt))
  reported-Keeps r = record {
    after = λ t p. or_report-P stable on_sync (r, t) (λ _. pure tt) p (λ _. pure-Keeps stable);
  }

  acknowledge-P : (r : (Header × Result (Unit {0})) × State D) → P r.1 → P (acknowledge r).1
  acknowledge-P ((ack, r), s) p =
      (then-Keeps stable
          (then-Keeps stable (send-Keeps stable on_sync ack []) (count-Keeps stable _))
          (reported-Keeps r)).after
        s p

  clear-Keeps :
      (dev : Device D) (cfg : Config) (h : Header)
      → Keeps P (λ s. acknowledge (complete_device_clear dev cfg h s))
  clear-Keeps dev cfg h = record {
    after = λ s p.
        acknowledge-P (complete_device_clear dev cfg h s) (complete_device_clear-P dev cfg h s p);
  }

  client_fatal-Keeps : Keeps P {A = Unit {0}} (count one_fatal >> fail err_client_fatal)
  client_fatal-Keeps = search keeping

  initialized-Keeps : Keeps P {A = Unit {0}} (
      ignored (send_fatal_error on_sync fatal_invalid_init_sequence (codes "already initialized"))
      >> fail err_invalid_init_sequence)
  initialized-Keeps = search (keeping, ignored-Keeps)

  refused-Keeps :
      (code : ℕ) (description : Bytes)
      → Keeps P (count one_non_fatal >> send_error on_sync code description)
  refused-Keeps code description = search keeping

  handle_sync_other-Keeps :
      (dev : Device D) (cfg : Config) (class : Class) (h : Header)
      → Keeps P (handle_sync_other dev cfg class h)
  unfolding handle_sync_other
  handle_sync_other-Keeps dev cfg class h =
      search
        (
          if-Keeps, trigger-Keeps, clear-Keeps, client_fatal-Keeps, count-Keeps, initialized-Keeps,
          refused-Keeps,
        )
        depth 20

  switch_sync-P :
      (dev : Device D) (cfg : Config) (msg : Message) (fuel : ℕ) (queued : Bool)
      (a : Class × Result (Unit {0})) (s : State D)
      → P s
      → P (switch_sync dev cfg msg fuel queued a s).1
  switch_sync-P dev cfg msg fuel queued (class, err e) s p =
      (accept_error-Keeps stable on_sync e).after s p
  switch_sync-P dev cfg msg fuel queued (class, ok u) s p =
      if-both (λ (r : Handled D). P r.1) _ _ _ (handle_data-P dev cfg msg fuel queued s p)
        ((handle_sync_other-Keeps dev cfg class msg.header).after s p)

  -- What is read from the synchronous channel: an error, or a message.
  abbrev sync_arrived : Device D → Config → Message → ℕ → Bool → State D → Option Error → Handled D
  sync_arrived dev cfg msg fuel queued s (some e) = done (report_read_error on_sync e s)
  sync_arrived dev cfg msg fuel queued s none =
      if discard_during_clear s.sess msg.header
      then (some (ok tt), s)
      else switch_sync dev cfg msg fuel queued
          (accept cfg (some s.sess) msg.header channel_synchronous) s

  sync_arrived-P :
      (dev : Device D) (cfg : Config) (msg : Message) (fuel : ℕ) (queued : Bool) (s : State D)
      (e : Option Error)
      → P s
      → P (sync_arrived dev cfg msg fuel queued s e).1
  sync_arrived-P dev cfg msg fuel queued s (some e) p =
      (read_error-Keeps stable on_sync e).after s p
  sync_arrived-P dev cfg msg fuel queued s none p =
      if-both (λ (r : Handled D). P r.1) _ _ _ p
        (switch_sync-P dev cfg msg fuel queued
          (accept cfg (some s.sess) msg.header channel_synchronous) s p)

  pub handle_sync-P :
      (dev : Device D) (cfg : Config) (msg : Message) (fuel : ℕ) (queued : Bool) (s : State D)
      → P s
      → P (handle_sync dev cfg msg fuel queued s).1
  unfolding handle_sync
  handle_sync-P dev cfg msg fuel queued s p = sync_arrived-P dev cfg msg fuel queued s msg.error p
