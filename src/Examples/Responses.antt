-- ===== src/Examples/Responses.antt =====
-- The theorems on messages and their responses at concrete inputs.
use hislip.Protocol.MessageType
use hislip.Errors.{Error, err, err_invalid_transition, external, ok, text}
use hislip.Examples.Instrument.{
  Bench, answering, async_writer, at, bench, broken, config, failing, header, last, paired, part,
  quiet, sync_writer,
}
use hislip.Prelude.{
  All, Bytes, List, [], arith, concat, false, if◌then◌else◌, inl, length, none, refl, some, true, ℕ,
  ◌++◌, ◌+◌, ◌==◌, ◌∷◌, ◌≡◌,
}
use hislip.Prelude.Text.{codes}
use hislip.Protocol.Codec.Framing.{message_bytes}
use hislip.Protocol.Header.{Header, message_id}
use hislip.Protocol.MessageId.{no_message_id}
use hislip.Protocol.MessageType.{
  channel_synchronous, defined, legal_on, min_version_of, reserved, vendor_specific,
}
use hislip.Protocol.Version.{less}
use hislip.Server.Config.{Config}
use hislip.Server.Data.{
  Response, receive_data, response_complete, response_interrupted, send_response,
}
use hislip.Server.Data.Chunks.{Reads}
use hislip.Server.Data.Failures.{IsEndedEarly, failure_outcome, failure_wire, send_response-failed}
use hislip.Server.Data.Interrupts.{async_header, interrupted_header, send_response-interrupted}
use hislip.Server.Data.Prefix.{total}
use hislip.Server.Data.Receives.{failed_write_blocks}
use hislip.Server.Data.Responds.{IsDelivered, send_response-IsDelivered, wire}
use hislip.Server.Device.{Chunk, Device}
use hislip.Server.Dispatch.{accept, class_of}
use hislip.Server.Dispatch.Accepts.{IsAccepted, accept_iff}
use hislip.Server.Locks.{no_locks}
use hislip.Server.Policy.{disposition, feed, policy_disposition, policy_feed, response_expected}
use hislip.Server.Reader.{Message}
use hislip.Server.Reports.{report_operation_error}
use hislip.Server.Reports.Outcomes.{error_header, fatal_header, report_operation_error-tells}
use hislip.Server.Serve.{handle_async_other, handle_sync, response_scratch}
use hislip.Server.Serve.Answers.{handle_async_other-IsAnswered}
use hislip.Server.Serve.Messages.{response_to}
use hislip.Server.Serve.Queries.{handle_sync-query}
use hislip.Server.Serve.Sending.{IsAnswered}
use hislip.Server.Session.{Writer, feed_program_message, program_disposition, state_ready}
use hislip.Server.State.{State, no_counts, on_sync}
use hislip.Server.State.Sends.{grown}
use hislip.Server.Transaction.{tx_idle, tx_input_complete}
use hislip.Server.WireError.{wire_error_for}
use hislip.Simulated.{Floats, Instrument, instrument, write}
use hislip.Simulated.Queries.{simulated_query}
use hislip.Simulated.Strings.{itoa}

-- Voltages as whole numbers, which are not parsed.
abbrev whole_volts : Floats ℕ
whole_volts = record { zero_volts = 0; parse_float = λ s. none; format_e = itoa }

-- The session with the simulated instrument, as it starts.
abbrev simulated_state : State (Instrument ℕ)
simulated_state = record {
  dev = record { input = []; response = []; status = 0; esr = 0; voltage = 0; triggered = 0 };
  conns = λ k. quiet;
  locks = no_locks;
  counters = no_counts;
  sess = paired state_ready tx_idle;
}

simulated_response :
    length (write whole_volts (simulated_state.dev) (codes "*IDN?") true).1.response ≡ 42
unfolding write
simulated_response = refl

abbrev identify : Message
identify = record { header = header MessageType.data_end; payload = codes "*IDN?"; error = none }

header-IsAccepted :
    IsAccepted (paired state_ready tx_idle) (header MessageType.data_end) channel_synchronous
header-IsAccepted =
    (accept_iff config (paired state_ready tx_idle) (header MessageType.data_end)
        channel_synchronous).0
      (unfold accept defined vendor_specific reserved legal_on less min_version_of class_of in refl)

identify-expects :
    (program_disposition (feed_program_message (paired state_ready tx_idle) (codes "*IDN?"))).0
    ≡ response_expected
unfolding program_disposition feed_program_message policy_feed feed policy_disposition disposition
identify-expects = refl

identify-read :
    Reads bench
      (response_to config (header MessageType.data_end) (paired state_ready tx_idle)).scratch
      (record (answering (part (codes "AC") ∷ last (codes "ME") ∷ [])) { received = codes "*IDN?" })
      (codes "AC" ∷ [])
      (last (codes "ME"))
      (record (answering []) { received = codes "*IDN?" })
unfolding response_scratch
identify-read = (_, refl, refl)

handle_sync-query_example :
    let dev : Device Bench = bench in
    let cfg : Config = config in
    let msg : Message = identify in
    let w : Writer = sync_writer in
    let fuel : ℕ = 5 in
    let s : State Bench =
      at (answering (part (codes "AC") ∷ last (codes "ME") ∷ [])) state_ready tx_idle in
    let bs : List Bytes = codes "AC" ∷ [] in
    let c : Chunk = last (codes "ME") in
    let d' : Bench = record (answering []) { received = codes "*IDN?" } in
    let r = response_to cfg msg.header s.sess in
    (t : State Bench) × (handle_sync dev cfg msg fuel false s ≡ (some (ok tt), t))
    × IsDelivered r w.conn bs c.bytes d' s.conns t
    × (t.sess.op_cancel ≡ none)
handle_sync-query_example =
    handle_sync-query bench config identify sync_writer async_writer 5
      (at (answering (part (codes "AC") ∷ last (codes "ME") ∷ [])) state_ready tx_idle)
      (codes "AC" ∷ []) (last (codes "ME")) (record (answering []) { received = codes "*IDN?" })
      refl refl header-IsAccepted refl (inl refl) refl identify-expects identify-read (omega arith)
      ((refl, refl)) (record { installed = refl; on_channel = refl; takes_all = refl }) refl
      (omega arith) (omega arith)

simulated_query_example :
    let s : State (Instrument ℕ) = simulated_state in
    let d = (write whole_volts s.dev identify.payload true).1 in
    let r = response_to config identify.header s.sess in
    (t : State (Instrument ℕ)) × (bs : List Bytes) × (final : Bytes) × (handle_sync
        (instrument whole_volts)
        config
        identify
        50
        false
        s
      ≡ (some (ok tt), t))
    × IsDelivered r sync_writer.conn bs final t.dev s.conns t
    × (concat bs ++ final ≡ d.response)
    × All (λ b. length b ≡ r.scratch) bs
    × (t.dev ≡ record d { response = [] })
simulated_query_example =
    simulated_query whole_volts config identify sync_writer async_writer 50 simulated_state refl
      refl header-IsAccepted refl (inl refl) identify-expects
      (record { installed = refl; on_channel = refl; takes_all = refl }) refl (omega arith)
      (omega arith) (omega (arith, simulated_response)) (omega (arith, simulated_response))

send_response-IsDelivered_example :
    let dev : Device Bench = bench in
    let r : Response = record { message_id = 7; scratch = 1024; input_queued = some false } in
    let w : Writer = sync_writer in
    let fuel : ℕ = 5 in
    let s : State Bench =
      at (answering (part (codes "AC") ∷ last (codes "ME") ∷ [])) state_ready tx_input_complete in
    let bs : List Bytes = codes "AC" ∷ [] in
    let c : Chunk = last (codes "ME") in
    let d' : Bench = answering [] in
    (t : State Bench) × (send_response dev r fuel s ≡ (some (response_complete, ok tt), t))
    × IsDelivered r w.conn bs c.bytes d' s.conns t
    × (t.sess.status.response_pending ≡ false)
send_response-IsDelivered_example =
    send_response-IsDelivered bench
      (record { message_id = 7; scratch = 1024; input_queued = some false }) sync_writer
      async_writer 5
      (at (answering (part (codes "AC") ∷ last (codes "ME") ∷ [])) state_ready tx_input_complete)
      (codes "AC" ∷ []) (last (codes "ME")) (answering []) (_, refl, refl) (omega arith)
      ((refl, refl)) (record { installed = refl; on_channel = refl; takes_all = refl }) refl refl
      (omega arith) (omega arith) refl

send_response-failed_example :
    let dev : Device Bench = bench in
    let r : Response = record { message_id = 7; scratch = 1024; input_queued = some false } in
    let w : Writer = sync_writer in
    let fuel : ℕ = 5 in
    let s : State Bench =
      at (answering (part (codes "AC") ∷ broken ∷ [])) state_ready tx_input_complete in
    let bs : List Bytes = codes "AC" ∷ [] in
    let c : Chunk = broken in
    let n = total bs + length c.bytes in
    (t : State Bench) × (send_response dev r fuel s ≡ (some (failure_outcome n, ok tt), t))
    × IsEndedEarly w.conn r
        ((s.conns w.conn).written
          ++ (wire r.message_id bs
              ++ (wire r.message_id (c.bytes ∷ []) ++ failure_wire r.message_id n)))
        s
        t
    × (t.sess.status.response_pending ≡ false)
send_response-failed_example =
    send_response-failed bench
      (record { message_id = 7; scratch = 1024; input_queued = some false }) sync_writer
      async_writer 5
      (at (answering (part (codes "AC") ∷ broken ∷ [])) state_ready tx_input_complete)
      (codes "AC" ∷ []) broken (answering []) (external (codes "timeout")) false (_, refl, refl)
      (omega arith) refl (record { installed = refl; on_channel = refl; takes_all = refl }) refl
      refl (omega arith) (omega arith) refl

send_response-interrupted_example :
    let dev : Device Bench = bench in
    let r : Response = record { message_id = 7; scratch = 1024; input_queued = some true } in
    let w : Writer = sync_writer in
    let a : Writer = async_writer in
    let fuel : ℕ = 5 in
    let s : State Bench =
      at (answering (part (codes "AC") ∷ last (codes "ME") ∷ [])) state_ready tx_input_complete in
    let bs : List Bytes = codes "AC" ∷ [] in
    (t : State Bench) × (send_response dev r fuel s ≡ (some (response_interrupted, ok tt), t))
    × ((t.conns w.conn).written
        ≡ ((s.conns w.conn).written ++ wire r.message_id bs)
          ++ message_bytes (interrupted_header r) [])
    × ((t.conns a.conn).written ≡ (s.conns a.conn).written ++ message_bytes (async_header r) [])
    × (t.sess.tx ≡ record { state = tx_idle; id = no_message_id })
    × (t.sess.status.response_pending ≡ false)
    × (t.sess.rmt ≡ s.sess.rmt)
send_response-interrupted_example =
    send_response-interrupted bench
      (record { message_id = 7; scratch = 1024; input_queued = some true }) sync_writer async_writer
      5 (at (answering (part (codes "AC") ∷ last (codes "ME") ∷ [])) state_ready tx_input_complete)
      (codes "AC" ∷ []) (last (codes "ME")) (answering []) (_, refl, refl) (omega arith)
      ((refl, refl)) refl (record { installed = refl; on_channel = refl; takes_all = refl })
      (record { installed = refl; on_channel = refl; takes_all = refl }) (λ e. omega arith) refl
      (omega arith) (omega arith)

failed_write_blocks_example :
    let dev : Device Bench = bench in
    let h : Header = header MessageType.data_end in
    let h' : Header = header MessageType.data_end in
    let payload : Bytes = codes "*RST" in
    let payload' : Bytes = codes "*CLS" in
    let e : Error = external (codes "no bus") in
    let s : State Bench = at failing state_ready tx_idle in
    let first = receive_data dev h payload s in
    let reported = (report_operation_error on_sync e first.1).1 in
    let second = receive_data dev h' payload' reported in
    (first.0.1 ≡ err e)
    × (first.1.conns ≡ s.conns)
    × (s.sess.status.response_pending ≡ false → first.1.sess.status.response_pending ≡ false)
    × (first.1.sess.tx ≡ record { state = tx_input_complete; id = message_id h })
    × (second.0.1 ≡ err err_invalid_transition)
    × (second.1.dev ≡ (dev.write s.dev payload true).1)
    × (second.1.sess.tx ≡ record { state = tx_input_complete; id = message_id h })
failed_write_blocks_example =
    failed_write_blocks bench (header MessageType.data_end) (header MessageType.data_end)
      (codes "*RST") (codes "*CLS") (external (codes "no bus")) (at failing state_ready tx_idle)
      refl refl (inl refl) refl

handle_async_other-IsAnswered_example :
    let dev : Device Bench = bench in
    let cfg : Config = config in
    let h : Header = header MessageType.async_status_query in
    let payload : Bytes = [] in
    let w : Writer = async_writer in
    let s : State Bench = at failing state_ready tx_idle in
    IsAnswered w.conn s (handle_async_other dev cfg h payload s).1
handle_async_other-IsAnswered_example =
    handle_async_other-IsAnswered bench config (header MessageType.async_status_query) []
      async_writer (at failing state_ready tx_idle)
      (record { installed = refl; on_channel = refl; takes_all = refl }) (λ e. omega arith)
      (λ e. omega arith)

report_operation_error-tells_example :
    let w : Writer = sync_writer in
    let e : Error = external (codes "no bus") in
    let s : State Bench = at failing state_ready tx_input_complete in
    let r = report_operation_error on_sync e s in
    ((wire_error_for e).fatal ≡ false
      → (r.0 ≡ ok tt)
        × (r.1.conns w.conn
            ≡ grown
                (s.conns w.conn)
                (error_header
                  (if (wire_error_for e).code == 0 then 128 else (wire_error_for e).code))
                (text e))
        × (r.1.counters.non_fatal_errors ≡ s.counters.non_fatal_errors + 1)
        × (r.1.counters.fatal_errors ≡ s.counters.fatal_errors))
    × ((wire_error_for e).fatal ≡ true
        → (r.0 ≡ err e)
          × (r.1.conns w.conn
              ≡ grown (s.conns w.conn) (fatal_header (wire_error_for e).fatal_code) (text e))
          × (r.1.counters.fatal_errors ≡ s.counters.fatal_errors + 1)
          × (r.1.counters.non_fatal_errors ≡ s.counters.non_fatal_errors))
    × (r.1.sess.tx ≡ s.sess.tx)
    × (r.1.sess.state ≡ s.sess.state)
    × (r.1.dev ≡ s.dev)
report_operation_error-tells_example =
    report_operation_error-tells sync_writer (external (codes "no bus"))
      (at failing state_ready tx_input_complete)
      (record { installed = refl; on_channel = refl; takes_all = refl })
