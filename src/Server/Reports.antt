-- ===== src/Server/Reports.antt =====
-- server/serve.go: the counters, and how errors are answered.
pub mod Keeps
pub mod Outcomes
use hislip.Prelude.{
  ℕ, suc, ◌+◌, Bool, true, false, Option, none, some, Bytes, [], ◌∷◌, ◌==◌, if◌then◌else◌,
}
use hislip.Prelude.Text.{codes}
use hislip.Errors.{Error, Result, ok, err, err_message_too_large, err_wrong_channel, text}
use hislip.Protocol.ErrorCode.{non_fatal_message_too_large, non_fatal_unidentified}
use hislip.Server.Rmt.{
  Interrupted, not_interrupted, interrupted_rmt_mismatch, interrupted_input_queued,
}
use hislip.Server.WireError.{WireError, wire_error_for, code_handshake_timeout}
use hislip.Server.Session.{Session, Writer}
use hislip.Server.Data.{
  ResponseOutcome, response_complete, response_truncated, response_absent, response_interrupted,
}
use hislip.Server.State.{
  Counters, State, M, and_then, ◌>>◌, pure, fail, count, Side, writer_of, send_error,
  send_fatal_error,
}

abbrev pub one_fatal : Counters → Counters
one_fatal c = record c { fatal_errors = c.fatal_errors + 1 }

abbrev pub one_non_fatal : Counters → Counters
one_non_fatal c = record c { non_fatal_errors = c.non_fatal_errors + 1 }

-- countInterrupted and countOutcome.
unfoldable pub interrupted_counted : Interrupted → Counters → Counters
interrupted_counted not_interrupted c = c
interrupted_counted interrupted_rmt_mismatch c = record c {
  silent_interrupted = c.silent_interrupted + 1;
}
interrupted_counted interrupted_input_queued c = record c {
  interrupted_sent = c.interrupted_sent + 1;
}

unfoldable pub outcome_counted : ResponseOutcome → Counters → Counters
outcome_counted response_complete c = c
outcome_counted response_absent c = record c {
  queries_without_answer = c.queries_without_answer + 1;
}
outcome_counted response_truncated c = record c { truncated_responses = c.truncated_responses + 1 }
outcome_counted response_interrupted c = record c { interrupted_sent = c.interrupted_sent + 1 }

abbrev is_too_large : Error → Bool
is_too_large err_message_too_large = true
is_too_large _ = false

abbrev is_wrong_channel : Error → Bool
is_wrong_channel err_wrong_channel = true
is_wrong_channel _ = false

-- A code for what the codec has no code for.
abbrev pub operation_code : ℕ → ℕ
operation_code code = if code == non_fatal_unidentified then code_handshake_timeout else code

module _ {D : Type 0} where
  -- `_ = w.Write...`
  abbrev pub ignored : M D (Unit {0}) → M D (Unit {0})
  ignored m s = (ok tt, (m s).1)

  -- `if w != nil { ... }`
  abbrev guarded : Option Writer → M D (Unit {0}) → M D (Unit {0})
  guarded none m s = (ok tt, s)
  guarded (some w) m s = m s

  abbrev pub if_writer : Side → M D (Unit {0}) → M D (Unit {0})
  if_writer side m s = guarded (writer_of side s.sess) m s

  unfoldable pub report_read_error : Side → Error → M D (Unit {0})
  unfolding send_error
  report_read_error side e =
      if is_too_large e
      then count (λ c. one_non_fatal (record c { oversized_messages = c.oversized_messages + 1 }))
        >> if_writer side (send_error side non_fatal_message_too_large (codes "message too large"))
      else fail e

  -- The session ends with a fatal error, and the client is told.
  abbrev end_with : Side → Error → M D (Unit {0})
  end_with side e =
      count one_fatal
      >> ignored (if_writer side (send_fatal_error side (wire_error_for e).fatal_code (text e)))
      >> fail e

  abbrev count_wrong : Error → M D (Unit {0})
  count_wrong e =
      if is_wrong_channel e
      then count (λ c. record c { wrong_channel = c.wrong_channel + 1 })
      else pure tt

  unfoldable pub report_accept_error : Side → Error → M D (Unit {0})
  unfolding wire_error_for send_error send_fatal_error text
  report_accept_error side e =
      count_wrong e
      >> (if (wire_error_for e).fatal
          then end_with side e
          else count one_non_fatal
            >> if_writer side (send_error side (wire_error_for e).code (text e)))

  unfoldable pub report_operation_error : Side → Error → M D (Unit {0})
  unfolding wire_error_for send_error send_fatal_error text
  report_operation_error side e =
      if (wire_error_for e).fatal
      then end_with side e
      else count one_non_fatal
        >> if_writer side (send_error side (operation_code (wire_error_for e).code) (text e))
