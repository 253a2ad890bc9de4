-- ===== src/Server/Async/Answers.antt =====
-- What the answers on the asynchronous channel say.
use Prim.Native.Nat.{bit_or}
use hislip.Prelude.{
  ℕ, ◌≤◌, ◌<◌, ◌≡◌, ◌≢◌, ◌⊎◌, true, false, none, some, [], Bytes, if◌then◌else◌, arith,
}
use hislip.Errors.{Error, ok, err, err_unrecognized_control_code}
use hislip.Protocol.MessageType
use hislip.Protocol.Header.{Header, no_header, message_id, rmt_delivered}
use hislip.Server.Rmt.{rmt_queried}
use hislip.Server.Status.{status_byte, take_service_request, latch_service_request}
use hislip.Server.Locks.{code, release, try_request}
use hislip.Server.Session.{ready, require_ready, state_ready}
use hislip.Server.Device.{Device, mode_valid}
use hislip.Server.State.{State}
use hislip.Server.Config.{Config}
use hislip.Server.Locks.Waiting.{request}
use hislip.Server.Async.{
  status_query, service_request, remote_local, lock, maximum_message_size, lock_request,
  lock_release,
}

module _ {D : Type 0} where
  -- A status query on a ready session answers with the instrument's status byte, its MAV bit set by the
  -- MAV rules at the session's state before the query and RQS added if a service request is latched.
  -- It takes the latch, and clears RMT-expected exactly if it carries RMT-delivered. If the instrument
  -- cannot be read, its error is returned and the latch stays.
  pub status_query_lem :
      (dev : Device D) (h : Header) (s : State D)
      → h.type ≡ MessageType.async_status_query
      → s.sess.state ≡ state_ready
      → let r = status_query dev h s in
        ((b : ℕ)
          → (dev.read_status_byte s.dev).0 ≡ ok b
          → let reported = status_byte s.sess.status b (message_id h) (rmt_delivered h) in
            (r.0
              ≡ ok (record no_header {
                type = MessageType.async_status_response;
                control = if s.sess.status.srq_latched then bit_or reported 0x40 else reported;
              }))
            × (r.1.sess.status.srq_latched ≡ false))
        × ((e : Error)
            → (dev.read_status_byte s.dev).0 ≡ err e
            → (r.0 ≡ err e) × (r.1.sess.status ≡ s.sess.status))
        × (r.1.sess.rmt.expected ≡ (if rmt_delivered h then false else s.sess.rmt.expected))
        × (r.1.sess.tx ≡ s.sess.tx)
  unfolding status_query require_ready rmt_queried take_service_request
  status_query_lem dev h s t ready' = ground arith

  -- A service request is sent exactly if the session is ready and none is latched; then its status byte
  -- is the control code, and the request is latched.
  pub service_request_lem :
      (status : ℕ) (s : State D)
      → let r = service_request status s in
        (((s.sess.state ≡ state_ready)
            × (s.sess.status.srq_latched ≡ false)
            × (r.0
                ≡ some (record no_header {
                  type = MessageType.async_service_request;
                  control = status;
                }))
            × (r.1.sess.status.srq_latched ≡ true)
            × (r.1.sess.status.srq_status ≡ status))
          ⊎ (((s.sess.state ≢ state_ready) ⊎ (s.sess.status.srq_latched ≡ true))
              × (r.0 ≡ none)
              × (r.1.sess.status ≡ s.sess.status)))
  unfolding service_request ready latch_service_request
  service_request_lem status s = ground arith

  -- A release answers with what it released, and an exclusive lock goes before a shared one. A request
  -- without a timeout answers with the result of one attempt. Any other control code is unrecognized,
  -- and the locks are as they were.
  pub lock-answers :
      (h : Header) (key : Bytes) (s : State D)
      → h.type ≡ MessageType.async_lock
      → s.sess.state ≡ state_ready
      → let r = lock h key [] s in
        (h.control ≡ lock_release
          → (r.0
              ≡ ok (
                  some (record no_header {
                    type = MessageType.async_lock_response;
                    control = code (release s.locks s.sess.id).0;
                  })))
            × (r.1.locks ≡ (release s.locks s.sess.id).1))
        × (h.control ≡ lock_request
            → h.parameter ≡ 0
            → (r.0
                ≡ ok (
                    some (record no_header {
                      type = MessageType.async_lock_response;
                      control = code (try_request s.locks s.sess.id key).0;
                    })))
              × (r.1.locks ≡ (try_request s.locks s.sess.id key).1))
        × (h.control ≢ lock_release
            → h.control ≢ lock_request
            → r ≡ (err err_unrecognized_control_code, s))
  unfolding lock require_ready request
  lock-answers h key s t ready' = ground arith

  -- A mode that is not one of the seven does not reach the instrument; one that is does, and is answered
  -- exactly if the instrument took it.
  pub remote_local_lem :
      (dev : Device D) (h : Header) (s : State D)
      → h.type ≡ MessageType.async_remote_local_control
      → s.sess.state ≡ state_ready
      → (6 < h.control → remote_local dev h s ≡ (err err_unrecognized_control_code, s))
        × (h.control ≤ 6
            → let (e, d) = dev.remote_local s.dev h.control in
              ((remote_local dev h s).1 ≡ record s { dev = d })
              × (e ≡ none
                  → (remote_local dev h s).0
                    ≡ ok (record no_header { type = MessageType.async_remote_local_response })))
  unfolding remote_local require_ready mode_valid
  remote_local_lem dev h s t ready' = (λ big. ground arith, λ small. ground arith)

  -- The client's limit is taken over as the transmit limit from 256 bytes on; a smaller one is ignored.
  -- The answer is the server's own receive limit.
  pub maximum_message_size_lem :
      (cfg : Config) (client_max : ℕ) (s : State D)
      → let r = maximum_message_size cfg client_max s in
        (r.0
          ≡ ok (
            record no_header { type = MessageType.async_maximum_message_size_response; length = 8 },
            cfg.max_rx_payload,
          ))
        × ((256 ≤ client_max × (r.1.sess.max_tx ≡ client_max))
            ⊎ (client_max < 256 × (r.1.sess.max_tx ≡ s.sess.max_tx)))
        × (r.1.sess.max_rx ≡ s.sess.max_rx)
  unfolding maximum_message_size
  maximum_message_size_lem cfg client_max s = ground arith
