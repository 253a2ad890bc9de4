-- ===== src/Server/Async.antt =====
-- server/async.go: the operations of the asynchronous channel, and MaximumMessageSize of
-- server/initialize.go.
pub mod Answers
use Prim.Native.Nat.{bit_or}
use hislip.Prelude.{
  ℕ, ◌+◌, ◌%◌, ◌^◌, Bool, true, false, not, Option, none, some, Bytes, leb, ◌==◌, if◌then◌else◌,
  List, [], ◌∷◌,
}
use hislip.Errors.{Error, Result, ok, err, err_unknown_message_type, err_unrecognized_control_code}
use hislip.Protocol.MessageType
use hislip.Protocol.Header.{Header, no_header, message_id, rmt_delivered}
use hislip.Server.Rmt.{rmt_queried}
use hislip.Server.Status.{status_byte, take_service_request, latch_service_request, status_rqs}
use hislip.Server.Locks.{LockManager, LockResult, code, release, info}
use hislip.Server.Locks.Waiting.{Waiting, Round, request}
use hislip.Server.Session.{Session, require_ready, ready}
use hislip.Server.Config.{Config}
use hislip.Server.Device.{Device, mode_valid}
use hislip.Server.State.{State, M, and_then, ◌>>=◌, ◌>>◌, pure, fail, change, lift, get_session}
use hislip.Server.Data.{dev_result}

abbrev pub lock_release : ℕ
lock_release = 0

abbrev pub lock_request : ℕ
lock_request = 1

-- The smallest transmit limit that is honoured.
abbrev pub min_maximum_message_size : ℕ
min_maximum_message_size = 256

module _ {D : Type 0} where
  -- `if h.Type != t { return ErrUnknownMessageType }`, then requireReady.
  abbrev pub guard_ready : Header → ℕ → M D (Unit {0})
  guard_ready h t s =
      if not (h.type == t) then (err err_unknown_message_type, s) else (require_ready s.sess, s)

  abbrev read_status : Result ℕ × D → State D → Result ℕ × State D
  read_status (r, d) s = (r, record s { dev = d })

  -- The status byte, with RQS where the latch was set, and the latch taken.
  abbrev report : ℕ → Bool × State D → Result Header × State D
  report stb (latched, s) = (
    ok (record no_header {
      type = MessageType.async_status_response;
      control = if latched then bit_or stb status_rqs else stb;
    }),
    s,
  )

  abbrev take_latch : State D → Bool × State D
  take_latch s =
      let (latched, status) = take_service_request s.sess.status in
      (latched, record s { sess = record (s.sess) { status = status } })

  unfoldable pub status_query : Device D → Header → M D Header
  unfolding require_ready rmt_delivered rmt_queried message_id status_byte take_service_request
  status_query dev h = do
    guard_ready h MessageType.async_status_query
    change (λ x. record x { rmt = rmt_queried x.rmt (rmt_delivered h) })
    device ← (λ s. read_status (dev.read_status_byte s.dev) s)
    sess ← get_session
    (λ s. report (status_byte sess.status device (message_id h) (rmt_delivered h)) (take_latch s))

  -- ServiceRequest: the message to send, if it is to be sent.
  unfoldable pub service_request : ℕ → State D → Option Header × State D
  unfolding ready latch_service_request
  service_request status s =
      if not (ready s.sess)
      then (none, s)
      else let (new, latched) = latch_service_request s.sess.status status in
        (
          if new
              then some
                  (record no_header { type = MessageType.async_service_request; control = status })
              else none,
          record s { sess = record (s.sess) { status = latched } },
        )

  unfoldable pub remote_local : Device D → Header → M D Header
  unfolding require_ready mode_valid
  remote_local dev h =
      guard_ready h MessageType.async_remote_local_control
      >> (λ s.
          if not (mode_valid h.control)
          then (err err_unrecognized_control_code, s)
          else dev_result (dev.remote_local s.dev h.control) s)
      >> pure (record no_header { type = MessageType.async_remote_local_response })

-- A request that still waits when its rounds end has no response yet.
abbrev lock_response : LockResult → Header
lock_response r = record no_header { type = MessageType.async_lock_response; control = code r }

abbrev some_response : Option LockResult → Option Header
some_response none = none
some_response (some r) = some (lock_response r)

module _ {D : Type 0} where
  abbrev set_waiting : Waiting → State D → Result (Option Header) × State D
  set_waiting w s = (ok (some_response w.result), record s { locks = w.manager })

  abbrev set_released : LockResult × LockManager → State D → Result (Option Header) × State D
  set_released (r, m) s = (ok (some (lock_response r)), record s { locks = m })

  -- Server.Lock, over the rounds of the other sessions' calls during a request that waits.
  unfoldable pub lock : Header → Bytes → List Round → M D (Option Header)
  unfolding require_ready request release
  lock h lock_string rounds = guard_ready h MessageType.async_lock >> (λ s.
      if h.control == lock_request
      then set_waiting (request s.locks s.sess.id lock_string h.parameter rounds) s
      else if h.control == lock_release
      then set_released (release s.locks s.sess.id) s
      else (err err_unrecognized_control_code, s))

  unfoldable pub lock_info : Header → M D Header
  unfolding require_ready info
  lock_info h = guard_ready h MessageType.async_lock_info >> (λ s.
      let (exclusive, holders) = info s.locks in
      (
        ok (record no_header {
          type = MessageType.async_lock_info_response;
          control = if exclusive then 1 else 0;
          parameter = holders % 2 ^ 32;
        }),
        s,
      ))

-- MaximumMessageSize: the response with the size for its payload.
unfoldable pub maximum_message_size : {D : Type 0} → Config → ℕ → M D (Header × ℕ)
maximum_message_size cfg client_max =
    change
      (λ x. if leb min_maximum_message_size client_max then record x { max_tx = client_max } else x)
    >> pure (
      record no_header { type = MessageType.async_maximum_message_size_response; length = 8 },
      cfg.max_rx_payload,
    )
