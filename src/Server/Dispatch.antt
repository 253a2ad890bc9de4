-- ===== src/Server/Dispatch.antt =====
-- server/dispatch.go: the classes of messages, and which messages a session accepts.
pub mod Accepts
use hislip.Prelude.{ℕ, Bool, true, false, not, ◌&&◌, ◌||◌, Option, none, some, ◌==◌, if◌then◌else◌}
use hislip.Errors.{
  Error, Result, ok, err, err_reserved_message_type, err_unknown_message_type, err_wrong_channel,
  err_protocol_version, fail_if,
}
use hislip.Protocol.Version.{less}
use hislip.Protocol.MessageType
use hislip.Protocol.MessageType.{
  Channel, reserved, defined, vendor_specific, legal_on, min_version_of,
}
use hislip.Protocol.Header.{Header}
use hislip.Protocol.Codec.{check_length}
use hislip.Server.Session.{Session, require_ready}
use hislip.Server.Config.{Config}

pub data Class : Type 0 where
  class_no_bus class_preempt_abandon class_preempt_resume class_boundary : Class
  class_sync_ordered class_lifecycle class_undefined : Class

unfoldable pub queued : Class → Bool
queued class_preempt_abandon = true
queued class_preempt_resume = true
queued class_boundary = true
queued class_sync_ordered = true
queued _ = false

unfoldable pub preempts : Class → Bool
preempts class_preempt_abandon = true
preempts class_preempt_resume = true
preempts _ = false

unfoldable pub ordered : Class → Bool
ordered class_sync_ordered = true
ordered _ = false

unfoldable pub class_of : ℕ → Class
unfolding vendor_specific
class_of t =
    if t == MessageType.async_lock
      || t == MessageType.async_lock_info
      || t == MessageType.async_maximum_message_size
    then class_no_bus
    else if t == MessageType.async_device_clear
    then class_preempt_abandon
    else if t == MessageType.async_status_query
    then class_preempt_resume
    else if t == MessageType.async_remote_local_control
    then class_boundary
    else if t == MessageType.data_message || t == MessageType.data_end || t == MessageType.trigger
    then class_sync_ordered
    else if t == MessageType.initialize
        || t == MessageType.async_initialize
        || t == MessageType.device_clear_complete
        || t == MessageType.error
        || t == MessageType.fatal_error
    then class_lifecycle
    else if vendor_specific t
    then class_sync_ordered
    else class_undefined

abbrev pub is_undefined : Class → Bool
is_undefined class_undefined = true
is_undefined _ = false

abbrev pub is_lifecycle : Class → Bool
is_lifecycle class_lifecycle = true
is_lifecycle _ = false

abbrev pub is_sync_ordered : Class → Bool
is_sync_ordered class_sync_ordered = true
is_sync_ordered _ = false

abbrev older : Option Session → ℕ → Bool
older none t = false
older (some sess) t = less sess.version (min_version_of t)

abbrev limit_of : Config → Option Session → ℕ
limit_of cfg none = cfg.max_rx_payload
limit_of cfg (some sess) = sess.max_rx

abbrev ready_for : Class → Option Session → Result (Unit {0})
ready_for class none = ok tt
ready_for class (some sess) = if is_lifecycle class then ok tt else require_ready sess

abbrev beside : Class → Result (Unit {0}) → Class × Result (Unit {0})
beside class r = (class, r)

-- Behind the length check.
abbrev after_length : Class → Option Session → Result (Unit {0}) → Class × Result (Unit {0})
after_length class sess (err e) = (class, err e)
after_length class sess (ok _) = (class, ready_for class sess)

-- Server.Accept: the class, and the error if the message is refused. A session may be absent.
unfoldable pub accept : Config → Option Session → Header → Channel → Class × Result (Unit {0})
unfolding reserved defined vendor_specific legal_on less min_version_of class_of check_length
    require_ready
accept cfg sess h channel =
    if reserved h.type
    then (class_undefined, err err_reserved_message_type)
    else if not (defined h.type) && not (vendor_specific h.type)
    then (class_undefined, err err_unknown_message_type)
    else if not (legal_on h.type channel)
    then (class_undefined, err err_wrong_channel)
    else if older sess h.type
    then (class_undefined, err err_protocol_version)
    else if is_undefined (class_of h.type)
    then (class_of h.type, err err_unknown_message_type)
    else after_length (class_of h.type) sess (check_length h.length (limit_of cfg sess))
