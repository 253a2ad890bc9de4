-- ===== src/Protocol/MessageType.antt =====
-- protocol/constants.go: message types, channels, capabilities and the table of message properties.
-- A message type is the byte on the wire, so that undefined types are values too.
pub mod Classes
use hislip.Prelude.{
  ℕ, Bool, true, false, not, ◌&&◌, Option, none, some, List, [], ◌∷◌, ltb, leb, String, get_elem?,
  if◌then◌else◌,
}
use hislip.Protocol.Version.{Version, version10, version20}

abbrev pub MessageType : Type 0
MessageType = ℕ

abbrev pub initialize : MessageType
initialize = 0

abbrev pub initialize_response : MessageType
initialize_response = 1

abbrev pub fatal_error : MessageType
fatal_error = 2

abbrev pub error : MessageType
error = 3

abbrev pub async_lock : MessageType
async_lock = 4

abbrev pub async_lock_response : MessageType
async_lock_response = 5

abbrev pub data_message : MessageType
data_message = 6

abbrev pub data_end : MessageType
data_end = 7

abbrev pub device_clear_complete : MessageType
device_clear_complete = 8

abbrev pub device_clear_acknowledge : MessageType
device_clear_acknowledge = 9

abbrev pub async_remote_local_control : MessageType
async_remote_local_control = 10

abbrev pub async_remote_local_response : MessageType
async_remote_local_response = 11

abbrev pub trigger : MessageType
trigger = 12

abbrev pub interrupted : MessageType
interrupted = 13

abbrev pub async_interrupted : MessageType
async_interrupted = 14

abbrev pub async_maximum_message_size : MessageType
async_maximum_message_size = 15

abbrev pub async_maximum_message_size_response : MessageType
async_maximum_message_size_response = 16

abbrev pub async_initialize : MessageType
async_initialize = 17

abbrev pub async_initialize_response : MessageType
async_initialize_response = 18

abbrev pub async_device_clear : MessageType
async_device_clear = 19

abbrev pub async_service_request : MessageType
async_service_request = 20

abbrev pub async_status_query : MessageType
async_status_query = 21

abbrev pub async_status_response : MessageType
async_status_response = 22

abbrev pub async_device_clear_acknowledge : MessageType
async_device_clear_acknowledge = 23

abbrev pub async_lock_info : MessageType
async_lock_info = 24

abbrev pub async_lock_info_response : MessageType
async_lock_info_response = 25

abbrev pub reserved_min : MessageType
reserved_min = 39

abbrev pub vendor_specific_min : MessageType
vendor_specific_min = 128

pub data Channel : Type 0 where
  channel_none channel_synchronous channel_asynchronous channel_either : Channel

pub data Capability : Type 0 where
  capability_general capability_secure_connection : Capability

pub record MessageInfo : Type 0 where
  pub name : String
  pub channel : Channel
  pub capability : Capability
  pub min_version : Version

abbrev row : String → Channel → Capability → Version → MessageInfo
row name channel capability min_version = record {
  name = name;
  channel = channel;
  capability = capability;
  min_version = min_version;
}

abbrev general : String → Channel → MessageInfo
general name channel = row name channel capability_general version10

abbrev secure : String → Channel → MessageInfo
secure name channel = row name channel capability_secure_connection version20

unfoldable pub messages : List MessageInfo
messages =
    general "Initialize" channel_synchronous
    ∷ general "InitializeResponse" channel_synchronous
    ∷ general "FatalError" channel_either
    ∷ general "Error" channel_either
    ∷ general "AsyncLock" channel_asynchronous
    ∷ general "AsyncLockResponse" channel_asynchronous
    ∷ general "Data" channel_synchronous
    ∷ general "DataEnd" channel_synchronous
    ∷ general "DeviceClearComplete" channel_synchronous
    ∷ general "DeviceClearAcknowledge" channel_synchronous
    ∷ general "AsyncRemoteLocalControl" channel_asynchronous
    ∷ general "AsyncRemoteLocalResponse" channel_asynchronous
    ∷ general "Trigger" channel_synchronous
    ∷ general "Interrupted" channel_synchronous
    ∷ general "AsyncInterrupted" channel_asynchronous
    ∷ general "AsyncMaximumMessageSize" channel_asynchronous
    ∷ general "AsyncMaximumMessageSizeResponse" channel_asynchronous
    ∷ general "AsyncInitialize" channel_asynchronous
    ∷ general "AsyncInitializeResponse" channel_asynchronous
    ∷ general "AsyncDeviceClear" channel_asynchronous
    ∷ general "AsyncServiceRequest" channel_asynchronous
    ∷ general "AsyncStatusQuery" channel_asynchronous
    ∷ general "AsyncStatusResponse" channel_asynchronous
    ∷ general "AsyncDeviceClearAcknowledge" channel_asynchronous
    ∷ general "AsyncLockInfo" channel_asynchronous
    ∷ general "AsyncLockInfoResponse" channel_asynchronous
    ∷ row "GetDescriptors" channel_either capability_general version20
    ∷ row "GetDescriptorsResponse" channel_either capability_general version20
    ∷ secure "StartTLS" channel_synchronous
    ∷ secure "AsyncStartTLS" channel_asynchronous
    ∷ secure "AsyncStartTLSResponse" channel_asynchronous
    ∷ secure "EndTLS" channel_synchronous
    ∷ secure "AsyncEndTLS" channel_asynchronous
    ∷ secure "AsyncEndTLSResponse" channel_asynchronous
    ∷ secure "GetSaslMechanismList" channel_synchronous
    ∷ secure "GetSaslMechanismListResponse" channel_synchronous
    ∷ secure "AuthenticationStart" channel_synchronous
    ∷ secure "AuthenticationExchange" channel_synchronous
    ∷ secure "AuthenticationResult" channel_synchronous
    ∷ []

-- `messages[t]`, where that is in range.
unfoldable pub message_info : MessageType → Option MessageInfo
unfolding messages
message_info t = get_elem? messages t

abbrev pub is_none : Channel → Bool
is_none channel_none = true
is_none _ = false

unfoldable pub defined : MessageType → Bool
unfolding message_info
defined t = elim (message_info t) [ none ↦ false | some info ↦ not (is_none info.channel) ]

unfoldable pub vendor_specific : MessageType → Bool
vendor_specific t = leb vendor_specific_min t

unfoldable pub reserved : MessageType → Bool
reserved t = leb reserved_min t && ltb t vendor_specific_min

abbrev pub channel_or_none : Option MessageInfo → Channel
channel_or_none none = channel_none
channel_or_none (some info) = info.channel

-- MessageType.Channel.
unfoldable pub channel_of : MessageType → Channel
unfolding defined vendor_specific message_info
channel_of t =
    if vendor_specific t
    then channel_either
    else if not (defined t)
    then channel_none
    else channel_or_none (message_info t)

-- A message on channel `c`, where its type's channel is the second argument.
abbrev pub channel_allows : Channel → Channel → Bool
channel_allows channel_synchronous channel_synchronous = true
channel_allows channel_synchronous channel_either = true
channel_allows channel_asynchronous channel_asynchronous = true
channel_allows channel_asynchronous channel_either = true
channel_allows _ _ = false

unfoldable pub legal_on : MessageType → Channel → Bool
unfolding channel_of
legal_on t c = channel_allows c (channel_of t)

-- The zero Version for types that are not defined.
unfoldable pub min_version_of : MessageType → Version
unfolding defined message_info
min_version_of t = elim (message_info t) [
  | none ↦ record { major = 0; minor = 0 }
  | some info ↦ if defined t then info.min_version else record { major = 0; minor = 0 }
]

unfoldable pub capability_of : MessageType → Capability
unfolding defined message_info
capability_of t = elim (message_info t) [
  | none ↦ capability_general
  | some info ↦ if defined t then info.capability else capability_general
]

-- MessageType.String.
unfoldable pub name_of : MessageType → String
unfolding defined vendor_specific message_info
name_of t = elim (message_info t) [
  | none ↦ if vendor_specific t then "VendorSpecific" else "Reserved"
  | some info ↦ info.name
]
