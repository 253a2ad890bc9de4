-- ===== src/Protocol.antt =====
-- The package protocol/: the wire format.
pub mod Version
pub mod MessageType
pub mod MessageId
pub mod ErrorCode
pub mod Header
pub mod Stream
pub mod Codec
