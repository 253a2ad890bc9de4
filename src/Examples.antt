-- ===== src/Examples.antt =====
-- The theorems at concrete inputs.
pub mod Instrument
pub mod Wire
pub mod Locking
pub mod Policies
pub mod Sessions
pub mod Responses
pub mod Connections
pub mod Lifetimes
pub mod Listening
pub mod Reading
