-- ===== src/Server.antt =====
-- The package server/: the session state machine.
pub mod Rmt
pub mod Status
pub mod Transaction
pub mod Locks
pub mod Policy
pub mod Device
pub mod Config
pub mod WireError
pub mod Session
pub mod State
pub mod Registry
pub mod Reader
pub mod Dispatch
pub mod Async
pub mod Data
pub mod Clear
pub mod Reports
pub mod Serve
pub mod Channels
pub mod Lifetimes
