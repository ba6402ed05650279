-- ===== src/Tests.antt =====
-- The code at concrete inputs: runs of the definitions, and the theorems applied.
pub mod Data
pub mod Memory
pub mod Settling
pub mod Calls
pub mod Backoff
pub mod Process
pub mod Draining
pub mod Keyspace
pub mod Ranges
pub mod Structures
pub mod Queueing
mod Lasting
mod Completing
pub mod Server
pub mod Sending
