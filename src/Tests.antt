-- ===== src/Tests.antt =====
-- The theorems at concrete inputs.
pub mod Wire
pub mod Commands
mod Streams
pub mod Logs
mod Access
mod ClientRuns
