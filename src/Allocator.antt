-- ===== src/Allocator.antt =====
-- internal/allocator: the command handlers of r1sd over its durable state.
pub mod Errors
pub mod ErrorsLaws
pub mod ReplayLaws
pub mod Ledger
pub mod State
pub mod Views
pub mod Admission
pub mod Offers
pub mod Assign
pub mod Cancel
pub mod Lease
pub mod Access
pub mod AccessLaws
pub mod Logs
pub mod LogsLaws
pub mod Accounts
pub mod Sound
pub mod SoundSections
pub mod SoundCancel
pub mod SoundRelease
pub mod Runtime
pub mod Replay
pub mod Eviction
pub mod EvictionLaws
pub mod Retention
pub mod System
pub mod SoundSystem
pub mod SoundRun
pub mod Rollback
pub mod Keys
pub mod SoundCollect
pub mod Recorded
pub mod Repeat
