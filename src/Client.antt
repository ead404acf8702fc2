-- ===== src/Client.antt =====
-- internal/client: the client's requests, its choice among offers, its leases and what it observes.
pub mod State
pub mod Catalog
pub mod Selection
pub mod Leases
pub mod Inbound
pub mod Commands
pub mod CatalogLaws
pub mod Evolution
pub mod Observed
pub mod Settled
pub mod SettledSelect
pub mod SettledInbound
pub mod System
pub mod SettledRun
pub mod LeaseLaws
