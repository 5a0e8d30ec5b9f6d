-- ===== src/Tests.antt =====
-- The theorems at concrete inputs, by the part of the program.
pub mod Data
mod Risk
mod Domain
mod Stores
mod Bus
mod Outbox
mod Execution
mod Persistence
mod Scheduler
mod Supervisor
mod Trading
mod Reconcile
mod Projection
