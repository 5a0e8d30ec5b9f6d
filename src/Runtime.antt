-- ===== src/Runtime.antt =====
-- polymarket_trader/runtime: the state that the workers share.
pub mod AccountStore
pub mod Registry
pub mod EventBus
pub mod Scheduler
pub mod Values
pub mod Supervisor
