-- ===== src/Workers.antt =====
-- polymarket_trader/workers: the tasks beside the trading path.
pub mod Persistence
pub mod Reconcile
