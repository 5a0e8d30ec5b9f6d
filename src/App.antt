-- ===== src/App.antt =====
-- src/polymarket_trader/app: the services between the workers and the stores.
pub mod Projection
pub mod Trading
pub mod Decisions
pub mod Reconcile
