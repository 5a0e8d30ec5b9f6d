-- ===== src/Infra.antt =====
-- src/polymarket_trader/infra: what stands between the program and the exchange.
pub mod Executor
