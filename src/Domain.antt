-- ===== src/Domain.antt =====
-- polymarket_trader/domain: the business rules and the records that they work on.
pub mod Order
pub mod Intent
pub mod Market
pub mod Orderbook
pub mod Position
pub mod Account
pub mod Allocation
pub mod Risk
pub mod Fees
