-- ===== src/App/Projection.antt =====
-- src/polymarket_trader/app/order_projection.py: how order results are written onto the account. What
-- `utc_now()` reads is an argument, and `normalize_order_id` is the key of the store's open orders.
pub mod Amounts
pub mod Apply
pub mod Manage
pub mod Replace
pub mod Flags
pub mod Valid
pub mod Fills
pub mod Kept
pub mod Holdings
