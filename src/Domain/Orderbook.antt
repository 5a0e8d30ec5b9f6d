-- ===== src/Domain/Orderbook.antt =====
-- src/polymarket_trader/domain/orderbook.py: an orderbook snapshot.
pub mod Depth
use fdv.Base.{String, Option, none, some, List, [], ◌∷◌, if◌then◌else◌}
use fdv.Decimal.{Decimal, of_ℕ, add, sub, lt}
use fdv.Domain.Order.{Time}

pub record PriceLevel : Type 0 where
  pub price : Decimal
  pub size : Decimal

pub record OrderbookSnapshot : Type 0 where
  pub token_id : String
  pub best_bid : Option Decimal
  pub best_ask : Option Decimal
  pub bids : List PriceLevel
  pub asks : List PriceLevel
  pub received_at : Time
  pub market_slug : Option String
  pub condition_id : Option String
  pub best_bid_size : Option Decimal
  pub best_ask_size : Option Decimal
  pub last_trade_price : Option Decimal
  pub tick_size : Option Decimal

unfoldable pub spread : OrderbookSnapshot → Option Decimal
spread b = elim b.best_bid [
  | none ↦ none
  | some bid ↦ elim b.best_ask [ none ↦ none | some ask ↦ some (sub ask bid) ]
]

-- The loop of `buyable_ask_depth`: levels above the cap are passed over.
unfoldable pub ask_depth_from : Option Decimal → Decimal → List PriceLevel → Decimal
ask_depth_from max_price total [] = total
ask_depth_from none total (level ∷ levels) = ask_depth_from none (add total level.size) levels
ask_depth_from (some cap) total (level ∷ levels) =
    ask_depth_from (some cap) (if lt cap level.price then total else add total level.size) levels

unfoldable pub buyable_ask_depth : OrderbookSnapshot → Option Decimal → Decimal
unfolding ask_depth_from
buyable_ask_depth b max_price = ask_depth_from max_price (of_ℕ 0) b.asks
