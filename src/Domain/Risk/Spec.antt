-- ===== src/Domain/Risk/Spec.antt =====
-- When an order is admissible, said without the order of the gates: what `RiskManager` is for.
use fdv.Base.{ℕ, ◌*◌, ◌^◌, ◌≡◌, ◌≢◌, true, false, Option, some, All}
use fdv.Base.Integer.{ℤ, pos, ◌≤ℤ◌, magnitude}
use fdv.Decimal.{Decimal, of_ℕ, add, ◌≼◌, ◌≺◌}
use fdv.Domain.Order.{TradableOrderIntent, OrderRecord, OrderSide}
use fdv.Domain.Intent
use fdv.Domain.Market.{Market, TradingStatus}
use fdv.Domain.Orderbook.{OrderbookSnapshot}
use fdv.Domain.Risk.Types.{RiskRequest}
use fdv.Domain.Risk.Inputs.{
  MarketFlags, intent_notional_usdc, resolve_market_flags, effective_min_order_size,
  effective_tick_size, orderbook_depth_usdc, orders_count, is_settled,
}
use fdv.Domain.Risk.Manager.{market_exposure, portfolio_total}

-- `price` is `n` times `tick` for a natural number `n`, up to sign.
abbrev pub IsMultipleOf : Decimal → Decimal → Type 0
IsMultipleOf tick price =
    (n : ℕ) × (magnitude price.coef * 10 ^ tick.scale
      ≡ n * (magnitude tick.coef * 10 ^ price.scale))

abbrev pub FlagsOk : MarketFlags → Type 0
FlagsOk f =
    (f.market_active ≡ true)
    × (f.market_open ≡ true)
    × (f.clob_enabled ≡ true)
    × (f.resolved ≡ false)
    × (f.cancelled ≡ false)
    × (f.archived ≡ false)

abbrev pub StatusOk : Option Market → Type 0
StatusOk market = (m : Market) → market ≡ some m → m.trading_status ≡ TradingStatus.eligible

abbrev pub TickOk : Decimal → Option Decimal → Type 0
TickOk price tick = (t : Decimal) → tick ≡ some t → (of_ℕ 0 ≺ t) × IsMultipleOf t price

abbrev pub Within : Decimal → Option Decimal → Type 0
Within x limit = (m : Decimal) → limit ≡ some m → x ≼ m

abbrev pub Below : ℤ → Option ℤ → Type 0
Below n limit = (m : ℤ) → limit ≡ some m → ¬ (m ≤ℤ n)

abbrev pub RetryOk : ℤ → Option ℤ → Type 0
RetryOk n limit = (m : ℤ) → limit ≡ some m → pos 0 ≤ℤ n → ¬ (m ≤ℤ n)

abbrev pub LiquidityOk : TradableOrderIntent → Option OrderbookSnapshot → Decimal → Type 0
LiquidityOk i orderbook notional =
    (b : OrderbookSnapshot)
    → orderbook ≡ some b
    → notional ≼ orderbook_depth_usdc b (Intent.price i)

-- An order does not rest on the buying side of the intent's token.
abbrev pub NotRestingBuy : TradableOrderIntent → OrderRecord → Type 0
NotRestingBuy i o =
    o.condition_id ≡ Intent.condition_id i
    → o.token_id ≡ Intent.token_id i
    → o.side ≡ OrderSide.buy
    → is_settled o.status ≡ true

pub record Admissible (i : TradableOrderIntent) (r : RiskRequest) : Type 0 where
  pub has_size : of_ℕ 0 ≺ intent_notional_usdc i
  pub classified : r.classification_passed ≢ some false
  pub flags_ok : FlagsOk (resolve_market_flags r)
  pub status_ok : StatusOk r.market
  pub price_positive : of_ℕ 0 ≺ Intent.price i
  pub tick_ok : TickOk (Intent.price i) (effective_tick_size r.market r.orderbook)
  pub minimum_met : effective_min_order_size r.market r.min_order_size ≼ intent_notional_usdc i
  pub order_limit : Within (intent_notional_usdc i) r.max_order_usdc
  pub market_limit : Within (add (market_exposure i r) (intent_notional_usdc i)) r.max_market_usdc
  pub total_limit : Within (add (portfolio_total i r) (intent_notional_usdc i)) r.max_total_usdc
  pub orders_limit : Below (orders_count r) r.max_open_orders
  pub retry_ok : RetryOk r.retry_count r.order_retry_limit
  pub not_geoblocked : r.geoblocked ≡ false
  pub balance_ok : Within (intent_notional_usdc i) r.balance_usdc
  pub allowance_ok : Within (intent_notional_usdc i) r.allowance_usdc
  pub liquidity_ok : LiquidityOk i r.orderbook (intent_notional_usdc i)
  pub no_resting_buy : All (NotRestingBuy i) r.open_orders
