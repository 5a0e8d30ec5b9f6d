-- ===== src/Domain/Risk/Inputs.antt =====
-- domain/risk.py: the values that `check_order_intent` derives from its arguments.
use fdv.Base.{
  Bool, true, false, ◌&&◌, Option, none, some, List, [], ◌∷◌, filter_by, get_or, or_else, ◌==◌,
  string_eq, if◌then◌else◌, length,
}
use fdv.Base.Integer.{ℤ, pos}
use fdv.Decimal.{Decimal, of_ℕ, add, sub, mul, divides, le, lt, same_value}
use fdv.Domain.Order.{TradableOrderIntent, OrderRecord, OrderStatus, is_buy}
use fdv.Domain.Intent
use fdv.Domain.Market.{Market, is_eligible, is_resolved}
use fdv.Domain.Orderbook.{OrderbookSnapshot, PriceLevel}
use fdv.Domain.Allocation.{AllocationPlan, allocated_budget_usdc}
use fdv.Domain.Risk.Types.{RiskRequest}

-- `_intent_notional_usdc`: both kinds of intent have a notional, so the source's other branches
-- are not reached.
abbrev pub intent_notional_usdc : TradableOrderIntent → Decimal
intent_notional_usdc i = Intent.notional_usdc i

-- `_normalize_portfolio_total`
unfoldable pub normalize_portfolio_total :
    TradableOrderIntent → Option AllocationPlan → Option Decimal → Decimal
normalize_portfolio_total i plan (some total) = if lt total (of_ℕ 0) then of_ℕ 0 else total
normalize_portfolio_total i none none = of_ℕ 0
normalize_portfolio_total i (some p) none =
    let total = sub (allocated_budget_usdc p) (intent_notional_usdc i) in
    if lt total (of_ℕ 0) then of_ℕ 0 else total

pub record MarketFlags : Type 0 where
  pub market_active : Bool
  pub market_open : Bool
  pub clob_enabled : Bool
  pub resolved : Bool
  pub cancelled : Bool
  pub archived : Bool

-- What a market's status says of a flag that the caller left open.
abbrev pub eligible_or_true : Option Market → Bool
eligible_or_true none = true
eligible_or_true (some m) = is_eligible m.trading_status

abbrev pub resolved_or_false : Option Market → Bool
resolved_or_false none = false
resolved_or_false (some m) = is_resolved m.trading_status

-- `_resolve_market_flags`: what is not said is read off the market, or has its default.
unfoldable pub resolve_market_flags : RiskRequest → MarketFlags
resolve_market_flags r = record {
  market_active = get_or r.market_active (eligible_or_true r.market);
  market_open = get_or r.market_open (eligible_or_true r.market);
  clob_enabled = get_or r.clob_enabled true;
  resolved = get_or r.resolved (resolved_or_false r.market);
  cancelled = get_or r.cancelled false;
  archived = get_or r.archived false;
}

-- `_effective_min_order_size`: the larger of the market's and the caller's minimum.
unfoldable pub effective_min_order_size : Option Market → Option Decimal → Decimal
effective_min_order_size none none = of_ℕ 0
effective_min_order_size none (some m) = m
effective_min_order_size (some market) none = market.min_order_size
effective_min_order_size (some market) (some m) =
    if lt market.min_order_size m then m else market.min_order_size

-- `_effective_tick_size`: the orderbook's, or else the market's.
unfoldable pub effective_tick_size : Option Market → Option OrderbookSnapshot → Option Decimal
effective_tick_size market none = elim market [ none ↦ none | some m ↦ some m.tick_size ]
effective_tick_size market (some book) =
    or_else book.tick_size (elim market [ none ↦ none | some m ↦ some m.tick_size ])

-- `_is_multiple_of_tick`
unfoldable pub is_multiple_of_tick : Decimal → Decimal → Bool
is_multiple_of_tick price tick_size =
    if le tick_size (of_ℕ 0) then false else divides tick_size price

-- The loop of `_orderbook_depth_usdc`.
unfoldable pub depth_from : Decimal → Decimal → List PriceLevel → Decimal
depth_from price_cap depth [] = depth
depth_from price_cap depth (level ∷ levels) =
    depth_from price_cap
      (if le level.price price_cap then add depth (mul level.price level.size) else depth) levels

-- The last lines of `_orderbook_depth_usdc`: the best ask stands in for an empty ladder.
unfoldable pub best_ask_depth : Decimal → Option Decimal → Option Decimal → Decimal → Decimal
best_ask_depth depth none best_ask_size price_cap = depth
best_ask_depth depth (some ask) none price_cap = depth
best_ask_depth depth (some ask) (some size) price_cap =
    if same_value depth (of_ℕ 0) && le ask price_cap then mul ask size else depth

unfoldable pub orderbook_depth_usdc : OrderbookSnapshot → Decimal → Decimal
unfolding depth_from best_ask_depth
orderbook_depth_usdc book price_cap =
    best_ask_depth (depth_from price_cap (of_ℕ 0) book.asks) book.best_ask book.best_ask_size
      price_cap

-- An order is about the intent's market and token.
abbrev pub concerns : TradableOrderIntent → OrderRecord → Bool
concerns i o = o.condition_id == Intent.condition_id i && o.token_id == Intent.token_id i

-- `_filter_open_orders_for_subject`
unfoldable pub filter_open_orders_for_subject :
    List OrderRecord → TradableOrderIntent → List OrderRecord
filter_open_orders_for_subject open_orders i = filter_by (concerns i) open_orders

-- The statuses that `_open_buy_orders_for_subject` passes over.
abbrev pub is_settled : OrderStatus → Bool
is_settled OrderStatus.cancelled = true
is_settled OrderStatus.rejected = true
is_settled OrderStatus.failed = true
is_settled OrderStatus.no_fill = true
is_settled OrderStatus.matched = true
is_settled _ = false

-- `_open_buy_orders_for_subject`
unfoldable pub open_buy_orders_for_subject :
    List OrderRecord → TradableOrderIntent → List OrderRecord
open_buy_orders_for_subject open_orders i =
    filter_by
      (λ o. concerns i o && (is_buy o.side && (if is_settled o.status then false else true)))
      open_orders

-- `len(open_orders) if open_orders_count is None else open_orders_count`
abbrev pub orders_count : RiskRequest → ℤ
orders_count r = get_or r.open_orders_count (pos (length r.open_orders))
