-- ===== src/Domain/Risk/Manager.antt =====
-- domain/risk.py: `RiskManager.check_order_intent`, the gates in their order.
use fdv.Base.{true, false, none, []}
use fdv.Decimal.{Decimal}
use fdv.Domain.Order.{TradableOrderIntent}
use fdv.Domain.Intent
use fdv.Domain.Allocation.{current_exposure_usdc}
use fdv.Domain.Risk.Types.{RiskDecision, RiskRequest, Gate, go, stop, ◌>>=◌}
use fdv.Domain.Risk.Inputs.{
  intent_notional_usdc, normalize_portfolio_total, resolve_market_flags, effective_min_order_size,
  filter_open_orders_for_subject, orders_count,
}
use fdv.Domain.Risk.Gates.{
  check_order_size, check_classification, check_price_and_tick, check_min_order_size,
}
use fdv.Domain.Risk.Flags.{check_market_state}
use fdv.Domain.Risk.Limits.{
  check_exposure_limits, check_operational_limits, check_account_gates, check_liquidity,
  check_open_buy_orders,
}

-- The exposure that the market already has.
abbrev pub market_exposure : TradableOrderIntent → RiskRequest → Decimal
market_exposure i r =
    current_exposure_usdc r.position (filter_open_orders_for_subject r.open_orders i)

abbrev pub portfolio_total : TradableOrderIntent → RiskRequest → Decimal
portfolio_total i r = normalize_portfolio_total i r.allocation_plan r.portfolio_total_invested_usdc

-- The gates up to the first one that fails.
unfoldable pub run_gates : TradableOrderIntent → RiskRequest → Gate
run_gates i r =
    let notional = intent_notional_usdc i in
    check_order_size i notional []
    >>= check_classification i r.classification_passed r.classification_reason
    >>= check_market_state i r.market (resolve_market_flags r)
    >>= check_price_and_tick i r.market r.orderbook
    >>= check_min_order_size i notional (effective_min_order_size r.market r.min_order_size)
    >>= check_exposure_limits i notional (market_exposure i r) (portfolio_total i r)
        r.max_order_usdc r.max_market_usdc r.max_total_usdc
    >>= check_operational_limits i (orders_count r) r.max_open_orders r.retry_count
        r.order_retry_limit
    >>= check_account_gates i notional r.geoblocked r.balance_usdc r.allowance_usdc
    >>= check_liquidity i r.orderbook notional
    >>= check_open_buy_orders i r.open_orders

abbrev pub conclude : TradableOrderIntent → Gate → RiskDecision
conclude i (stop d) = d
conclude i (go checks) = record {
  passed = true;
  reason = "passed";
  trace_id = Intent.trace_id i;
  failed_field = none;
  suggested_action = "submit";
  retryable = false;
  checks = checks;
}

unfoldable pub check_order_intent : TradableOrderIntent → RiskRequest → RiskDecision
unfolding run_gates
check_order_intent i r = conclude i (run_gates i r)
