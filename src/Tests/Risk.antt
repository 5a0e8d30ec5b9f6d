-- ===== src/Tests/Risk.antt =====
-- The order gate on a buy that it lets through and on one that is too large.
use fdv.Base.{true, ◌≡◌, refl, some}
use fdv.Decimal.{of_ℕ, evaluate}
use fdv.Domain.Risk.Types.{RiskRequest}
use fdv.Domain.Risk.Manager.{check_order_intent, run_gates}
use fdv.Domain.Risk.Gates.{
  check_order_size, check_classification, check_price_and_tick, check_price, check_tick,
  check_min_order_size, check_single_order, check_single_market, check_total, fail,
}
use fdv.Domain.Risk.Flags.{check_market_state, check_flags, flag_rows, check_market_status}
use fdv.Domain.Risk.Inputs.{
  resolve_market_flags, effective_tick_size, is_multiple_of_tick, effective_min_order_size,
  best_ask_depth, depth_from, filter_open_orders_for_subject, normalize_portfolio_total,
  open_buy_orders_for_subject, orderbook_depth_usdc,
}
use fdv.Domain.Risk.Limits.{
  check_exposure_limits, check_account_gates, check_allowance, check_balance, check_geoblock,
  check_liquidity, check_open_buy_orders, check_open_orders, check_operational_limits, check_retry,
}
use fdv.Domain.Allocation.{
  allocated_budget_usdc, current_exposure_usdc, order_exposure, orders_exposure, position_exposure,
  resting_amount, sum_by,
}
use fdv.Domain.Risk.Audit.{Audited, check_order_intent-Audited}
use fdv.Tests.Data.{buy_yes, request}

-- The same request with too small a balance.
abbrev poor : RiskRequest
poor = record request { balance_usdc = some (of_ℕ 9) }

check_order_intent-Audited_example : Audited "t1" (check_order_intent buy_yes poor)
check_order_intent-Audited_example = check_order_intent-Audited buy_yes poor

-- The first request passes; the second is refused for its balance, after the checks before it.
outcomes :
    ((check_order_intent buy_yes request).passed ≡ true)
    × ((check_order_intent buy_yes poor).reason ≡ "balance_insufficient")
unfolding check_order_intent run_gates evaluate check_order_size check_classification
    check_market_state check_flags flag_rows resolve_market_flags check_market_status
    check_price_and_tick check_price check_tick effective_tick_size is_multiple_of_tick
    check_min_order_size effective_min_order_size check_exposure_limits check_single_order
    check_single_market check_total allocated_budget_usdc current_exposure_usdc order_exposure
    orders_exposure position_exposure resting_amount sum_by fail best_ask_depth depth_from
    filter_open_orders_for_subject normalize_portfolio_total open_buy_orders_for_subject
    orderbook_depth_usdc check_account_gates check_allowance check_balance check_geoblock
    check_liquidity check_open_buy_orders check_open_orders check_operational_limits check_retry
outcomes = (refl, refl)
