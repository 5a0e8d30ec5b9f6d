-- ===== src/Domain/Risk/Limits.antt =====
-- domain/risk.py: the gates on the order count, the account, the liquidity and resting BUY orders.
use fdv.Base.{
  String, Bool, true, not, ◌&&◌, Option, none, some, List, [], ◌∷◌, ◌++◌, map, is_empty, text_or,
  if◌then◌else◌, text_or?,
}
use fdv.Base.Integer.{ℤ, pos, leb_ℤ}
use fdv.Decimal.{Decimal, lt}
use fdv.Domain.Order.{TradableOrderIntent, OrderRecord}
use fdv.Domain.Intent
use fdv.Domain.Orderbook.{OrderbookSnapshot}
use fdv.Domain.Risk.Types.{flag, number, amounts, numbers, names, RiskCheck, Gate, go, ◌>>=◌}
use fdv.Domain.Risk.Inputs.{orderbook_depth_usdc, open_buy_orders_for_subject}
use fdv.Domain.Risk.Gates.{
  passed_check, fail, failure, within_limit, check_single_order, check_single_market, check_total,
}

unfoldable pub check_exposure_limits :
    TradableOrderIntent
    → Decimal
    → Decimal
    → Decimal
    → Option Decimal
    → Option Decimal
    → Option Decimal
    → List RiskCheck
    → Gate
check_exposure_limits i notional exposure total max_order max_market max_total checks =
    check_single_order i notional max_order checks
    >>= check_single_market i notional exposure max_market
    >>= check_total i notional total max_total

-- A count stays below a limit that is set.
abbrev pub below_limit : ℤ → Option ℤ → Bool
below_limit n none = true
below_limit n (some m) = not (leb_ℤ m n)

unfoldable pub check_open_orders : TradableOrderIntent → ℤ → Option ℤ → List RiskCheck → Gate
check_open_orders i n none checks = go checks
check_open_orders i n (some m) checks =
    if below_limit n (some m)
    then go checks
    else fail (Intent.trace_id i) checks (
        failure "open_orders_gate" "open_orders_limit_reached" "open_orders_count"
          "cancel_open_orders" (numbers (("open_orders_count", n) ∷ ("max_open_orders", m) ∷ [])))

unfoldable pub check_retry : TradableOrderIntent → ℤ → Option ℤ → List RiskCheck → Gate
check_retry i n none checks = go checks
check_retry i n (some m) checks =
    if leb_ℤ (pos 0) n && not (below_limit n (some m))
    then fail (Intent.trace_id i) checks (
        failure "retry_gate" "retry_limit_reached" "retry_count" "wait"
          (numbers (("retry_count", n) ∷ ("order_retry_limit", m) ∷ [])))
    else go checks

unfoldable pub check_operational_limits :
    TradableOrderIntent → ℤ → Option ℤ → ℤ → Option ℤ → List RiskCheck → Gate
check_operational_limits i open_orders_count max_open_orders retry_count retry_limit checks =
    check_open_orders i open_orders_count max_open_orders checks
    >>= check_retry i retry_count retry_limit

unfoldable pub check_geoblock : TradableOrderIntent → Bool → List RiskCheck → Gate
check_geoblock i geoblocked checks =
    if geoblocked
    then fail (Intent.trace_id i) checks
        (failure "geoblock_gate" "geoblock_restricted" "account.geoblocked" "reject" (flag true))
    else go checks

unfoldable pub check_balance :
    TradableOrderIntent → Decimal → Option Decimal → List RiskCheck → Gate
check_balance i notional balance checks =
    if within_limit notional balance
    then go checks
    else fail (Intent.trace_id i) checks (
        failure "balance_gate" "balance_insufficient" "account.balance_usdc" "reduce_size"
          (amounts (("balance_usdc", balance) ∷ ("notional_usdc", some notional) ∷ [])))

unfoldable pub check_allowance :
    TradableOrderIntent → Decimal → Option Decimal → List RiskCheck → Gate
check_allowance i notional allowance checks =
    if within_limit notional allowance
    then go checks
    else fail (Intent.trace_id i) checks (
        failure "allowance_gate" "allowance_insufficient" "account.allowance_usdc"
          "approve_or_reduce"
          (amounts (("allowance_usdc", allowance) ∷ ("notional_usdc", some notional) ∷ [])))

unfoldable pub check_account_gates :
    TradableOrderIntent → Decimal → Bool → Option Decimal → Option Decimal → List RiskCheck → Gate
check_account_gates i notional geoblocked balance allowance checks =
    check_geoblock i geoblocked checks
    >>= check_balance i notional balance
    >>= check_allowance i notional allowance

-- The one failure that may be tried again.
unfoldable pub check_liquidity :
    TradableOrderIntent → Option OrderbookSnapshot → Decimal → List RiskCheck → Gate
check_liquidity i none notional checks = go checks
check_liquidity i (some book) notional checks =
    let depth = orderbook_depth_usdc book (Intent.price i) in
    if lt depth notional
    then fail (Intent.trace_id i) checks (record {
      name = "liquidity_gate";
      reason = "liquidity_insufficient";
      field_name = "orderbook.depth_usdc";
      suggested_action = "wait";
      retryable = true;
      value = amounts (("depth_usdc", some depth) ∷ ("notional_usdc", some notional) ∷ []);
    })
    else go checks

-- `order.order_id or order.idempotency_key or order.token_id`
abbrev pub order_label : OrderRecord → String
order_label o = text_or (text_or? o.order_id o.idempotency_key) o.token_id

unfoldable pub check_open_buy_orders :
    TradableOrderIntent → List OrderRecord → List RiskCheck → Gate
check_open_buy_orders i open_orders checks =
    let open_buys = open_buy_orders_for_subject open_orders i in
    if is_empty open_buys
    then go (checks ++ passed_check "open_buy_gate" "open_orders.buy" (number (pos 0)) ∷ [])
    else fail (Intent.trace_id i) checks (
        failure "open_buy_gate" "open_buy_detected" "open_orders.buy" "cancel_open_buy"
          (names (map order_label open_buys)))
