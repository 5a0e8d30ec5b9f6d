-- ===== src/Domain/Risk/Gates.antt =====
-- domain/risk.py: the gates of `RiskManager`. Each takes the checks noted so far; it notes its own
-- and goes on, or fails.
use fdv.Base.{
  String, Bool, true, false, not, ◌||◌, Option, none, some, List, [], ◌∷◌, ◌++◌, get_or, text_or,
  if◌then◌else◌, string_eq, is_none,
}
use fdv.Decimal.{Decimal, of_ℕ, add, le, lt}
use fdv.Domain.Order.{TradableOrderIntent}
use fdv.Domain.Intent
use fdv.Domain.Market.{Market}
use fdv.Domain.Orderbook.{OrderbookSnapshot}
use fdv.Domain.Risk.Types.{
  CheckValue, absent, amount, flag, amounts, RiskCheck, Gate, go, stop, ◌>>=◌, Failure,
}
use fdv.Domain.Risk.Inputs.{effective_tick_size, is_multiple_of_tick}

-- A check that passed, with no reason, no suggested action and no retry.
abbrev pub passed_check : String → String → CheckValue → RiskCheck
passed_check name field_name value = record {
  name = name;
  passed = true;
  reason = "";
  field_name = some field_name;
  value = value;
  suggested_action = "";
  retryable = false;
}

abbrev pub failed_check : Failure → RiskCheck
failed_check f = record {
  name = f.name;
  passed = false;
  reason = f.reason;
  field_name = some f.field_name;
  value = f.value;
  suggested_action = f.suggested_action;
  retryable = f.retryable;
}

-- `_fail`
unfoldable pub fail : String → List RiskCheck → Failure → Gate
fail trace_id checks f = stop (record {
  passed = false;
  reason = f.reason;
  trace_id = trace_id;
  failed_field = some f.field_name;
  suggested_action = f.suggested_action;
  retryable = f.retryable;
  checks = checks ++ failed_check f ∷ [];
})

-- A failure that is final, as all but one are.
abbrev pub failure : String → String → String → String → CheckValue → Failure
failure name reason field_name suggested_action value = record {
  name = name;
  reason = reason;
  field_name = field_name;
  suggested_action = suggested_action;
  retryable = false;
  value = value;
}

unfoldable pub check_order_size : TradableOrderIntent → Decimal → List RiskCheck → Gate
check_order_size i notional checks =
    if le notional (of_ℕ 0)
    then fail (Intent.trace_id i) checks
        (failure "order_size_gate" "missing_order_size" "intent.amount_usdc" "reject" absent)
    else go (
        checks
        ++ passed_check "order_size_gate"
            (if is_none (Intent.amount_usdc i) then "intent.size_shares" else "intent.amount_usdc")
            (amount notional)
          ∷ [])

unfoldable pub check_classification :
    TradableOrderIntent → Option Bool → Option String → List RiskCheck → Gate
check_classification i classification_passed classification_reason checks =
    if get_or classification_passed true
    then go (
        checks
        ++ passed_check "classification_gate" "classification"
            (flag (get_or classification_passed true))
          ∷ [])
    else fail (Intent.trace_id i) checks (
        failure "classification_gate" (text_or classification_reason "market_out_of_universe")
          "classification" "reject" absent)

-- The tick size that is in force, if there is one, divides the price.
abbrev pub tick_fits : Decimal → Option Decimal → Bool
tick_fits price none = true
tick_fits price (some tick) = not (le tick (of_ℕ 0) || not (is_multiple_of_tick price tick))

unfoldable pub check_tick : TradableOrderIntent → Option Decimal → List RiskCheck → Gate
check_tick i tick checks =
    let value = amounts (("price", some (Intent.price i)) ∷ ("tick_size", tick) ∷ []) in
    if tick_fits (Intent.price i) tick
    then go (checks ++ passed_check "tick_size_gate" "intent.price" value ∷ [])
    else fail (Intent.trace_id i) checks
        (failure "tick_size_gate" "tick_size_invalid" "intent.price" "reject" value)

unfoldable pub check_price : TradableOrderIntent → List RiskCheck → Gate
check_price i checks =
    if le (Intent.price i) (of_ℕ 0)
    then fail (Intent.trace_id i) checks
        (failure "price_gate" "price_invalid" "intent.price" "reject" (amount (Intent.price i)))
    else go checks

unfoldable pub check_price_and_tick :
    TradableOrderIntent → Option Market → Option OrderbookSnapshot → List RiskCheck → Gate
check_price_and_tick i market orderbook checks =
    check_price i checks >>= check_tick i (effective_tick_size market orderbook)

unfoldable pub check_min_order_size :
    TradableOrderIntent → Decimal → Decimal → List RiskCheck → Gate
check_min_order_size i notional minimum checks =
    if lt notional minimum
    then fail (Intent.trace_id i) checks (
        failure "min_order_gate" "min_order_not_met" "intent.amount_usdc" "reject"
          (amounts (("notional_usdc", some notional) ∷ ("min_order_size", some minimum) ∷ [])))
    else go checks

-- A limit that is set is at least the value.
abbrev pub within_limit : Decimal → Option Decimal → Bool
within_limit x none = true
within_limit x (some m) = not (lt m x)

unfoldable pub check_single_order :
    TradableOrderIntent → Decimal → Option Decimal → List RiskCheck → Gate
check_single_order i notional limit checks =
    if within_limit notional limit
    then go checks
    else fail (Intent.trace_id i) checks (
        failure "single_order_gate" "single_order_limit_reached" "intent.amount_usdc" "reduce_size"
          (amounts (("notional_usdc", some notional) ∷ ("max_order_usdc", limit) ∷ [])))

unfoldable pub check_single_market :
    TradableOrderIntent → Decimal → Decimal → Option Decimal → List RiskCheck → Gate
check_single_market i notional exposure limit checks =
    if within_limit (add exposure notional) limit
    then go checks
    else fail (Intent.trace_id i) checks (
        failure "single_market_gate" "market_limit_reached" "market.exposure_usdc" "reduce_size" (
          amounts (
            ("exposure_usdc", some exposure)
            ∷ ("notional_usdc", some notional)
            ∷ ("max_market_usdc", limit)
            ∷ [])))

unfoldable pub check_total :
    TradableOrderIntent → Decimal → Decimal → Option Decimal → List RiskCheck → Gate
check_total i notional total limit checks =
    if within_limit (add total notional) limit
    then go checks
    else fail (Intent.trace_id i) checks (
        failure "total_limit_gate" "total_limit_reached" "portfolio.total_invested_usdc"
          "reduce_size"
          (amounts (
            ("portfolio_total_invested_usdc", some total)
            ∷ ("notional_usdc", some notional)
            ∷ ("max_total_usdc", limit)
            ∷ [])))
