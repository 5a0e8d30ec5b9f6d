-- ===== src/Infra/Executor/Building.antt =====
-- infra/polymarket/order_result_builder.py: the amounts of a response, and the result that it becomes.
use fdv.Base.{Bool, true, false, not, ◌&&◌, Option, none, some, if◌then◌else◌, ◌==◌, string_eq}
use fdv.Decimal.{Decimal, of_ℕ, mul, div, sub}
use fdv.Domain.Order.{
  ExecutionTimestamps, OrderResult, OrderResultStatus, buying, selling, BuyOrderIntent,
  SellOrderIntent, ManagedOrderIntent, trading, cancelling, replacing,
}
use fdv.Domain.Intent
use fdv.App.Projection.Amounts.{is_zero, amount_or, amount_or?}
use fdv.Infra.Executor.{OrderExecutionRequest}
use fdv.Infra.Executor.Results.{OrderExecutionResponse, coerce_status, default_reason}

abbrev pub is_fill : OrderResultStatus → Bool
is_fill OrderResultStatus.full_fill = true
is_fill OrderResultStatus.partial_fill = true
is_fill s = false

-- `value and ...`, for a price that may be absent.
abbrev pub nonzero? : Option Decimal → Bool
nonzero? none = false
nonzero? (some d) = not (is_zero d)

-- The amounts of a response, an absent one as zero.
pub record Amounts : Type 0 where
  pub matched : Decimal
  pub remaining : Decimal
  pub spent : Decimal
  pub notional : Decimal

abbrev pub zero_or : Option Decimal → Decimal
zero_or d = amount_or d (of_ℕ 0)

unfoldable pub buy_spent : OrderResultStatus → Amounts → Decimal
buy_spent status a =
    if not (is_zero a.notional) && (is_fill status && is_zero a.spent) then a.notional else a.spent

unfoldable pub buy_matched : OrderResultStatus → Option Decimal → Amounts → Decimal
buy_matched status price a =
    if is_fill status && (is_zero a.matched && (not (is_zero a.spent) && nonzero? price))
    then div a.spent (zero_or price)
    else a.matched

-- The amounts of a buy.
unfoldable pub buy_amounts : BuyOrderIntent → OrderResultStatus → Option Decimal → Amounts → Amounts
unfolding buy_spent buy_matched
buy_amounts i status price a =
    let b = record a { notional = if is_zero a.notional then i.amount_usdc else a.notional } in
    let c = record b { spent = buy_spent status b } in
    record c {
      matched = buy_matched status price c;
      remaining = elim status [ OrderResultStatus.no_fill ↦ of_ℕ 0 | _ ↦ a.remaining ];
    }

unfoldable pub sell_spent : SellOrderIntent → OrderResultStatus → Option Decimal → Amounts → Decimal
sell_spent i status price a =
    if is_fill status && (is_zero a.spent && nonzero? price)
    then mul (zero_or price) (if is_zero a.matched then i.size_shares else a.matched)
    else a.spent

unfoldable pub sell_matched : SellOrderIntent → OrderResultStatus → Amounts → Decimal
sell_matched i status a =
    if is_fill status && is_zero a.matched
    then (if is_zero a.remaining then i.size_shares else sub i.size_shares a.remaining)
    else a.matched

-- The amounts of a sell.
unfoldable pub sell_amounts :
    SellOrderIntent → OrderResultStatus → Option Decimal → Amounts → Amounts
unfolding sell_spent sell_matched
sell_amounts i status price a = record {
  matched = sell_matched i status a;
  remaining = a.remaining;
  spent = sell_spent i status price a;
  notional = if is_zero a.notional then Intent.notional_usdc (selling i) else a.notional;
}

unfoldable pub intent_amounts :
    ManagedOrderIntent → OrderResultStatus → Option Decimal → Amounts → Amounts
unfolding buy_amounts sell_amounts
intent_amounts (trading (buying i)) status price a = buy_amounts i status price a
intent_amounts (trading (selling i)) status price a = sell_amounts i status price a
intent_amounts (cancelling i) status price a = a
intent_amounts (replacing i) status price a = a

-- A cancelled order has nothing but its notional.
unfoldable pub final_amounts : OrderResultStatus → Amounts → Amounts
final_amounts OrderResultStatus.cancelled a = record {
  matched = of_ℕ 0;
  remaining = of_ℕ 0;
  spent = of_ℕ 0;
  notional = a.notional;
}
final_amounts s a = a

abbrev pub requested_amount : ManagedOrderIntent → Option Decimal
requested_amount (trading (buying i)) = some i.amount_usdc
requested_amount intent = none

abbrev pub requested_size : ManagedOrderIntent → Option Decimal
requested_size (trading (selling i)) = some i.size_shares
requested_size intent = none

-- `build_order_result`
unfoldable pub build_order_result :
    OrderExecutionRequest
    → ManagedOrderIntent
    → OrderExecutionResponse
    → ExecutionTimestamps
    → OrderResult
unfolding coerce_status intent_amounts final_amounts default_reason
build_order_result q intent r timestamps =
    let status = coerce_status r.status q.action intent in
    let price = amount_or? q.price q.new_price in
    let read : Amounts = record {
      matched = zero_or r.matched_shares;
      remaining = zero_or r.remaining_shares;
      spent = zero_or r.spent_usdc;
      notional = zero_or r.notional_usdc;
    } in
    let a = final_amounts status (intent_amounts intent status price read) in
    record {
      trace_id = q.trace_id;
      condition_id = q.condition_id;
      token_id = q.token_id;
      status = status;
      intent = some intent;
      market_slug = q.market_slug;
      order_id = r.order_id;
      trade_id = r.trade_id;
      side = q.side;
      order_type = q.order_type;
      price = price;
      requested_amount_usdc = requested_amount intent;
      requested_size_shares = requested_size intent;
      matched_shares = a.matched;
      remaining_shares = a.remaining;
      spent_usdc = a.spent;
      notional_usdc = a.notional;
      reason = if r.reason == "" then default_reason status q.action else r.reason;
      retryable = r.retryable;
      raw_response_summary = r.raw_response;
      timestamps = timestamps;
    }
