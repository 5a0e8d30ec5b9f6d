-- ===== src/App/Trading/Results.antt =====
-- app/trading_service.py: the results that the executor's answers are read as. A value of an answer is
-- taken as `_coerce_decimal`, `_coerce_side` and `_coerce_order_type` read it.
use fdv.Base.{String, Bool, false, Option, none, some, get_or, if◌then◌else◌, ◌==◌, string_eq}
use fdv.Decimal.{Decimal, of_ℕ}
use fdv.Domain.Order.{
  OrderSide, OrderType, OrderResult, OrderResultStatus, ExecutionTimestamps, buying, selling,
  ManagedOrderIntent, trading, cancelling, replacing,
}
use fdv.Domain.Intent

-- The `status` of an answer: missing or of another type, a member, or a text.
pub data RawStatus : Type 0 where
  unknown : RawStatus
  member : OrderResultStatus → RawStatus
  spelled : String → RawStatus

-- The entries of an answer by key; `none` for a key that is missing.
pub record RawEntries : Type 0 where
  pub trace_id : Option String
  pub condition_id : Option String
  pub token_id : Option String
  pub status : RawStatus
  pub market_slug : Option (Option String)
  pub order_id : Option String
  pub trade_id : Option String
  pub side : Option (Option OrderSide)
  pub order_type : Option (Option OrderType)
  pub price : Option (Option Decimal)
  pub requested_amount_usdc : Option (Option Decimal)
  pub requested_size_shares : Option (Option Decimal)
  pub matched_shares : Option Decimal
  pub remaining_shares : Option Decimal
  pub spent_usdc : Option Decimal
  pub notional_usdc : Option (Option Decimal)
  pub reason : Option String
  pub retryable : Bool
  pub raw_response_summary : Option String
  pub timestamps : Option ExecutionTimestamps

pub data RawResult : Type 0 where
  finished : OrderResult → RawResult
  entries : RawEntries → RawResult
  neither : RawResult

-- `getattr(intent, name, None)`: a control intent has fewer of the attributes.
abbrev pub trace_id_of : ManagedOrderIntent → String
trace_id_of (trading i) = Intent.trace_id i
trace_id_of (cancelling i) = i.trace_id
trace_id_of (replacing i) = i.trace_id

abbrev pub condition_id_of : ManagedOrderIntent → String
condition_id_of (trading i) = Intent.condition_id i
condition_id_of (cancelling i) = i.condition_id
condition_id_of (replacing i) = i.condition_id

abbrev pub token_id_of : ManagedOrderIntent → String
token_id_of (trading i) = Intent.token_id i
token_id_of (cancelling i) = i.token_id
token_id_of (replacing i) = i.token_id

abbrev pub market_slug_of : ManagedOrderIntent → Option String
market_slug_of (trading (buying i)) = i.market_slug
market_slug_of (trading (selling i)) = i.market_slug
market_slug_of (cancelling i) = i.market_slug
market_slug_of (replacing i) = i.market_slug

abbrev pub side_of : ManagedOrderIntent → Option OrderSide
side_of (trading i) = some (Intent.side i)
side_of (cancelling i) = none
side_of (replacing i) = none

abbrev pub order_type_of : ManagedOrderIntent → Option OrderType
order_type_of (trading (buying i)) = some i.order_type
order_type_of (trading (selling i)) = some i.order_type
order_type_of (cancelling i) = none
order_type_of (replacing i) = none

abbrev pub price_of : ManagedOrderIntent → Option Decimal
price_of (trading i) = some (Intent.price i)
price_of (cancelling i) = none
price_of (replacing i) = none

abbrev pub amount_of : ManagedOrderIntent → Option Decimal
amount_of (trading i) = Intent.amount_usdc i
amount_of (cancelling i) = none
amount_of (replacing i) = none

abbrev pub size_of : ManagedOrderIntent → Option Decimal
size_of (trading i) = Intent.size_shares i
size_of (cancelling i) = none
size_of (replacing i) = some i.size_shares

abbrev pub notional_of : ManagedOrderIntent → Decimal
notional_of (trading i) = Intent.notional_usdc i
notional_of (cancelling i) = of_ℕ 0
notional_of (replacing i) = of_ℕ 0

abbrev pub no_timestamps : ExecutionTimestamps
no_timestamps = record {
  queued_at = none;
  sign_started_at = none;
  signed_at = none;
  submitted_at = none;
  ack_at = none;
}

-- `_synthetic_order_result`
unfoldable pub synthetic_order_result :
    ManagedOrderIntent → OrderResultStatus → String → Bool → OrderResult
synthetic_order_result intent status reason retryable = record {
  trace_id = trace_id_of intent;
  condition_id = condition_id_of intent;
  token_id = token_id_of intent;
  status = status;
  intent = some intent;
  market_slug = market_slug_of intent;
  order_id = none;
  trade_id = none;
  side = side_of intent;
  order_type = order_type_of intent;
  price = price_of intent;
  requested_amount_usdc = amount_of intent;
  requested_size_shares = size_of intent;
  matched_shares = of_ℕ 0;
  remaining_shares = of_ℕ 0;
  spent_usdc = of_ℕ 0;
  notional_usdc = notional_of intent;
  reason = reason;
  retryable = retryable;
  raw_response_summary = none;
  timestamps = no_timestamps;
}

-- `OrderResultStatus(text)`, with the fallback for a ValueError.
unfoldable pub status_of_text : String → OrderResultStatus → OrderResultStatus
status_of_text s fallback =
    if s == "full_fill"
    then OrderResultStatus.full_fill
    else if s == "partial_fill"
    then OrderResultStatus.partial_fill
    else if s == "no_fill"
    then OrderResultStatus.no_fill
    else if s == "live"
    then OrderResultStatus.live
    else if s == "rejected"
    then OrderResultStatus.rejected
    else if s == "failed"
    then OrderResultStatus.failed
    else if s == "cancelled"
    then OrderResultStatus.cancelled
    else if s == "unknown_timeout"
    then OrderResultStatus.unknown_timeout
    else fallback

abbrev pub status_of : RawStatus → OrderResultStatus → OrderResultStatus
status_of unknown fallback = fallback
status_of (member s) fallback = s
status_of (spelled s) fallback = status_of_text s fallback

-- `_coerce_order_result`
unfoldable pub coerce_order_result :
    RawResult → ManagedOrderIntent → OrderResultStatus → String → OrderResult
unfolding status_of_text synthetic_order_result
coerce_order_result (finished r) intent fallback_status fallback_reason = r
coerce_order_result neither intent fallback_status fallback_reason =
    synthetic_order_result intent fallback_status fallback_reason false
coerce_order_result (entries d) intent fallback_status fallback_reason = record {
  trace_id = get_or d.trace_id (trace_id_of intent);
  condition_id = get_or d.condition_id (condition_id_of intent);
  token_id = get_or d.token_id (token_id_of intent);
  status = status_of d.status fallback_status;
  intent = some intent;
  market_slug = get_or d.market_slug (market_slug_of intent);
  order_id = d.order_id;
  trade_id = d.trade_id;
  side = get_or d.side (side_of intent);
  order_type = get_or d.order_type (order_type_of intent);
  price = get_or d.price (price_of intent);
  requested_amount_usdc = get_or d.requested_amount_usdc (amount_of intent);
  requested_size_shares = get_or d.requested_size_shares (size_of intent);
  matched_shares = get_or d.matched_shares (of_ℕ 0);
  remaining_shares = get_or d.remaining_shares (of_ℕ 0);
  spent_usdc = get_or d.spent_usdc (of_ℕ 0);
  notional_usdc = get_or (get_or d.notional_usdc (some (notional_of intent))) (of_ℕ 0);
  reason = get_or d.reason fallback_reason;
  retryable = d.retryable;
  raw_response_summary = d.raw_response_summary;
  timestamps = get_or d.timestamps no_timestamps;
}
