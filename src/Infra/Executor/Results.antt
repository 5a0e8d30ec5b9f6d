-- ===== src/Infra/Executor/Results.antt =====
-- infra/polymarket/order_executor.py and order_result_builder.py: the results of requests. An amount of
-- a response is taken as `_decimal` reads it, a text of a status as it is after strip, lower and replace.
use fdv.Base.{
  String, str_append, Bool, true, false, ◌||◌, Option, none, some, get_or, if◌then◌else◌, ◌==◌,
  string_eq, text_or,
}
use fdv.Decimal.{Decimal, of_ℕ}
use fdv.Domain.Order.{
  Time, OrderType, ExecutionTimestamps, OrderResult, OrderResultStatus, buying, selling,
  ManagedOrderIntent, trading, cancelling, replacing,
}
use fdv.App.Projection.Amounts.{amount_or?}
use fdv.App.Trading.Results.{RawStatus, unknown, member, spelled}
use fdv.Infra.Executor.{Action, submit, cancel, replace, action_text, OrderExecutionRequest}

-- A result of a request that nothing is known to have come of.
abbrev empty_result :
    OrderExecutionRequest
    → ManagedOrderIntent
    → OrderResultStatus
    → String
    → Bool
    → ExecutionTimestamps
    → OrderResult
empty_result q intent status reason retryable timestamps = record {
  trace_id = q.trace_id;
  condition_id = q.condition_id;
  token_id = q.token_id;
  status = status;
  intent = some intent;
  market_slug = q.market_slug;
  order_id = none;
  trade_id = none;
  side = q.side;
  order_type = q.order_type;
  price = amount_or? q.price q.new_price;
  requested_amount_usdc = q.amount_usdc;
  requested_size_shares = q.size_shares;
  matched_shares = of_ℕ 0;
  remaining_shares = of_ℕ 0;
  spent_usdc = of_ℕ 0;
  notional_usdc = of_ℕ 0;
  reason = reason;
  retryable = retryable;
  raw_response_summary = none;
  timestamps = timestamps;
}

abbrev pub queued_and_over : Option Time → Time → ExecutionTimestamps
queued_and_over queued now = record {
  queued_at = queued;
  sign_started_at = none;
  signed_at = none;
  submitted_at = none;
  ack_at = some now;
}

-- `_conflict_result`
unfoldable pub conflict_result : OrderExecutionRequest → ManagedOrderIntent → Time → OrderResult
conflict_result q intent now =
    empty_result q intent OrderResultStatus.failed "idempotency_key_conflict" false
      (queued_and_over (some now) now)

-- `_timeout_result`; a reason that is absent is the action's.
unfoldable pub timeout_result :
    OrderExecutionRequest → ManagedOrderIntent → Option Time → Option String → Time → OrderResult
timeout_result q intent started_at reason now =
    empty_result q intent OrderResultStatus.unknown_timeout
      (text_or reason (str_append (action_text q.action) "_timeout")) true
      (record (queued_and_over started_at now) { submitted_at = some now })

-- `_failure_result`, whose outbox warning is never set.
unfoldable pub failure_result :
    OrderExecutionRequest → ManagedOrderIntent → String → ExecutionTimestamps → Time → OrderResult
failure_result q intent reason timestamps now =
    empty_result q intent OrderResultStatus.failed reason false
      (record timestamps { ack_at = some now })

-- The raw response stands as the text that `sanitize_raw_response` makes of it.
pub record OrderExecutionResponse : Type 0 where
  pub status : RawStatus
  pub order_id : Option String
  pub trade_id : Option String
  pub matched_shares : Option Decimal
  pub remaining_shares : Option Decimal
  pub spent_usdc : Option Decimal
  pub notional_usdc : Option Decimal
  pub raw_response : Option String
  pub reason : String
  pub retryable : Bool

-- `_default_status_for_action`, for an intent.
unfoldable pub default_status_for_action : Action → ManagedOrderIntent → OrderResultStatus
default_status_for_action cancel intent = OrderResultStatus.cancelled
default_status_for_action replace intent = OrderResultStatus.live
default_status_for_action submit (trading (buying i)) = elim i.order_type [
  | OrderType.fak ↦ OrderResultStatus.no_fill
  | OrderType.gtc ↦ OrderResultStatus.live
]
default_status_for_action submit (trading (selling i)) = OrderResultStatus.live
default_status_for_action submit (cancelling i) = OrderResultStatus.failed
default_status_for_action submit (replacing i) = OrderResultStatus.failed

-- The texts that `_coerce_status` knows.
unfoldable pub known_status : String → Option OrderResultStatus
known_status s =
    if s == "full_fill" || (s == "full" || s == "filled")
    then some OrderResultStatus.full_fill
    else if s == "partial_fill" || (s == "partial" || s == "partially_filled")
    then some OrderResultStatus.partial_fill
    else if s == "no_fill" || s == "nofill"
    then some OrderResultStatus.no_fill
    else if s == "live" || s == "resting"
    then some OrderResultStatus.live
    else if s == "rejected"
    then some OrderResultStatus.rejected
    else if s == "failed"
    then some OrderResultStatus.failed
    else if s == "cancelled" || s == "canceled"
    then some OrderResultStatus.cancelled
    else if s == "unknown_timeout" || s == "timeout"
    then some OrderResultStatus.unknown_timeout
    else none

-- `_coerce_status`
unfoldable pub coerce_status : RawStatus → Action → ManagedOrderIntent → OrderResultStatus
unfolding known_status default_status_for_action
coerce_status unknown action intent = default_status_for_action action intent
coerce_status (member s) action intent = s
coerce_status (spelled s) action intent =
    get_or (known_status s) (default_status_for_action action intent)

-- `_default_reason`
unfoldable pub default_reason : OrderResultStatus → Action → String
default_reason OrderResultStatus.unknown_timeout action = str_append (action_text action) "_timeout"
default_reason OrderResultStatus.cancelled action = "cancelled"
default_reason OrderResultStatus.no_fill action = "no_fill"
default_reason OrderResultStatus.full_fill action = "full_fill"
default_reason OrderResultStatus.partial_fill action = "partial_fill"
default_reason OrderResultStatus.live action = "live"
default_reason OrderResultStatus.rejected action = "rejected"
default_reason OrderResultStatus.failed action = "failed"
