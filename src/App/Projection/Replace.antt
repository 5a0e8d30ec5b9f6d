-- ===== src/App/Projection/Replace.antt =====
-- app/order_projection.py: replaced orders.
use fdv.Base.{
  String, str_append, Bool, true, false, Option, none, some, text_or, get_or, if◌then◌else◌,
}
use fdv.Decimal.{Decimal, mul}
use fdv.Domain.Order.{OrderResult, OrderStatus, OrderRecord, ManagedOrderIntent, trading, is_buy}
use fdv.Domain.Market.{Market}
use fdv.Runtime.AccountStore.{AccountStore, order_key, upsert_order, remove_order}
use fdv.App.Projection.Amounts.{
  is_zero, amount_or, amount_or?, order_result_to_order_status, order_status_to_text,
  order_open_shares, replacement_remaining, intent_key,
}
use fdv.App.Projection.Manage.{intent_post_only, refresh_position_coverage}

-- The statuses with which a replacement is written.
abbrev pub is_replacement : OrderStatus → Bool
is_replacement OrderStatus.created = true
is_replacement OrderStatus.signed = true
is_replacement OrderStatus.submitted = true
is_replacement OrderStatus.live = true
is_replacement OrderStatus.matched = true
is_replacement OrderStatus.partially_filled = true
is_replacement _ = false

-- `requested or open shares or size` of the order that is replaced.
abbrev pub replacement_size : OrderRecord → OrderResult → Option Decimal
replacement_size source r =
    amount_or? r.requested_size_shares (amount_or? (order_open_shares source) source.size_shares)

unfoldable pub replacement_amount : OrderRecord → OrderResult → Option Decimal
replacement_amount source r = elim r.requested_amount_usdc [
  | some amount ↦ some amount
  | none ↦ if is_buy (get_or r.side source.side) then source.amount_usdc else none
]

unfoldable pub replacement_notional : OrderRecord → OrderResult → Decimal
replacement_notional source r =
    if is_zero r.notional_usdc
    then elim (replacement_size source r) [
      | some size ↦ mul (amount_or r.price source.price) size
      | none ↦ r.notional_usdc
    ]
    else r.notional_usdc

abbrev pub post_only_of : Option ManagedOrderIntent → Bool
post_only_of (some (trading i)) = intent_post_only i
post_only_of _ = false

abbrev pub replacement_key : Option ManagedOrderIntent → String → Option String
replacement_key none order_id = some order_id
replacement_key (some i) order_id = intent_key i

abbrev pub replacement_order : Market → OrderRecord → OrderResult → String → String → OrderRecord
replacement_order m source r operator reason = record {
  condition_id = r.condition_id;
  token_id = r.token_id;
  side = get_or r.side source.side;
  order_type = get_or r.order_type source.order_type;
  price = amount_or r.price source.price;
  trace_id = r.trace_id;
  market_slug = some (text_or source.market_slug m.market_slug);
  amount_usdc = replacement_amount source r;
  size_shares = replacement_size source r;
  filled_shares = r.matched_shares;
  remaining_shares = some (replacement_remaining r (replacement_size source r));
  notional_usdc = some (replacement_notional source r);
  order_id = some (text_or r.order_id r.trace_id);
  trade_id = r.trade_id;
  status = order_result_to_order_status r.status;
  idempotency_key = replacement_key r.intent (text_or r.order_id r.trace_id);
  reason = str_append reason (str_append ":" operator);
  post_only = post_only_of r.intent;
  created_at = r.timestamps.queued_at;
  updated_at = r.timestamps.ack_at;
}

unfoldable pub write_replacement :
    AccountStore → Market → OrderRecord → OrderResult → String → String → AccountStore
unfolding replacement_amount replacement_notional
write_replacement s m source r operator reason =
    if is_replacement (order_result_to_order_status r.status)
    then upsert_order s (replacement_order m source r operator reason)
    else s

unfoldable pub apply_replace_result :
    AccountStore → Market → OrderRecord → OrderResult → String → String → AccountStore
unfolding write_replacement refresh_position_coverage
apply_replace_result s m source r operator reason =
    refresh_position_coverage
      (write_replacement (remove_order s (order_key source)) m source r operator reason)
      source.condition_id source.token_id (some (text_or source.market_slug m.market_slug))
      (some (text_or r.order_id r.trace_id)) r.trade_id (order_status_to_text r.status)
      r.timestamps.ack_at
