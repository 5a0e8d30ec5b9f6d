-- ===== src/Workers/Reconcile/Replacing.antt =====
-- workers/reconcile_action_applier.py: a replaced order on the account store.
use fdv.Base.{
  String, Bool, true, false, ◌&&◌, Option, none, some, get_or, or_else, text_or, if◌then◌else◌,
  ◌==◌, string_eq,
}
use fdv.Decimal.{Decimal, add, sub, mul, lt, le}
use fdv.Domain.Order.{
  OrderSide, OrderType, OrderStatus, OrderRecord, OrderResult, ReplaceOrderIntent,
  ManagedOrderIntent, trading, cancelling, replacing,
}
use fdv.Domain.Position.{
  Position, with_open_buy_shares, with_open_sell_shares, with_pending_buy_shares,
}
use fdv.Domain.Account.{AccountSnapshot, get_position, open_orders_for_market}
use fdv.Runtime.AccountStore.{AccountStore, upsert_position, upsert_order, remove_order}
use fdv.App.Projection.Amounts.{
  at_least_zero, amount_or, find_open_order, order_open_size, order_open_shares,
  order_result_to_order_status, rests,
}
use fdv.App.Trading.{Executor, replace}
use fdv.App.Reconcile.{ReconcileAction}
use fdv.Workers.Reconcile.{submission_succeeded, zero, Times}

abbrev pub side_or : Option OrderRecord → OrderSide
side_or none = OrderSide.sell
side_or (some o) = o.side

abbrev pub order_type_or : Option OrderRecord → OrderType
order_type_or none = OrderType.gtc
order_type_or (some o) = o.order_type

abbrev pub size_or : Option OrderRecord → Decimal
size_or none = zero
size_or (some o) = order_open_size o

abbrev pub shares_or : Option OrderRecord → Decimal
shares_or none = zero
shares_or (some o) = amount_or (order_open_shares o) zero

-- What is left of a replacement, never below zero.
abbrev pub replacement_rest : ReplaceOrderIntent → OrderResult → Decimal
replacement_rest i r =
    let remaining =
      if rests r.status && le r.remaining_shares zero
      then at_least_zero (sub i.size_shares r.matched_shares)
      else r.remaining_shares in
    if lt remaining zero then zero else remaining

abbrev pub stays_open : OrderStatus → Bool
stays_open OrderStatus.submitted = true
stays_open OrderStatus.live = true
stays_open OrderStatus.partially_filled = true
stays_open OrderStatus.created = true
stays_open OrderStatus.signed = true
stays_open s = false

abbrev pub replacement_record :
    ReplaceOrderIntent → OrderResult → Option OrderRecord → Times → OrderRecord
replacement_record i r source now =
    let order_id = text_or r.order_id i.order_id in
    let price = amount_or r.price i.new_price in
    record {
      condition_id = i.condition_id;
      token_id = i.token_id;
      side = get_or r.side (side_or source);
      order_type = get_or r.order_type (order_type_or source);
      price = price;
      trace_id = i.trace_id;
      market_slug = i.market_slug;
      amount_usdc = none;
      size_shares = some i.size_shares;
      filled_shares = r.matched_shares;
      remaining_shares = some (replacement_rest i r);
      notional_usdc = some (mul price i.size_shares);
      order_id = some order_id;
      trade_id = r.trade_id;
      status = order_result_to_order_status r.status;
      idempotency_key = some (text_or i.idempotency_key order_id);
      reason = if i.reason == "" then "reconcile_replace_order" else i.reason;
      post_only = false;
      created_at = some now.0;
      updated_at = some now.1;
    }

abbrev pub write_record : AccountStore → OrderRecord → String → AccountStore
write_record s o order_id =
    if stays_open o.status then upsert_order s o else remove_order s order_id

abbrev pub replaced_position : Position → OrderSide → Option OrderRecord → Decimal → Position
replaced_position p OrderSide.sell source remaining =
    with_open_sell_shares p
      (add (at_least_zero (sub p.open_sell_shares (size_or source))) remaining)
replaced_position p OrderSide.buy source remaining =
    let open_buy = add (at_least_zero (sub p.open_buy_shares (shares_or source))) remaining in
    with_pending_buy_shares (with_open_buy_shares p open_buy) open_buy

abbrev pub write_replaced :
    AccountStore → OrderSide → Option OrderRecord → Decimal → Option Position → AccountStore
write_replaced s side source remaining none = s
write_replaced s side source remaining (some p) =
    upsert_position s (replaced_position p side source remaining)

abbrev pub remove_source : AccountStore → Option String → AccountStore
remove_source s none = s
remove_source s (some id) = remove_order s id

-- After a replacement that was accepted; the snapshots are the store's and the one of the plan.
abbrev pub replace_with_token :
    AccountStore
    → ReconcileAction
    → AccountSnapshot
    → Times
    → ReplaceOrderIntent
    → OrderResult
    → Option String
    → Option AccountStore
replace_with_token s a snapshot now i r none = none
replace_with_token s a snapshot now i r (some token) =
    let source =
      or_else (find_open_order (some s.snapshot) a.condition_id token a.source_order_id)
        (find_open_order (some snapshot) a.condition_id token a.source_order_id) in
    let o = replacement_record i r source now in
    let held =
      or_else (get_position s.snapshot a.condition_id token)
        (get_position snapshot a.condition_id token) in
    some (
      write_replaced
        (write_record (remove_source s a.source_order_id) o (text_or r.order_id i.order_id)) o.side
        source (replacement_rest i r) held)

-- `_apply_replace`
unfoldable pub apply_replace :
    Option Executor
    → AccountStore
    → ReconcileAction
    → AccountSnapshot
    → Times
    → Option ManagedOrderIntent
    → Option AccountStore
unfolding replace submission_succeeded remove_order upsert_order upsert_position get_position
    open_orders_for_market order_result_to_order_status order_open_size order_open_shares
apply_replace e s a snapshot now (some (replacing i)) =
    let review = (replace e i).0 in
    if review.submitted && submission_succeeded review.order_result.status
    then replace_with_token s a snapshot now i review.order_result a.token_id
    else some s
apply_replace e s a snapshot now (some (cancelling i)) = none
apply_replace e s a snapshot now (some (trading i)) = none
apply_replace e s a snapshot now none = none
