-- ===== src/Workers/Reconcile.antt =====
-- workers/reconcile_action_applier.py and the loop of reconcile_worker.py: the actions of a plan, applied
-- to the account store. An action that raises does so before it writes, and leaves the store as it is.
pub mod Pausing
pub mod Outcome
pub mod Applying
pub mod Replacing
pub mod Sticking
use fdv.Base.{
  String, Bool, true, false, not, ◌&&◌, ◌||◌, Option, none, some, List, [], ◌∷◌, ◌++◌, get_or,
  or_else, is_none, text_or, text_or?, if◌then◌else◌, ◌==◌, string_eq,
}
use fdv.Decimal.{Decimal, of_ℕ, add, sub, mul, lt, le}
use fdv.Domain.Order.{
  Time, OrderSide, OrderType, OrderStatus, OrderRecord, OrderResult, OrderResultStatus,
  TradableOrderIntent, CancelOrderIntent, ReplaceOrderIntent, ManagedOrderIntent, trading,
  cancelling, replacing,
}
use fdv.Domain.Intent
use fdv.Domain.Market.{Market, TradingStatus, is_eligible, is_resolved}
use fdv.Domain.Position.{
  Position, with_open_buy_shares, with_open_sell_shares, with_pending_buy_shares,
}
use fdv.Domain.Account.{AccountSnapshot, MarketPauseSource, get_position, open_orders_for_market}
use fdv.Domain.Risk.Types.{RiskRequest}
use fdv.Base.Integer.{pos}
use fdv.Runtime.AccountStore.{
  AccountStore, upsert_position, upsert_order, remove_order, pause_market, resume_market,
  mark_reconciled,
}
use fdv.App.Projection.Amounts.{
  at_least_zero, amount_or, amount_or?, find_open_order, order_open_size, order_open_shares,
  order_result_to_order_status, rests,
}
use fdv.App.Projection.Manage.{apply_submitted_intent}
use fdv.App.Trading.{Executor, TradingReviewResult, review_intent, cancel, replace, submit_method}
use fdv.App.Reconcile.{
  ReconcileActionType, cancel_order, submit_order, replace_order, pause_trading, resume_trading,
  ReconcileAction, ReconcileMarketPlan,
}

-- `_submission_succeeded`, for a result of the trading service.
unfoldable pub submission_succeeded : OrderResultStatus → Bool
submission_succeeded OrderResultStatus.rejected = false
submission_succeeded OrderResultStatus.failed = false
submission_succeeded OrderResultStatus.unknown_timeout = false
submission_succeeded s = true

abbrev pub is_cancelled : OrderResultStatus → Bool
is_cancelled OrderResultStatus.cancelled = true
is_cancelled s = false

abbrev pub zero : Decimal
zero = of_ℕ 0

-- The position that a cancelled order leaves.
abbrev pub released : ReconcileAction → Position → Position
released a p = elim a.source_order_side [
  | some OrderSide.buy ↦ with_pending_buy_shares (with_open_buy_shares p zero) zero
  | _ ↦
      with_open_sell_shares p
        (at_least_zero (sub p.open_sell_shares (amount_or a.target_size_shares zero)))
]

abbrev pub write_released : AccountStore → ReconcileAction → Option Position → AccountStore
write_released s a none = s
write_released s a (some p) = upsert_position s (released a p)

abbrev pub remove_cancelled :
    AccountStore
    → ReconcileAction
    → AccountSnapshot
    → Option String
    → Option String
    → Option AccountStore
remove_cancelled s a snapshot none token = some s
remove_cancelled s a snapshot (some id) none = none
remove_cancelled s a snapshot (some id) (some token) =
    some (write_released (remove_order s id) a (get_position snapshot a.condition_id token))

-- `_apply_cancel`; `none` where the source raises.
unfoldable pub apply_cancel :
    Option Executor
    → AccountStore
    → ReconcileAction
    → AccountSnapshot
    → Option ManagedOrderIntent
    → Option AccountStore
unfolding cancel remove_order upsert_position get_position
apply_cancel e s a snapshot (some (cancelling i)) =
    let review = (cancel e i).0 in
    if review.submitted && is_cancelled review.order_result.status
    then remove_cancelled s a snapshot a.source_order_id a.token_id
    else some s
apply_cancel e s a snapshot (some (replacing i)) = none
apply_cancel e s a snapshot (some (trading i)) = none
apply_cancel e s a snapshot none = none

-- What the risk gate is told of an intent of a reconcile.
abbrev pub reconcile_request : Market → AccountSnapshot → String → String → RiskRequest
reconcile_request m snapshot condition_id token = record {
  market = some m;
  orderbook = none;
  position = get_position snapshot condition_id token;
  open_orders = open_orders_for_market snapshot condition_id token;
  allocation_plan = none;
  classification_passed = some true;
  classification_reason = none;
  market_active = some (is_eligible m.trading_status);
  market_open = some (is_eligible m.trading_status);
  clob_enabled = some true;
  resolved = some (is_resolved m.trading_status);
  cancelled = some false;
  archived = some (elim m.trading_status [ TradingStatus.closed ↦ true | _ ↦ false ]);
  geoblocked = false;
  balance_usdc = some snapshot.balance_usdc;
  allowance_usdc = some snapshot.allowance_usdc;
  portfolio_total_invested_usdc = none;
  open_orders_count = none;
  retry_count = pos 0;
  order_retry_limit = none;
  max_order_usdc = none;
  max_market_usdc = none;
  max_total_usdc = none;
  max_open_orders = none;
  min_order_size = some m.min_order_size;
}

abbrev pub side_operation : OrderSide → String
side_operation OrderSide.buy = "buy"
side_operation OrderSide.sell = "sell"

-- The times at which a record is made, `created_at` and `updated_at`.
abbrev pub Times : Type 0
Times = Time × Time

abbrev pub submit_with_token :
    Option Executor
    → AccountStore
    → ReconcileAction
    → Market
    → AccountSnapshot
    → Times
    → TradableOrderIntent
    → Option String
    → Option AccountStore
submit_with_token e s a m snapshot now i none = none
submit_with_token e s a m snapshot now i (some token) =
    let review =
      (review_intent e i (reconcile_request m snapshot a.condition_id token)
        (side_operation (Intent.side i))).0 in
    if review.submitted && submission_succeeded review.order_result.status
    then some
        (apply_submitted_intent s i a.market_slug snapshot "reconcile_submit_order" now.0 now.1)
    else some s

-- `_apply_submit_order`
unfoldable pub apply_submit_order :
    Option Executor
    → AccountStore
    → ReconcileAction
    → Market
    → AccountSnapshot
    → Times
    → Option ManagedOrderIntent
    → Option AccountStore
unfolding review_intent apply_submitted_intent submission_succeeded get_position
    open_orders_for_market
apply_submit_order e s a m snapshot now (some (trading i)) =
    submit_with_token e s a m snapshot now i a.token_id
apply_submit_order e s a m snapshot now (some (cancelling i)) = none
apply_submit_order e s a m snapshot now (some (replacing i)) = none
apply_submit_order e s a m snapshot now none = none
