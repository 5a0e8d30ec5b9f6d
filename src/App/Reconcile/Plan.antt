-- ===== src/App/Reconcile/Plan.antt =====
-- app/reconcile_service.py: the plan of each market.
use fdv.Base.{
  ℕ, ◌+◌, String, Bool, ◌||◌, Option, none, some, List, [], ◌∷◌, ◌++◌, length, map, filter_by,
  any_by, if◌then◌else◌, ◌==◌, string_eq,
}
use fdv.Base.Dict.{Dict, lookup, index_by}
use fdv.Decimal.{Decimal, mul}
use fdv.Domain.Order.{
  OrderSide, OrderRecord, TradableOrderIntent, buying, selling, ManagedOrderIntent, trading,
  cancelling, replacing,
}
use fdv.Domain.Intent
use fdv.Domain.Market.{Market, token_ids}
use fdv.Domain.Account.{
  AccountSnapshot, MarketPause, get_position, open_orders_for_market, pause_for_market,
  without_market_pause,
}
use fdv.Runtime.AccountStore.{order_key}
use fdv.App.Projection.Amounts.{order_open_size}
use fdv.App.Decisions.{ExtensionDecision, RecoveryDecision, decision_to_managed_intent}
use fdv.App.Reconcile.{
  ReconcileActionType, ReconcileAction, ExtensionContext, ReconcileMarketPlan, is_shut, orders_of,
  token_view, is_sticky, account_snapshot_for_recovery, resolved_pause_reason,
}

-- An action on the market as a whole.
abbrev pub market_action : ReconcileActionType → String → Market → String → String → ReconcileAction
market_action action_type trace_id m reason pause_reason = record {
  action_type = action_type;
  trace_id = trace_id;
  condition_id = m.condition_id;
  token_id = none;
  market_slug = some m.market_slug;
  reason = reason;
  source_order_id = none;
  source_order_side = none;
  target_size_shares = none;
  target_notional_usdc = none;
  pause_reason = some pause_reason;
  intent = none;
}

abbrev pub side_of? : Option OrderRecord → Option OrderSide
side_of? none = none
side_of? (some o) = some o.side

abbrev pub open_size_of? : Option OrderRecord → Option Decimal
open_size_of? none = none
open_size_of? (some o) = some (order_open_size o)

abbrev pub slug_or : Option String → String → Option String
slug_or none slug = some slug
slug_or (some s) slug = if s == "" then some slug else some s

abbrev pub intent_slug : TradableOrderIntent → Option String
intent_slug (buying i) = i.market_slug
intent_slug (selling i) = i.market_slug

-- `_action_from_intent`
unfoldable pub action_from_intent :
    String → Market → String → Dict String OrderRecord → ManagedOrderIntent → ReconcileAction
action_from_intent trace_id m reason index (cancelling i) = record {
  action_type = ReconcileActionType.cancel_order;
  trace_id = trace_id;
  condition_id = i.condition_id;
  token_id = some i.token_id;
  market_slug = i.market_slug;
  reason = reason;
  source_order_id = some i.order_id;
  source_order_side = side_of? (lookup i.order_id index);
  target_size_shares = open_size_of? (lookup i.order_id index);
  target_notional_usdc = none;
  pause_reason = none;
  intent = some (cancelling i);
}
action_from_intent trace_id m reason index (replacing i) = record {
  action_type = ReconcileActionType.replace_order;
  trace_id = trace_id;
  condition_id = i.condition_id;
  token_id = some i.token_id;
  market_slug = i.market_slug;
  reason = reason;
  source_order_id = some i.order_id;
  source_order_side = side_of? (lookup i.order_id index);
  target_size_shares = some i.size_shares;
  target_notional_usdc = some (mul i.size_shares i.new_price);
  pause_reason = none;
  intent = some (replacing i);
}
action_from_intent trace_id m reason index (trading i) = record {
  action_type = ReconcileActionType.submit_order;
  trace_id = trace_id;
  condition_id = Intent.condition_id i;
  token_id = some (Intent.token_id i);
  market_slug = slug_or (intent_slug i) m.market_slug;
  reason = reason;
  source_order_id = none;
  source_order_side = some (Intent.side i);
  target_size_shares = Intent.size_shares i;
  target_notional_usdc = some (Intent.notional_usdc i);
  pause_reason = none;
  intent = some (trading i);
}

abbrev pub add_action :
    String
    → Market
    → Dict String OrderRecord
    → String
    → Option ManagedOrderIntent
    → List ReconcileAction
    → List ReconcileAction
add_action trace_id m index reason none rest = rest
add_action trace_id m index reason (some i) rest =
    action_from_intent trace_id m reason index i ∷ rest

-- The loop over the actions of a recovery; a decision that is no intent is passed over.
unfoldable pub recovery_actions :
    String → Market → Dict String OrderRecord → List ExtensionDecision → List ReconcileAction
unfolding action_from_intent decision_to_managed_intent
recovery_actions trace_id m index [] = []
recovery_actions trace_id m index (d ∷ ds) =
    add_action trace_id m index d.reason
      (decision_to_managed_intent trace_id m.condition_id (some m.market_slug) none d)
      (recovery_actions trace_id m index ds)

-- A pause that is not called for any more is lifted first.
abbrev pub resume_actions : String → Market → Option MarketPause → Bool → List ReconcileAction
resume_actions trace_id m none pauses = []
resume_actions trace_id m (some p) pauses =
    if pauses
    then []
    else market_action ReconcileActionType.resume_trading trace_id m "stale_pause_cleared" p.reason
      ∷ []

abbrev pub pause_actions : String → Market → Bool → String → List ReconcileAction
pause_actions trace_id m pauses reason =
    if pauses
    then market_action ReconcileActionType.pause_trading trace_id m "market_not_tradable" reason
      ∷ []
    else []

-- What the strategy is told of a market.
abbrev pub recovery_context : Market → AccountSnapshot → String → ExtensionContext
recovery_context m a trace_id = record {
  trace_id = trace_id;
  market = m;
  market_token_views = map (token_view a m.condition_id) m.outcomes;
  account_snapshot =
      account_snapshot_for_recovery a m.condition_id (pause_for_market a m.condition_id);
  open_orders = orders_of a m.condition_id (token_ids m);
}

-- `build_market_plan`
unfoldable pub build_market_plan :
    (ExtensionContext → RecoveryDecision) → Market → AccountSnapshot → String → ReconcileMarketPlan
unfolding resolved_pause_reason recovery_actions order_key pause_for_market without_market_pause
    get_position open_orders_for_market
build_market_plan decide_recovery m a trace_id =
    let orders = orders_of a m.condition_id (token_ids m) in
    let pause = pause_for_market a m.condition_id in
    let recovery = decide_recovery (recovery_context m a trace_id) in
    let pauses = is_shut m.trading_status || (is_sticky pause || recovery.pause_trading) in
    let reason = resolved_pause_reason m pause recovery.pause_reason pauses in
    record {
      trace_id = trace_id;
      market = m;
      open_orders = orders;
      actions =
          resume_actions trace_id m pause pauses
          ++ (recovery_actions trace_id m (index_by order_key [] orders) recovery.actions
              ++ pause_actions trace_id m pauses reason);
      pause_trading = pauses;
      pause_reason = reason;
    }

pub record ReconcilePlan : Type 0 where
  pub market_plans : List ReconcileMarketPlan
  pub total_actions : ℕ
  pub paused_market_count : ℕ

abbrev pub chosen : Option (List String) → List Market → List Market
chosen none ms = ms
chosen (some ids) ms = filter_by (λ m. any_by (λ id. id == m.condition_id) ids) ms

abbrev pub count_actions : List ReconcileMarketPlan → ℕ
count_actions [] = 0
count_actions (p ∷ ps) = length p.actions + count_actions ps

abbrev pub count_paused : List ReconcileMarketPlan → ℕ
count_paused [] = 0
count_paused (p ∷ ps) = (if p.pause_trading then 1 else 0) + count_paused ps

-- `build_reconcile_plan`
unfoldable pub build_reconcile_plan :
    (ExtensionContext → RecoveryDecision)
    → List Market
    → AccountSnapshot
    → String
    → Option (List String)
    → ReconcilePlan
unfolding build_market_plan
build_reconcile_plan decide_recovery markets a trace_id condition_ids =
    let plans =
      map (λ m. build_market_plan decide_recovery m a trace_id) (chosen condition_ids markets) in
    record {
      market_plans = plans;
      total_actions = count_actions plans;
      paused_market_count = count_paused plans;
    }
