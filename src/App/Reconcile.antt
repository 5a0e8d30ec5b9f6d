-- ===== src/App/Reconcile.antt =====
-- app/reconcile_service.py: what is to be done for each market, from the snapshots and the decision of
-- the strategy, which is an argument. `_order_open_size` and `_normalize_order_id` are the functions
-- `order_open_size` and `order_key` of other modules.
pub mod Sizing
pub mod Plan
use fdv.Base.{
  ℕ, suc, ◌+◌, String, str_append, Bool, true, false, not, ◌&&◌, ◌||◌, Option, none, some, List, [],
  ◌∷◌, ◌++◌, length, map, filter_by, any_by, is_none, text_or, if◌then◌else◌, ◌==◌, string_eq,
}
use fdv.Base.Dict.{Dict, lookup, index_by}
use fdv.Decimal.{Decimal, mul}
use fdv.Domain.Order.{
  OrderSide, OrderRecord, TradableOrderIntent, buying, selling, CancelOrderIntent,
  ReplaceOrderIntent, ManagedOrderIntent, trading, cancelling, replacing,
}
use fdv.Domain.Intent
use fdv.Domain.Market.{Market, MarketOutcome, TradingStatus, token_ids}
use fdv.Domain.Position.{Position}
use fdv.Domain.Account.{
  AccountSnapshot, MarketPause, get_position, open_orders_for_market, pause_for_market,
  without_market_pause,
}
use fdv.Runtime.AccountStore.{order_key}
use fdv.App.Projection.Amounts.{order_open_size}
use fdv.App.Decisions.{ExtensionDecision, RecoveryDecision, decision_to_managed_intent}

pub data ReconcileActionType : Type 0 where
  cancel_order submit_order replace_order pause_trading resume_trading : ReconcileActionType

pub record ReconcileAction : Type 0 where
  pub action_type : ReconcileActionType
  pub trace_id : String
  pub condition_id : String
  pub token_id : Option String
  pub market_slug : Option String
  pub reason : String
  pub source_order_id : Option String
  pub source_order_side : Option OrderSide
  pub target_size_shares : Option Decimal
  pub target_notional_usdc : Option Decimal
  pub pause_reason : Option String
  pub intent : Option ManagedOrderIntent

pub record MarketTokenView : Type 0 where
  pub token_id : String
  pub outcome : String
  pub position : Option Position
  pub open_orders : List OrderRecord

-- The context that a recovery is decided on.
pub record ExtensionContext : Type 0 where
  pub trace_id : String
  pub market : Market
  pub market_token_views : List MarketTokenView
  pub account_snapshot : AccountSnapshot
  pub open_orders : List OrderRecord

pub record ReconcileMarketPlan : Type 0 where
  pub trace_id : String
  pub market : Market
  pub open_orders : List OrderRecord
  pub actions : List ReconcileAction
  pub pause_trading : Bool
  pub pause_reason : String

abbrev pub is_shut : TradingStatus → Bool
is_shut TradingStatus.paused = true
is_shut TradingStatus.closed = true
is_shut TradingStatus.resolved = true
is_shut s = false

abbrev pub orders_of : AccountSnapshot → String → List String → List OrderRecord
orders_of a condition_id [] = []
orders_of a condition_id (t ∷ ts) =
    open_orders_for_market a condition_id t ++ orders_of a condition_id ts

abbrev pub token_view : AccountSnapshot → String → MarketOutcome → MarketTokenView
token_view a condition_id o = record {
  token_id = o.token_id;
  outcome = o.outcome;
  position = get_position a condition_id o.token_id;
  open_orders = open_orders_for_market a condition_id o.token_id;
}

abbrev pub is_sticky : Option MarketPause → Bool
is_sticky none = false
is_sticky (some p) = not p.recoverable

-- `_account_snapshot_for_recovery`
abbrev pub account_snapshot_for_recovery :
    AccountSnapshot → String → Option MarketPause → AccountSnapshot
account_snapshot_for_recovery a condition_id none = a
account_snapshot_for_recovery a condition_id (some p) =
    if p.recoverable then without_market_pause a condition_id else a

abbrev pub reason_of : Option MarketPause → String
reason_of none = ""
reason_of (some p) = p.reason

-- `_pause_reason`
unfoldable pub market_pause_reason : Market → Option MarketPause → String
market_pause_reason m p = elim m.trading_status [
  | TradingStatus.paused ↦ text_or m.reject_reason "market_paused"
  | TradingStatus.closed ↦ text_or m.reject_reason "market_closed"
  | TradingStatus.resolved ↦ text_or m.reject_reason "market_resolved"
  | _ ↦ reason_of p
]

-- `_resolved_pause_reason`
unfoldable pub resolved_pause_reason : Market → Option MarketPause → String → Bool → String
unfolding market_pause_reason
resolved_pause_reason m p recovery_reason pauses =
    if is_sticky p
    then reason_of p
    else if recovery_reason == ""
    then (if pauses then market_pause_reason m p else "")
    else recovery_reason
