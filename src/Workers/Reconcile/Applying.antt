-- ===== src/Workers/Reconcile/Applying.antt =====
-- workers/reconcile_action_applier.py and reconcile_worker.py: the actions of a plan, one after the other.
use fdv.Base.{Option, none, some, List, [], ◌∷◌, get_or, if◌then◌else◌, ◌==◌, string_eq}
use fdv.Domain.Market.{Market}
use fdv.Domain.Account.{AccountSnapshot, MarketPauseSource}
use fdv.Runtime.AccountStore.{AccountStore, pause_market, resume_market}
use fdv.App.Trading.{Executor}
use fdv.App.Reconcile.{
  ReconcileActionType, cancel_order, submit_order, replace_order, pause_trading, resume_trading,
  ReconcileAction, ReconcileMarketPlan,
}
use fdv.Workers.Reconcile.{apply_cancel, Times, apply_submit_order}
use fdv.Workers.Reconcile.Replacing.{apply_replace}

-- `ReconcileActionApplier.apply`
unfoldable pub apply_typed :
    Option Executor
    → AccountStore
    → ReconcileAction
    → Market
    → AccountSnapshot
    → Times
    → ReconcileActionType
    → Option AccountStore
unfolding resume_market apply_cancel apply_replace apply_submit_order
apply_typed e s a m snapshot now pause_trading = some s
apply_typed e s a m snapshot now resume_trading = some (resume_market s a.condition_id)
apply_typed e s a m snapshot now cancel_order = apply_cancel e s a snapshot a.intent
apply_typed e s a m snapshot now replace_order = apply_replace e s a snapshot now a.intent
apply_typed e s a m snapshot now submit_order = apply_submit_order e s a m snapshot now a.intent

unfoldable pub apply :
    Option Executor
    → AccountStore
    → ReconcileAction
    → Market
    → AccountSnapshot
    → Times
    → Option AccountStore
unfolding apply_typed
apply e s a m snapshot now = apply_typed e s a m snapshot now a.action_type

-- The loop over the actions of a market: each is applied to what the one before left, with the
-- snapshot that the store publishes then, as no other writer comes between.
unfoldable pub apply_actions :
    Option Executor → Market → Times → AccountStore → List ReconcileAction → AccountStore
unfolding apply
apply_actions e m now s [] = s
apply_actions e m now s (a ∷ rest) =
    apply_actions e m now (get_or (apply e s a m s.snapshot now) s) rest

-- One market of `reconcile_once`.
unfoldable pub reconcile_market :
    Option Executor → Times → AccountStore → ReconcileMarketPlan → AccountStore
unfolding apply_actions pause_market
reconcile_market e now s p =
    let reason = if p.pause_reason == "" then "market_not_tradable" else p.pause_reason in
    let paused =
      if p.pause_trading
      then pause_market s p.market.condition_id reason (some MarketPauseSource.reconcile) none
      else s in
    apply_actions e p.market now paused p.actions

unfoldable pub reconcile_markets :
    Option Executor → Times → AccountStore → List ReconcileMarketPlan → AccountStore
unfolding reconcile_market
reconcile_markets e now s [] = s
reconcile_markets e now s (p ∷ ps) = reconcile_markets e now (reconcile_market e now s p) ps
