-- ===== src/Tests/Reconcile.antt =====
-- workers/reconcile_worker.py: a reconcile of a market that the exchange has paused.
use fdv.Base.{◌≡◌, refl, true, false, none, some, [], ◌∷◌, All, if◌then◌else◌, ◌==◌, string_eq}
use fdv.Decimal.{of_ℕ, hundredths}
use fdv.Domain.Market.{Market, TradingStatus}
use fdv.Domain.Account.{MarketPauseSource, build_pause, pause_for_market, empty_snapshot}
use fdv.Runtime.AccountStore.{new_store}
use fdv.Runtime.AccountStore.Invariant.{new_store-StoreValid}
use fdv.App.Decisions.{ExtensionAction, ExtensionDecision, RecoveryDecision}
use fdv.App.Reconcile.{ExtensionContext}
use fdv.App.Reconcile.Plan.{build_market_plan}
use fdv.App.Reconcile.Sizing.{OnMarket, build_market_plan-OnMarket}
use fdv.Workers.Reconcile.Applying.{reconcile_market}
use fdv.Workers.Reconcile.Outcome.{reconcile_market-pauses}
use fdv.Workers.Reconcile.Sticking.{none_yet, reconciled, reconcile_market-stays_paused}
use fdv.Tests.Data.{election}

abbrev sell_out : ExtensionDecision
sell_out = record {
  action = ExtensionAction.sell;
  reason = "exit";
  token_id = some "yes";
  price = some (hundredths 60);
  amount_usdc = none;
  size_shares = some (of_ℕ 3);
  order_id = none;
  order_type = none;
  market_slug = none;
}

-- A strategy that sells and asks for no pause.
abbrev exits : ExtensionContext → RecoveryDecision
exits c = record { reason = ""; actions = sell_out ∷ []; pause_trading = false; pause_reason = "" }

abbrev halted : Market
halted = record election { trading_status = TradingStatus.paused; reject_reason = none }

build_market_plan-OnMarket_example :
    All (OnMarket "c1") (build_market_plan exits election empty_snapshot "t9").actions
build_market_plan-OnMarket_example = build_market_plan-OnMarket exits election empty_snapshot "t9"

reconcile_market-pauses_example :
    let plan = build_market_plan exits halted new_store.snapshot "t9" in
    let reason = if plan.pause_reason == "" then "market_not_tradable" else plan.pause_reason in
    pause_for_market (reconcile_market none (5, 6) new_store plan).snapshot "c1" ≡ (
      if halted.condition_id == "c1"
      then (if plan.pause_trading
          then some (build_pause "c1" reason (some MarketPauseSource.reconcile) none)
          else none)
      else pause_for_market new_store.snapshot "c1")
reconcile_market-pauses_example =
    reconcile_market-pauses none halted (5, 6) "t9" exits new_store "c1" new_store-StoreValid

reconcile_market-stays_paused_example :
    let t =
      reconcile_market none
        (5, 6)
        new_store
        (build_market_plan exits halted new_store.snapshot "t9") in
    let u = reconcile_market none (7, 8) t (build_market_plan exits election t.snapshot "t10") in
    ((build_market_plan exits election u.snapshot "t11").pause_trading ≡ true)
    × ((build_market_plan exits election u.snapshot "t11").pause_reason ≡ "market_paused")
unfolding pause_for_market
reconcile_market-stays_paused_example =
    reconcile_market-stays_paused none halted election (5, 6) "t9" "t11" exits exits new_store _
      new_store-StoreValid refl refl refl refl
      (reconciled none election (7, 8) "t10" exits none_yet) refl
