-- ===== src/Domain/Risk/Admission.antt =====
-- `check_order_intent` passes exactly the admissible orders.
use fdv.Base.{◌≢◌, some, All, true, false, ◌≡◌, refl, ◌↔◌, []}
use fdv.Domain.Intent
use fdv.Decimal.{of_ℕ, add, ◌≼◌, ◌≺◌}
use fdv.Domain.Order.{TradableOrderIntent}
use fdv.Domain.Risk.Types.{RiskRequest, Gate}
use fdv.Domain.Risk.Inputs.{
  intent_notional_usdc, resolve_market_flags, effective_min_order_size, effective_tick_size,
  orders_count,
}
use fdv.Domain.Risk.Gates.{check_price_and_tick}
use fdv.Domain.Risk.Limits.{check_exposure_limits, check_operational_limits, check_account_gates}
use fdv.Domain.Risk.Manager.{
  market_exposure, portfolio_total, run_gates, conclude, check_order_intent,
}
use fdv.Domain.Risk.Spec.{
  Admissible, FlagsOk, StatusOk, TickOk, Within, Below, RetryOk, LiquidityOk, NotRestingBuy,
}
use fdv.Domain.Risk.Verdict.{Verdict, clears, refuses, Verdict-iff, Verdict-bind}
use fdv.Domain.Risk.Conditions.{
  order_size-Verdict, classification-Verdict, market_state-Verdict, tick-Verdict,
}
use fdv.Domain.Risk.Ceilings.{
  price-Verdict, min_order_size-Verdict, single_order-Verdict, single_market-Verdict, total-Verdict,
  open_orders-Verdict, retry-Verdict, geoblock-Verdict, balance-Verdict, allowance-Verdict,
  liquidity-Verdict, open_buy_orders-Verdict,
}

abbrev Chain : TradableOrderIntent → RiskRequest → Type 0
Chain i r =
    ((((((((of_ℕ 0 ≺ intent_notional_usdc i × r.classification_passed ≢ some false)
                  × (FlagsOk (resolve_market_flags r) × StatusOk r.market))
                × (of_ℕ 0 ≺ Intent.price i
                    × TickOk (Intent.price i) (effective_tick_size r.market r.orderbook)))
              × effective_min_order_size r.market r.min_order_size ≼ intent_notional_usdc i)
            × ((Within (intent_notional_usdc i) r.max_order_usdc
                  × Within (add (market_exposure i r) (intent_notional_usdc i)) r.max_market_usdc)
                × Within (add (portfolio_total i r) (intent_notional_usdc i)) r.max_total_usdc))
          × (Below (orders_count r) r.max_open_orders × RetryOk r.retry_count r.order_retry_limit))
        × ((r.geoblocked ≡ false × Within (intent_notional_usdc i) r.balance_usdc)
            × Within (intent_notional_usdc i) r.allowance_usdc))
      × LiquidityOk i r.orderbook (intent_notional_usdc i))
    × All (NotRestingBuy i) r.open_orders

-- The conditions in the order of the gates, gathered under their names.
gathered : (i : TradableOrderIntent) (r : RiskRequest) → Chain i r ↔ Admissible i r
gathered i r = (there, back)
  where
    there : Chain i r → Admissible i r
    there t = record {
      has_size = t.0.0.0.0.0.0.0.0.0;
      classified = t.0.0.0.0.0.0.0.0.1;
      flags_ok = t.0.0.0.0.0.0.0.1.0;
      status_ok = t.0.0.0.0.0.0.0.1.1;
      price_positive = t.0.0.0.0.0.0.1.0;
      tick_ok = t.0.0.0.0.0.0.1.1;
      minimum_met = t.0.0.0.0.0.1;
      order_limit = t.0.0.0.0.1.0.0;
      market_limit = t.0.0.0.0.1.0.1;
      total_limit = t.0.0.0.0.1.1;
      orders_limit = t.0.0.0.1.0;
      retry_ok = t.0.0.0.1.1;
      not_geoblocked = t.0.0.1.0.0;
      balance_ok = t.0.0.1.0.1;
      allowance_ok = t.0.0.1.1;
      liquidity_ok = t.0.1;
      no_resting_buy = t.1;
    }

    back : Admissible i r → Chain i r
    back a = (
      (
        (
          (
            (
              (
                (
                  ((a.has_size, a.classified), (a.flags_ok, a.status_ok)),
                  (a.price_positive, a.tick_ok),
                ),
                a.minimum_met,
              ),
              ((a.order_limit, a.market_limit), a.total_limit),
            ),
            (a.orders_limit, a.retry_ok),
          ),
          ((a.not_geoblocked, a.balance_ok), a.allowance_ok),
        ),
        a.liquidity_ok,
      ),
      a.no_resting_buy,
    )

run_gates-Verdict :
    (i : TradableOrderIntent) (r : RiskRequest) → Verdict (Admissible i r) (run_gates i r)
unfolding run_gates check_price_and_tick check_exposure_limits check_operational_limits
    check_account_gates
run_gates-Verdict i r = Verdict-iff (gathered i r) (
    Verdict-bind _
      (Verdict-bind _
        (Verdict-bind _
          (Verdict-bind _
            (Verdict-bind _
              (Verdict-bind _
                (Verdict-bind _
                  (Verdict-bind _
                    (Verdict-bind _ (order_size-Verdict i [] _)
                      (λ cs. classification-Verdict i cs _ _))
                    (λ cs. market_state-Verdict i _ _ cs))
                  (λ cs. Verdict-bind _ (price-Verdict i cs) (tick-Verdict i _)))
                (λ cs. min_order_size-Verdict i cs _ _))
              (λ cs.
                Verdict-bind _
                  (Verdict-bind _ (single_order-Verdict i cs _ _)
                    (λ ds. single_market-Verdict i ds _ _ _))
                  (λ ds. total-Verdict i ds _ _ _)))
            (λ cs. Verdict-bind _ (open_orders-Verdict i cs _ _) (λ ds. retry-Verdict i ds _ _)))
          (λ cs.
            Verdict-bind _
              (Verdict-bind _ (geoblock-Verdict i cs _) (λ ds. balance-Verdict i ds _ _))
              (λ ds. allowance-Verdict i ds _ _)))
        (λ cs. liquidity-Verdict i cs _ _))
      (λ cs. open_buy_orders-Verdict i cs _))

conclude-passed :
    {C : Type 0} {g : Gate} (i : TradableOrderIntent)
    → Verdict C g
    → ((conclude i g).passed ≡ true) ↔ C
conclude-passed i (clears checks c) = ((λ e. c), (λ x. refl))
conclude-passed i (refuses d n failed) = ((λ e. cc), (λ x. absurd (n x)))

pub check_order_intent-passes_iff :
    (i : TradableOrderIntent) (r : RiskRequest)
    → ((check_order_intent i r).passed ≡ true) ↔ Admissible i r
unfolding check_order_intent
check_order_intent-passes_iff i r = conclude-passed i (run_gates-Verdict i r)
