-- ===== src/Domain/Risk/Audit.antt =====
-- Every decision of `check_order_intent` carries an audit trail that agrees with it.
use mathlib.Core.Bool.{false≢true}
use fdv.Base.{
  Bool, true, false, String, Option, none, some, ◌≡◌, refl, ◌⊎◌, inl, inr, List, [], ◌∷◌, All,
  Bool-cases, not, ◌&&◌, is_empty,
}
use fdv.Base.Integer.{ℤ, pos, leb_ℤ}
use fdv.Decimal.{Decimal, of_ℕ, add, le, lt}
use fdv.Domain.Order.{TradableOrderIntent}
use fdv.Domain.Intent
use fdv.Domain.Market.{Market, is_eligible}
use fdv.Domain.Orderbook.{OrderbookSnapshot}
use fdv.Domain.Risk.Types.{RiskCheck, RiskDecision, RiskRequest, Gate, Failure}
use fdv.Domain.Risk.Inputs.{orderbook_depth_usdc, open_buy_orders_for_subject}
use fdv.Domain.Risk.Gates.{
  check_order_size, check_classification, tick_fits, check_tick, check_price, check_price_and_tick,
  check_min_order_size, within_limit, check_single_order, check_single_market, check_total,
}
use fdv.Domain.Risk.Flags.{FlagRow, check_flags, check_market_status, check_market_state}
use fdv.Domain.Risk.Limits.{
  check_exposure_limits, below_limit, check_open_orders, check_retry, check_operational_limits,
  check_geoblock, check_balance, check_allowance, check_account_gates, check_liquidity,
  check_open_buy_orders,
}
use fdv.Domain.Risk.Manager.{run_gates, conclude, check_order_intent}
use fdv.Domain.Risk.Trail.{
  Passed, Earlier, failed_decision, RetryIsLiquidity, Trail, passing, failing, Trail-bind,
  Trail-fail, Trail-fail_row, Trail-unless, Trail-when, Trail-unless_note, Trail-when_note,
  All-snoc,
}

never : {P : Type 0} → false ≡ true → P
never e = absurd (false≢true e)

check_flags-Trail :
    (i : TradableOrderIntent) (rows : List FlagRow) (checks : List RiskCheck)
    → All Passed checks
    → Trail (Intent.trace_id i) (check_flags i rows checks)
unfolding check_flags
check_flags-Trail i [] checks p = passing checks p
check_flags-Trail i (row ∷ rows) checks p = elim (Bool-cases row.passed) [
  | inl e ↦ rw (e, check_flags) (check_flags-Trail i rows _ (All-snoc _ checks _ p refl))
  | inr e ↦ rw (e, check_flags) (Trail-fail_row _ checks _ _ p (refl, refl) never)
]

module _ (i : TradableOrderIntent) (checks : List RiskCheck) (p : All Passed checks) where
  order_size-Trail : (n : Decimal) → Trail (Intent.trace_id i) (check_order_size i n checks)
  unfolding check_order_size
  order_size-Trail n = Trail-unless_note _ checks _ p never _ (le n (of_ℕ 0)) refl

  classification-Trail :
      (c : Option Bool) (reason : Option String)
      → Trail (Intent.trace_id i) (check_classification i c reason checks)
  unfolding check_classification
  classification-Trail none reason = passing _ (All-snoc _ checks _ p refl)
  classification-Trail (some true) reason = passing _ (All-snoc _ checks _ p refl)
  classification-Trail (some false) reason = Trail-fail _ checks _ p never

  market_status-Trail :
      (market : Option Market) → Trail (Intent.trace_id i) (check_market_status i market checks)
  unfolding check_market_status
  market_status-Trail none = passing checks p
  market_status-Trail (some m) = Trail-when _ checks _ p never (is_eligible m.trading_status)

  price-Trail : Trail (Intent.trace_id i) (check_price i checks)
  unfolding check_price
  price-Trail = Trail-unless _ checks _ p never (le (Intent.price i) (of_ℕ 0))

  tick-Trail : (tick : Option Decimal) → Trail (Intent.trace_id i) (check_tick i tick checks)
  unfolding check_tick
  tick-Trail tick = Trail-when_note _ checks _ p never _ (tick_fits (Intent.price i) tick) refl

  min_order_size-Trail :
      (n m : Decimal) → Trail (Intent.trace_id i) (check_min_order_size i n m checks)
  unfolding check_min_order_size
  min_order_size-Trail n m = Trail-unless _ checks _ p never (lt n m)

  single_order-Trail :
      (n : Decimal) (l : Option Decimal)
      → Trail (Intent.trace_id i) (check_single_order i n l checks)
  unfolding check_single_order
  single_order-Trail n l = Trail-when _ checks _ p never (within_limit n l)

  single_market-Trail :
      (n x : Decimal) (l : Option Decimal)
      → Trail (Intent.trace_id i) (check_single_market i n x l checks)
  unfolding check_single_market
  single_market-Trail n x l = Trail-when _ checks _ p never (within_limit (add x n) l)

  total-Trail :
      (n x : Decimal) (l : Option Decimal) → Trail (Intent.trace_id i) (check_total i n x l checks)
  unfolding check_total
  total-Trail n x l = Trail-when _ checks _ p never (within_limit (add x n) l)

  open_orders-Trail :
      (n : ℤ) (l : Option ℤ) → Trail (Intent.trace_id i) (check_open_orders i n l checks)
  unfolding check_open_orders
  open_orders-Trail n none = passing checks p
  open_orders-Trail n (some m) = Trail-when _ checks _ p never (below_limit n (some m))

  retry-Trail : (n : ℤ) (l : Option ℤ) → Trail (Intent.trace_id i) (check_retry i n l checks)
  unfolding check_retry
  retry-Trail n none = passing checks p
  retry-Trail n (some m) =
      Trail-unless _ checks _ p never (leb_ℤ (pos 0) n && not (below_limit n (some m)))

  geoblock-Trail : (b : Bool) → Trail (Intent.trace_id i) (check_geoblock i b checks)
  unfolding check_geoblock
  geoblock-Trail b = Trail-unless _ checks _ p never b

  balance-Trail :
      (n : Decimal) (l : Option Decimal) → Trail (Intent.trace_id i) (check_balance i n l checks)
  unfolding check_balance
  balance-Trail n l = Trail-when _ checks _ p never (within_limit n l)

  allowance-Trail :
      (n : Decimal) (l : Option Decimal) → Trail (Intent.trace_id i) (check_allowance i n l checks)
  unfolding check_allowance
  allowance-Trail n l = Trail-when _ checks _ p never (within_limit n l)

  liquidity-Trail :
      (b : Option OrderbookSnapshot) (n : Decimal)
      → Trail (Intent.trace_id i) (check_liquidity i b n checks)
  unfolding check_liquidity
  liquidity-Trail none n = passing checks p
  liquidity-Trail (some b) n =
      Trail-unless _ checks _ p (λ e. refl) (lt (orderbook_depth_usdc b (Intent.price i)) n)

run_gates-Trail :
    (i : TradableOrderIntent) (r : RiskRequest) → Trail (Intent.trace_id i) (run_gates i r)
unfolding run_gates check_market_state check_price_and_tick check_exposure_limits
    check_operational_limits check_account_gates check_open_buy_orders
run_gates-Trail i r =
    Trail-bind _
      (Trail-bind _
        (Trail-bind _
          (Trail-bind _
            (Trail-bind _
              (Trail-bind _
                (Trail-bind _
                  (Trail-bind _
                    (Trail-bind _ (order_size-Trail i [] tt _)
                      (λ cs p. classification-Trail i cs p _ _))
                    (λ cs p.
                      Trail-bind _ (check_flags-Trail i _ cs p)
                        (λ ds q. market_status-Trail i ds q _)))
                  (λ cs p. Trail-bind _ (price-Trail i cs p) (λ ds q. tick-Trail i ds q _)))
                (λ cs p. min_order_size-Trail i cs p _ _))
              (λ cs p.
                Trail-bind _
                  (Trail-bind _ (single_order-Trail i cs p _ _)
                    (λ ds q. single_market-Trail i ds q _ _ _))
                  (λ ds q. total-Trail i ds q _ _ _)))
            (λ cs p. Trail-bind _ (open_orders-Trail i cs p _ _) (λ ds q. retry-Trail i ds q _ _)))
          (λ cs p.
            Trail-bind _ (Trail-bind _ (geoblock-Trail i cs p _) (λ ds q. balance-Trail i ds q _ _))
              (λ ds q. allowance-Trail i ds q _ _)))
        (λ cs p. liquidity-Trail i cs p _ _))
      (λ cs p.
        Trail-when_note _ cs _ p never _ (is_empty (open_buy_orders_for_subject r.open_orders i))
          refl)

-- Either the decision passed and so did all of its checks, or it repeats its last check, which
-- failed, and the checks before that passed or are that failure's own first note.
abbrev pub Audited : String → RiskDecision → Type 0
Audited t d =
    ((d.passed ≡ true) × (d.trace_id ≡ t) × All Passed d.checks)
    ⊎ ((earlier : List RiskCheck) × (f : Failure) × (d ≡ failed_decision t earlier f)
        × All (Earlier f) earlier
        × RetryIsLiquidity f)

conclude-Audited :
    {g : Gate} (i : TradableOrderIntent)
    → Trail (Intent.trace_id i) g
    → Audited (Intent.trace_id i) (conclude i g)
conclude-Audited i (passing checks p) = inl (refl, refl, p)
conclude-Audited i (failing d earlier f e p q) = inr (earlier, f, e, p, q)

-- A decision of `check_order_intent` carries the intent's trace id. If it passed, so did all of its
-- checks. If not, its reason, field, action and retry flag are those of its last check, which
-- failed; each check before that passed or bears the same name and field; and only a failure of the
-- liquidity gate may be retried.
pub check_order_intent-Audited :
    (i : TradableOrderIntent) (r : RiskRequest)
    → Audited (Intent.trace_id i) (check_order_intent i r)
unfolding check_order_intent
check_order_intent-Audited i r = conclude-Audited i (run_gates-Trail i r)
