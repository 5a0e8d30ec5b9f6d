-- ===== src/Domain/Risk/Ceilings.antt =====
-- The gates on limits, funds, liquidity and resting orders go on exactly when their conditions of the
-- specification hold.
use fdv.Base.{
  iff_trans, some_iff, ◌≡◌, refl, ◌↔◌, inl, inr, Bool, true, false, not, ◌&&◌, Option, none, some,
  List, [], ◌∷◌, All, arith, if◌then◌else◌, is_empty, filter_by, string_eq, Bool-cases,
}
use fdv.Base.Integer.{ℤ, pos, ◌≤ℤ◌, leb_ℤ}
use fdv.Decimal.{Decimal, of_ℕ, add, le, lt, ◌≼◌, ◌≺◌}
use fdv.Domain.Order.{TradableOrderIntent, OrderRecord, is_buy}
use fdv.Domain.Intent
use fdv.Domain.Orderbook.{OrderbookSnapshot}
use fdv.Domain.Risk.Types.{RiskCheck}
use fdv.Domain.Risk.Inputs.{is_settled, concerns, open_buy_orders_for_subject, orderbook_depth_usdc}
use fdv.Domain.Risk.Gates.{
  check_price, check_min_order_size, within_limit, check_single_order, check_single_market,
  check_total,
}
use fdv.Domain.Risk.Limits.{
  below_limit, check_open_orders, check_retry, check_geoblock, check_balance, check_allowance,
  check_liquidity, check_open_buy_orders,
}
use fdv.Domain.Risk.Spec.{Within, Below, RetryOk, LiquidityOk, NotRestingBuy}
use fdv.Domain.Risk.Verdict.{Verdict, clears, Verdict-iff, Verdict-unless, Verdict-when}

lt-false_iff : (a b : Decimal) → (lt a b ≡ false) ↔ (b ≼ a)
lt-false_iff a b = ground arith

not_lt_iff : (x m : Decimal) → (within_limit x (some m) ≡ true) ↔ (x ≼ m)
not_lt_iff x m = ground arith

not_le_iff : (m n : ℤ) → (below_limit n (some m) ≡ true) ↔ (¬ (m ≤ℤ n))
not_le_iff m n = ground arith

retry_iff :
    (n m : ℤ)
    → ((leb_ℤ (pos 0) n && not (below_limit n (some m))) ≡ false) ↔ (pos 0 ≤ℤ n → ¬ (m ≤ℤ n))
retry_iff n m = ground arith

resting_buy_iff :
    (i : TradableOrderIntent) (o : OrderRecord)
    → ((concerns i o && (is_buy o.side && (if is_settled o.status then false else true))) ≡ false)
      ↔ NotRestingBuy i o
resting_buy_iff i o = ground (
  arith,
  string_eq.same_iff o.condition_id (Intent.condition_id i),
  string_eq.same_iff o.token_id (Intent.token_id i),
)

-- A filter leaves nothing exactly when its test holds nowhere.
filter_by-empty_iff :
    {A : Type 0} (keep : A → Bool) (P : A → Type 0)
    → ((a : A) → (keep a ≡ false) ↔ P a)
    → (xs : List A) → (is_empty (filter_by keep xs) ≡ true) ↔ All P xs
filter_by-empty_iff keep P e [] = ((λ h. tt), (λ h. refl))
filter_by-empty_iff keep P e (x ∷ xs) = elim (Bool-cases (keep x)) [
  | inl kept ↦ rw kept ((λ h. cc), (λ h. cc ((e x).1 h.0)))
  | inr dropped ↦
      let ih = filter_by-empty_iff keep P e xs in
      rw dropped ((λ h. ((e x).0 dropped, ih.0 h)), (λ h. ih.1 h.1))
]

no_open_buys_iff :
    (i : TradableOrderIntent) (orders : List OrderRecord)
    → (is_empty (open_buy_orders_for_subject orders i) ≡ true) ↔ All (NotRestingBuy i) orders
unfolding open_buy_orders_for_subject
no_open_buys_iff i orders = filter_by-empty_iff _ (NotRestingBuy i) (resting_buy_iff i) orders

Within-iff : (x : Decimal) (limit : Option Decimal) → (within_limit x limit ≡ true) ↔ Within x limit
Within-iff x none = ((λ h m e. cc), (λ h. refl))
Within-iff x (some m) = iff_trans (not_lt_iff x m) (some_iff (λ y. x ≼ y) m)

Below-iff : (n : ℤ) (limit : Option ℤ) → (below_limit n limit ≡ true) ↔ Below n limit
Below-iff n none = ((λ h m e. cc), (λ h. refl))
Below-iff n (some m) = iff_trans (not_le_iff m n) (some_iff (λ y. ¬ (y ≤ℤ n)) m)

module _ (i : TradableOrderIntent) (checks : List RiskCheck) where
  pub price-Verdict : Verdict (of_ℕ 0 ≺ Intent.price i) (check_price i checks)
  unfolding check_price
  price-Verdict = Verdict-unless _ _ _ _ (le (Intent.price i) (of_ℕ 0))

  pub min_order_size-Verdict :
      (notional minimum : Decimal)
      → Verdict (minimum ≼ notional) (check_min_order_size i notional minimum checks)
  unfolding check_min_order_size
  min_order_size-Verdict notional minimum =
      Verdict-iff (lt-false_iff notional minimum) (Verdict-unless _ _ _ _ (lt notional minimum))

  pub single_order-Verdict :
      (notional : Decimal) (limit : Option Decimal)
      → Verdict (Within notional limit) (check_single_order i notional limit checks)
  unfolding check_single_order
  single_order-Verdict notional limit =
      Verdict-iff (Within-iff notional limit) (Verdict-when _ _ _ _ (within_limit notional limit))

  pub single_market-Verdict :
      (notional exposure : Decimal) (limit : Option Decimal)
      → Verdict
          (Within (add exposure notional) limit)
          (check_single_market i notional exposure limit checks)
  unfolding check_single_market
  single_market-Verdict notional exposure limit =
      Verdict-iff (Within-iff (add exposure notional) limit)
        (Verdict-when _ _ _ _ (within_limit (add exposure notional) limit))

  pub total-Verdict :
      (notional total : Decimal) (limit : Option Decimal)
      → Verdict (Within (add total notional) limit) (check_total i notional total limit checks)
  unfolding check_total
  total-Verdict notional total limit =
      Verdict-iff (Within-iff (add total notional) limit)
        (Verdict-when _ _ _ _ (within_limit (add total notional) limit))

  pub open_orders-Verdict :
      (n : ℤ) (limit : Option ℤ) → Verdict (Below n limit) (check_open_orders i n limit checks)
  unfolding check_open_orders
  open_orders-Verdict n none = clears checks (λ m e. cc)
  open_orders-Verdict n (some m) =
      Verdict-iff (Below-iff n (some m)) (Verdict-when _ _ _ _ (below_limit n (some m)))

  pub retry-Verdict :
      (n : ℤ) (limit : Option ℤ) → Verdict (RetryOk n limit) (check_retry i n limit checks)
  unfolding check_retry
  retry-Verdict n none = clears checks (λ m e. cc)
  retry-Verdict n (some m) =
      Verdict-iff (iff_trans (retry_iff n m) (some_iff (λ y. pos 0 ≤ℤ n → ¬ (y ≤ℤ n)) m))
        (Verdict-unless _ _ _ _ (leb_ℤ (pos 0) n && not (below_limit n (some m))))

  pub geoblock-Verdict :
      (geoblocked : Bool) → Verdict (geoblocked ≡ false) (check_geoblock i geoblocked checks)
  unfolding check_geoblock
  geoblock-Verdict geoblocked = Verdict-unless _ _ _ _ geoblocked

  pub balance-Verdict :
      (notional : Decimal) (balance : Option Decimal)
      → Verdict (Within notional balance) (check_balance i notional balance checks)
  unfolding check_balance
  balance-Verdict notional balance =
      Verdict-iff (Within-iff notional balance)
        (Verdict-when _ _ _ _ (within_limit notional balance))

  pub allowance-Verdict :
      (notional : Decimal) (allowance : Option Decimal)
      → Verdict (Within notional allowance) (check_allowance i notional allowance checks)
  unfolding check_allowance
  allowance-Verdict notional allowance =
      Verdict-iff (Within-iff notional allowance)
        (Verdict-when _ _ _ _ (within_limit notional allowance))

  pub liquidity-Verdict :
      (orderbook : Option OrderbookSnapshot) (notional : Decimal)
      → Verdict (LiquidityOk i orderbook notional) (check_liquidity i orderbook notional checks)
  unfolding check_liquidity
  liquidity-Verdict none notional = clears checks (λ m e. cc)
  liquidity-Verdict (some book) notional =
      Verdict-iff
        (iff_trans (lt-false_iff (orderbook_depth_usdc book (Intent.price i)) notional)
          (some_iff (λ b. notional ≼ orderbook_depth_usdc b (Intent.price i)) book))
        (Verdict-unless _ _ _ _ (lt (orderbook_depth_usdc book (Intent.price i)) notional))

  pub open_buy_orders-Verdict :
      (open_orders : List OrderRecord)
      → Verdict (All (NotRestingBuy i) open_orders) (check_open_buy_orders i open_orders checks)
  unfolding check_open_buy_orders
  open_buy_orders-Verdict open_orders =
      Verdict-iff (no_open_buys_iff i open_orders)
        (Verdict-when _ _ _ _ (is_empty (open_buy_orders_for_subject open_orders i)))
