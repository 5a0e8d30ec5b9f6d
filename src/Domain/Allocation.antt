-- ===== src/Domain/Allocation.antt =====
-- src/polymarket_trader/domain/allocation.py: budgets per market and the exposure that they count.
pub mod Exposure
use fdv.Base.{ℕ, ◌+◌, String, Bool, true, Option, none, some, List, [], ◌∷◌, if◌then◌else◌, ◌&&◌}
use fdv.Decimal.{Decimal, of_ℕ, add, sub, mul, div, lt}
use fdv.Domain.Order.{OrderRecord, is_buy, is_fak}
use fdv.Domain.Position.{Position}

pub record Allocation : Type 0 where
  pub condition_id : String
  pub target_budget_usdc : Decimal
  pub buy_budget_usdc : Decimal
  pub market_slug : Option String
  pub token_id : Option String
  pub current_exposure_usdc : Decimal
  pub released_budget_usdc : Decimal
  pub reason : String
  pub idempotency_key : Option String
  pub release_reason : String

pub record MarketBuyBudgetChanged : Type 0 where
  pub condition_id : String
  pub market_slug : Option String
  pub token_id : String
  pub previous_buy_budget_usdc : Decimal
  pub new_buy_budget_usdc : Decimal
  pub released_budget_usdc : Decimal
  pub release_reason : String
  pub current_exposure_usdc : Decimal
  pub target_budget_usdc : Decimal
  pub idempotency_key : Option String

pub record AllocationPlan : Type 0 where
  pub trace_id : String
  pub total_budget_usdc : Decimal
  pub allocations : List Allocation
  pub budget_changes : List MarketBuyBudgetChanged
  pub reason : String

-- `sum((field(a) for a in allocations), Decimal("0"))`
unfoldable pub sum_by : (Allocation → Decimal) → Decimal → List Allocation → Decimal
sum_by amount total [] = total
sum_by amount total (a ∷ rest) = sum_by amount (add total (amount a)) rest

unfoldable pub allocated_budget_usdc : AllocationPlan → Decimal
unfolding sum_by
allocated_budget_usdc p = sum_by (λ a. a.buy_budget_usdc) (of_ℕ 0) p.allocations

unfoldable pub released_budget_usdc : AllocationPlan → Decimal
unfolding sum_by
released_budget_usdc p = sum_by (λ a. a.released_budget_usdc) (of_ℕ 0) p.allocations

unfoldable pub unallocated_budget_usdc : AllocationPlan → Decimal
unallocated_budget_usdc p =
    let remaining = sub p.total_budget_usdc (allocated_budget_usdc p) in
    if lt (of_ℕ 0) remaining then remaining else of_ℕ 0

unfoldable pub eligible_count : List Allocation → ℕ
eligible_count [] = 0
eligible_count (a ∷ rest) =
    (if lt (of_ℕ 0) a.target_budget_usdc then 1 else 0) + eligible_count rest

abbrev pub eligible_market_count : AllocationPlan → ℕ
eligible_market_count p = eligible_count p.allocations

-- What a position counts: its cost, and for shares that are offered for sale their part of the
-- cost once more.
unfoldable pub position_exposure : Option Position → Decimal
position_exposure none = of_ℕ 0
position_exposure (some p) =
    let exposure = add (of_ℕ 0) p.cost_usdc in
    let open_sell = if lt p.shares p.open_sell_shares then p.shares else p.open_sell_shares in
    if lt (of_ℕ 0) p.shares && lt (of_ℕ 0) p.open_sell_shares
    then add exposure (mul p.cost_usdc (div open_sell p.shares))
    else exposure

-- The first of the three amounts that an order has: its amount, its notional, its price times its
-- size. The source also tests `order.price` for absence; the field is not optional.
unfoldable pub resting_amount :
    Decimal → Option Decimal → Option Decimal → Option Decimal → Option Decimal
resting_amount price (some amount) notional size = some amount
resting_amount price none (some notional) size = some notional
resting_amount price none none (some size) = some (mul price size)
resting_amount price none none none = none

-- An order that the loop passes over: a SELL or a FAK.
abbrev pub passed_over : OrderRecord → Bool
passed_over o = if is_buy o.side then is_fak o.order_type else true

-- What an order adds.
unfoldable pub order_exposure : OrderRecord → Option Decimal
unfolding resting_amount
order_exposure o =
    if passed_over o
    then none
    else resting_amount o.price o.amount_usdc o.notional_usdc o.size_shares

unfoldable pub orders_exposure : Decimal → List OrderRecord → Decimal
unfolding order_exposure
orders_exposure exposure [] = exposure
orders_exposure exposure (o ∷ rest) =
    orders_exposure (elim (order_exposure o) [ none ↦ exposure | some x ↦ add exposure x ]) rest

unfoldable pub current_exposure_usdc : Option Position → List OrderRecord → Decimal
unfolding position_exposure orders_exposure
current_exposure_usdc position open_orders =
    orders_exposure (position_exposure position) open_orders
