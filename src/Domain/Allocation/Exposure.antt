-- ===== src/Domain/Allocation/Exposure.antt =====
-- Exposures and budgets do not go below zero.
use fdv.Base.{
  true, false, ◌≡◌, refl, inl, inr, Option, none, some, List, [], ◌∷◌, All, filter_by, not,
  Bool-cases, if◌then◌else◌, ◌&&◌,
}
use fdv.Decimal.{Decimal, of_ℕ, add, mul, div, lt, ◌≼◌}
use fdv.Decimal.Order.{≼_refl}
use fdv.Decimal.Sign.{add-nonneg, mul-nonneg, div-nonneg}
use fdv.Domain.Order.{OrderRecord}
use fdv.Domain.Position.{Position}
use fdv.Domain.Allocation.{
  position_exposure, passed_over, resting_amount, order_exposure, orders_exposure,
  current_exposure_usdc,
}

-- An amount that may be absent is not below zero.
abbrev Sane? : Option Decimal → Type 0
Sane? none = Unit {0}
Sane? (some d) = of_ℕ 0 ≼ d

-- What an account reports: no amount of a position or an order is below zero.
abbrev pub SanePosition : Option Position → Type 0
SanePosition none = Unit {0}
SanePosition (some p) = (of_ℕ 0 ≼ p.shares) × (of_ℕ 0 ≼ p.cost_usdc) × (of_ℕ 0 ≼ p.open_sell_shares)

abbrev pub SaneOrder : OrderRecord → Type 0
SaneOrder o = (of_ℕ 0 ≼ o.price) × Sane? o.amount_usdc × Sane? o.notional_usdc × Sane? o.size_shares

position_exposure-nonneg : (p : Option Position) → SanePosition p → of_ℕ 0 ≼ position_exposure p
unfolding position_exposure
position_exposure-nonneg none h = ≼_refl _
position_exposure-nonneg (some p) (shares, cost, selling) =
    let base = add-nonneg (of_ℕ 0) p.cost_usdc (≼_refl _) cost in
    elim (lt (of_ℕ 0) p.shares && lt (of_ℕ 0) p.open_sell_shares)
      as (λ b. of_ℕ 0 ≼ (
        if b
        then add (add (of_ℕ 0) p.cost_usdc) (
            mul p.cost_usdc (
              div (if lt p.shares p.open_sell_shares then p.shares else p.open_sell_shares)
                p.shares))
        else add (of_ℕ 0) p.cost_usdc)) [
          | true ↦ add-nonneg _ _ base (
              mul-nonneg _ _ cost
                (div-nonneg _ _ (lesser p.shares p.open_sell_shares shares selling) shares))
          | false ↦ base
        ]
  where
    lesser : (a b : Decimal) → of_ℕ 0 ≼ a → of_ℕ 0 ≼ b → of_ℕ 0 ≼ (if lt a b then a else b)
    lesser a b h k = elim (lt a b) as (λ c. of_ℕ 0 ≼ (if c then a else b)) [ true ↦ h | false ↦ k ]

resting_amount-nonneg :
    (price : Decimal) (amount notional size : Option Decimal)
    → of_ℕ 0 ≼ price
    → Sane? amount
    → Sane? notional
    → Sane? size
    → Sane? (resting_amount price amount notional size)
unfolding resting_amount
resting_amount-nonneg price (some a) n s hp ha hn hs = ha
resting_amount-nonneg price none (some n) s hp ha hn hs = hn
resting_amount-nonneg price none none (some s) hp ha hn hs = mul-nonneg price s hp hs
resting_amount-nonneg price none none none hp ha hn hs = tt

order_exposure-nonneg : (o : OrderRecord) → SaneOrder o → Sane? (order_exposure o)
unfolding order_exposure
order_exposure-nonneg o (price, amount, notional, size) = elim (Bool-cases (passed_over o)) [
  | inl passed ↦ rw passed tt
  | inr rests ↦ rw rests (resting_amount-nonneg _ _ _ _ price amount notional size)
]

-- The exposure with what an order adds.
abbrev with_amount : Decimal → Option Decimal → Decimal
with_amount exposure none = exposure
with_amount exposure (some x) = add exposure x

with_amount-nonneg :
    (exposure : Decimal) (x : Option Decimal)
    → of_ℕ 0 ≼ exposure
    → Sane? x
    → of_ℕ 0 ≼ with_amount exposure x
with_amount-nonneg exposure none h k = h
with_amount-nonneg exposure (some x) h k = add-nonneg exposure x h k

orders_exposure-nonneg :
    (exposure : Decimal) (os : List OrderRecord)
    → of_ℕ 0 ≼ exposure
    → All SaneOrder os
    → of_ℕ 0 ≼ orders_exposure exposure os
unfolding orders_exposure
orders_exposure-nonneg exposure [] h k = h
orders_exposure-nonneg exposure (o ∷ os) h k =
    orders_exposure-nonneg (with_amount exposure (order_exposure o)) os
      (with_amount-nonneg exposure (order_exposure o) h (order_exposure-nonneg o k.0)) k.1

-- The exposure of a market is not below zero when no amount of its position or its orders is.
pub current_exposure_usdc-nonneg :
    (p : Option Position) (os : List OrderRecord)
    → SanePosition p
    → All SaneOrder os
    → of_ℕ 0 ≼ current_exposure_usdc p os
unfolding current_exposure_usdc
current_exposure_usdc-nonneg p os h k = orders_exposure-nonneg _ os (position_exposure-nonneg p h) k

orders_exposure-resting :
    (exposure : Decimal) (os : List OrderRecord)
    → orders_exposure exposure os
      ≡ orders_exposure exposure (filter_by (λ o. not (passed_over o)) os)
unfolding orders_exposure order_exposure
orders_exposure-resting exposure [] = refl
orders_exposure-resting exposure (o ∷ os) = elim (Bool-cases (passed_over o)) [
  | inl passed ↦ rw passed (orders_exposure-resting exposure os)
  | inr rests ↦ rw rests (
      rw rests (
        orders_exposure-resting
          (with_amount exposure
            (resting_amount o.price o.amount_usdc o.notional_usdc o.size_shares))
          os))
]

-- Only resting GTC BUY orders count towards the exposure: it is the same without the SELL orders
-- and without the FAK orders.
pub current_exposure_usdc-resting :
    (p : Option Position) (os : List OrderRecord)
    → current_exposure_usdc p os ≡ current_exposure_usdc p (filter_by (λ o. not (passed_over o)) os)
unfolding current_exposure_usdc
current_exposure_usdc-resting p os = orders_exposure-resting (position_exposure p) os
