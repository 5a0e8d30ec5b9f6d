-- ===== src/Domain/Fees/Laws.antt =====
-- What `calculate_trade_fee` returns on every input.
use fdv.Base.{
  zero, suc, Bool, true, false, ◌&&◌, ◌≡◌, refl, inl, inr, Option, none, some, get_or, Bool-cases,
  arith,
}
use fdv.Base.Integer.{ℤ, pos, negsuc}
use fdv.Decimal.{Decimal, of_ℕ, le, same_value, ◌≼◌}
use fdv.Decimal.Order.{≼_refl}
use fdv.Decimal.Sign.{mul-nonneg, div-nonneg, sub-nonneg, quantize-nonneg, nonneg_of_coef}
use fdv.Decimal.Zero.{IsZero, mul-IsZero_left, mul-IsZero_right, quantize-IsZero}
use fdv.Domain.Fees.{
  TradeSide, LiquidityRole, PriceSource, Result, ok, err, bad_price, bad_size, FeeQuote,
  normalize_price, bps_to_rate, is_taker, charged_in_of, effective_rate, trade_fee_usdc,
  trade_fee_shares, quote_of, calculate_trade_fee,
}

abbrev pub InRange : Decimal → Type 0
InRange p = (of_ℕ 0 ≼ p) × (p ≼ of_ℕ 1)

bps_to_rate-nonneg : (r : ℤ) → of_ℕ 0 ≼ bps_to_rate r
unfolding bps_to_rate
bps_to_rate-nonneg (pos zero) = ≼_refl _
bps_to_rate-nonneg (pos (suc n)) =
    div-nonneg _ _ (nonneg_of_coef _ (omega arith)) (nonneg_of_coef _ (omega arith))
bps_to_rate-nonneg (negsuc n) = ≼_refl _

trade_fee_usdc-nonneg :
    (p s : Decimal) (r : ℤ) → InRange p → of_ℕ 0 ≼ s → of_ℕ 0 ≼ trade_fee_usdc p s r
unfolding trade_fee_usdc
trade_fee_usdc-nonneg p s r h k = quantize-nonneg 5 _ (
    mul-nonneg _ _ (mul-nonneg _ _ (mul-nonneg _ _ k (bps_to_rate-nonneg r)) h.0)
      (sub-nonneg _ _ h.1))

-- An amount that may be absent is not negative.
abbrev pub Nonneg? : Option Decimal → Type 0
Nonneg? none = Unit {0}
Nonneg? (some d) = of_ℕ 0 ≼ d

trade_fee_shares-nonneg :
    (side : TradeSide) (p fee : Decimal)
    → of_ℕ 0 ≼ p
    → of_ℕ 0 ≼ fee
    → Nonneg? (trade_fee_shares side p fee)
unfolding trade_fee_shares
trade_fee_shares-nonneg TradeSide.sell p fee h k = tt
trade_fee_shares-nonneg TradeSide.buy p fee h k = elim (Bool-cases (same_value p (of_ℕ 0))) [
  | inl e ↦ rw e (≼_refl _)
  | inr e ↦ rw e (quantize-nonneg 5 _ (div-nonneg fee p k h))
]

trade_fee_usdc-IsZero : (p s : Decimal) → IsZero (trade_fee_usdc p s (pos 0))
unfolding trade_fee_usdc
trade_fee_usdc-IsZero p s =
    quantize-IsZero 5 _
      (mul-IsZero_left _ _ (mul-IsZero_left _ _ (mul-IsZero_right s (of_ℕ 0) refl)))

-- A fee is due of takers where fees are on, and is zero else.
abbrev pub DueOrZero : Bool → Decimal → Type 0
DueOrZero true fee = Unit {0}
DueOrZero false fee = IsZero fee

-- What a quote promises for its arguments.
pub record Fair (price size : Decimal) (side : TradeSide) (fees_enabled : Option Bool)
    (role : LiquidityRole) (q : FeeQuote) : Type 0 where
  pub same_price : q.price ≡ price
  pub same_size : q.size_shares ≡ size
  pub currency : q.charged_in ≡ charged_in_of side
  pub fee_nonneg : of_ℕ 0 ≼ q.fee_usdc
  pub shares_nonneg : Nonneg? q.fee_shares
  pub due : DueOrZero (get_or fees_enabled true && is_taker role) q.fee_usdc

module _ (price size : Decimal) (side : TradeSide) (rate : Option ℤ) (fees_enabled : Option Bool)
    (role : LiquidityRole) (source : Option PriceSource) where
  quote_of-due :
      DueOrZero
        (get_or fees_enabled true && is_taker role)
        (trade_fee_usdc price size (effective_rate fees_enabled role rate))
  unfolding effective_rate
  quote_of-due = elim (Bool-cases (get_or fees_enabled true && is_taker role)) [
    | inl e ↦ rw e tt
    | inr e ↦ rw e (trade_fee_usdc-IsZero price size)
  ]

  quote_of-Fair :
      InRange price
      → of_ℕ 0 ≼ size
      → Fair price size side fees_enabled role
          (quote_of price size side rate fees_enabled role source)
  unfolding quote_of
  quote_of-Fair h k =
      let fee = trade_fee_usdc-nonneg price size (effective_rate fees_enabled role rate) h k in
      record {
        same_price = refl;
        same_size = refl;
        currency = refl;
        fee_nonneg = fee;
        shares_nonneg = trade_fee_shares-nonneg side price _ h.0 fee;
        due = quote_of-due;
      }

  -- The outcomes of a fee calculation and when each arises.
  abbrev pub Outcome : Result FeeQuote → Type 0
  Outcome (ok q) = InRange price × (of_ℕ 0 ≼ size) × Fair price size side fees_enabled role q
  Outcome (err (bad_price p)) = (p ≡ price) × (¬ InRange price)
  Outcome (err (bad_size s)) = (s ≡ size) × InRange price × (¬ (of_ℕ 0 ≼ size))

  -- `calculate_trade_fee` refuses a price outside 0 to 1, else a negative size, and otherwise gives a
  -- quote for that price and size, charged in the currency of its side, whose fees are not negative
  -- and whose fee is zero for makers and where fees are off.
  pub calculate_trade_fee-Outcome :
      Outcome (calculate_trade_fee price size side rate fees_enabled role source)
  unfolding calculate_trade_fee
  calculate_trade_fee-Outcome = elim (Bool-cases (le (of_ℕ 0) price)) [
    | inr low ↦ rw (low, normalize_price) (refl, λ h. cc)
    | inl p ↦ elim (Bool-cases (le price (of_ℕ 1))) [
      | inr high ↦ rw (p, high) (refl, λ h. cc)
      | inl q ↦ elim (Bool-cases (le (of_ℕ 0) size)) [
        | inr neg ↦ rw (p, q, neg) (refl, (p, q), λ h. cc)
        | inl s ↦ rw (p, q, s) ((p, q), s, quote_of-Fair (p, q) s)
      ]
    ]
  ]
