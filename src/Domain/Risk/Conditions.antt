-- ===== src/Domain/Risk/Conditions.antt =====
-- The gates on the size, the market and the tick go on exactly when their conditions of the
-- specification hold.
use native.Mathlib.Nat.{div-add-mod', mul-mod_left}
use mathlib.Core.Bool.{false≢true}
use fdv.Base.{
  iff_trans, some_iff, ℕ, ◌*◌, ◌/◌, ◌%◌, ◌^◌, ◌≡◌, refl, ◌≢◌, ◌↔◌, inl, inr, Bool, true, false,
  Option, none, some, List, [], ◌∷◌, All, arith, nat_beq_iff, String, string_eq, Bool-cases,
}
use fdv.Base.Integer.{magnitude}
use fdv.Decimal.{Decimal, of_ℕ, le, divides, ◌≺◌}
use fdv.Domain.Order.{TradableOrderIntent}
use fdv.Domain.Intent
use fdv.Domain.Market.{Market, TradingStatus, is_eligible}
use fdv.Domain.Risk.Types.{RiskCheck}
use fdv.Domain.Risk.Inputs.{MarketFlags, is_multiple_of_tick}
use fdv.Domain.Risk.Gates.{check_order_size, check_classification, tick_fits, check_tick}
use fdv.Domain.Risk.Flags.{FlagRow, flag_rows, check_flags, check_market_status, check_market_state}
use fdv.Domain.Risk.Spec.{IsMultipleOf, FlagsOk, StatusOk, TickOk}
use fdv.Domain.Risk.Verdict.{
  Verdict, clears, Verdict-iff, Verdict-bind, Verdict-fail, Verdict-unless, Verdict-when,
}

module _ (i : TradableOrderIntent) (checks : List RiskCheck) where
  pub order_size-Verdict :
      (notional : Decimal) → Verdict (of_ℕ 0 ≺ notional) (check_order_size i notional checks)
  unfolding check_order_size
  order_size-Verdict notional = Verdict-unless _ _ _ _ (le notional (of_ℕ 0))

  pub classification-Verdict :
      (passed : Option Bool) (reason : Option String)
      → Verdict (passed ≢ some false) (check_classification i passed reason checks)
  unfolding check_classification
  classification-Verdict none reason = clears _ (λ e. cc)
  classification-Verdict (some true) reason = clears _ (λ e. cc)
  classification-Verdict (some false) reason = Verdict-fail _ _ _ (λ n. n refl)

-- Every row of the table has passed.
abbrev RowsOk : List FlagRow → Type 0
RowsOk = All (λ row. row.passed ≡ true)

check_flags-Verdict :
    (i : TradableOrderIntent) (rows : List FlagRow) (checks : List RiskCheck)
    → Verdict (RowsOk rows) (check_flags i rows checks)
unfolding check_flags
check_flags-Verdict i [] checks = clears checks tt
check_flags-Verdict i (row ∷ rows) checks = elim (Bool-cases row.passed) [
  | inl e ↦ rw e (Verdict-iff (λ h. (refl, h), λ h. h.1) (check_flags-Verdict i rows _))
  | inr e ↦ rw e (Verdict-fail _ _ _ (λ h. false≢true h.0))
]

RowsOk-FlagsOk : (f : MarketFlags) → RowsOk (flag_rows f) ↔ FlagsOk f
unfolding flag_rows
RowsOk-FlagsOk f = ground arith

is_eligible_iff : (s : TradingStatus) → (is_eligible s ≡ true) ↔ (s ≡ TradingStatus.eligible)
is_eligible_iff s = ground arith

market_status-Verdict :
    (i : TradableOrderIntent) (market : Option Market) (checks : List RiskCheck)
    → Verdict (StatusOk market) (check_market_status i market checks)
unfolding check_market_status
market_status-Verdict i none checks = clears checks (λ m e. cc)
market_status-Verdict i (some m) checks =
    Verdict-iff
      (iff_trans (is_eligible_iff m.trading_status)
        (some_iff (λ x. x.trading_status ≡ TradingStatus.eligible) m))
      (Verdict-when _ _ _ _ (is_eligible m.trading_status))

pub market_state-Verdict :
    (i : TradableOrderIntent) (market : Option Market) (f : MarketFlags) (checks : List RiskCheck)
    → Verdict (FlagsOk f × StatusOk market) (check_market_state i market f checks)
unfolding check_market_state
market_state-Verdict i market f checks =
    Verdict-bind _ (Verdict-iff (RowsOk-FlagsOk f) (check_flags-Verdict i (flag_rows f) checks))
      (market_status-Verdict i market)

divides_iff : (t p : Decimal) → (divides t p ≡ true) ↔ IsMultipleOf t p
unfolding divides
divides_iff t p = (there, back)
  where
    a : ℕ
    a = magnitude p.coef * 10 ^ t.scale

    b : ℕ
    b = magnitude t.coef * 10 ^ p.scale

    there : divides t p ≡ true → IsMultipleOf t p
    there h = (a / b, let z : a % b ≡ 0 = (nat_beq_iff _ _).0 h in omega (arith, div-add-mod' a b))

    back : IsMultipleOf t p → divides t p ≡ true
    back h = (nat_beq_iff _ _).1 (rw h.1 (mul-mod_left _ _))

fits_iff :
    (price t : Decimal) → (tick_fits price (some t) ≡ true) ↔ ((of_ℕ 0 ≺ t) × IsMultipleOf t price)
unfolding is_multiple_of_tick
fits_iff price t = (
  (λ h. (ground arith, (divides_iff t price).0 (ground arith))),
  (λ h. let d = (divides_iff t price).1 h.1 in ground arith),
)

tick_fits_iff :
    (price : Decimal) (tick : Option Decimal) → (tick_fits price tick ≡ true) ↔ TickOk price tick
tick_fits_iff price none = ((λ h t e. cc), (λ h. refl))
tick_fits_iff price (some t) =
    iff_trans (fits_iff price t) (some_iff (λ x. (of_ℕ 0 ≺ x) × IsMultipleOf x price) t)

pub tick-Verdict :
    (i : TradableOrderIntent) (tick : Option Decimal) (checks : List RiskCheck)
    → Verdict (TickOk (Intent.price i) tick) (check_tick i tick checks)
unfolding check_tick
tick-Verdict i tick checks =
    Verdict-iff (tick_fits_iff (Intent.price i) tick)
      (Verdict-when _ _ _ _ (tick_fits (Intent.price i) tick))
