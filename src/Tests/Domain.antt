-- ===== src/Tests/Domain.antt =====
-- Fees, exposures, depths and pauses at concrete inputs.
use fdv.Base.{true, refl, none, some, All, List, [], false, ◌∷◌, string_eq}
use fdv.Base.Integer.{pos}
use fdv.Decimal.{of_ℕ, hundredths, evaluate}
use fdv.Domain.Order.{OrderSide, OrderType, OrderRecord}
use fdv.Domain.Fees.{TradeSide, LiquidityRole, calculate_trade_fee}
use fdv.Domain.Fees.Laws.{Outcome, calculate_trade_fee-Outcome}
use fdv.Domain.Allocation.Exposure.{SanePosition, SaneOrder}
use fdv.Domain.Account.{AccountSnapshot, empty_snapshot, MarketPauseSource}
use fdv.Tests.Data.{order_of, holding}

calculate_trade_fee-Outcome_example :
    Outcome
      (hundredths 50)
      (of_ℕ 100)
      TradeSide.buy
      (some (pos 20))
      (some true)
      LiquidityRole.taker
      none
      (calculate_trade_fee
        (hundredths 50)
        (of_ℕ 100)
        TradeSide.buy
        (some (pos 20))
        (some true)
        LiquidityRole.taker
        none)
calculate_trade_fee-Outcome_example =
    calculate_trade_fee-Outcome (hundredths 50) (of_ℕ 100) TradeSide.buy (some (pos 20)) (some true)
      LiquidityRole.taker none

abbrev orders : List OrderRecord
orders =
    order_of OrderSide.buy OrderType.gtc (of_ℕ 10)
    ∷ order_of OrderSide.sell OrderType.gtc (of_ℕ 7)
    ∷ order_of OrderSide.buy OrderType.fak (of_ℕ 3)
    ∷ []

holding-SanePosition : SanePosition (some holding)
unfolding evaluate
holding-SanePosition = (refl, refl, refl)

orders-SaneOrder : All SaneOrder orders
unfolding evaluate
orders-SaneOrder = ((refl, refl, tt, tt), ((refl, refl, tt, tt), ((refl, refl, tt, tt), tt)))

abbrev paused : AccountSnapshot
paused = record empty_snapshot {
  market_pauses =
      record {
        condition_id = "c1";
        reason = "manual_pause";
        source = MarketPauseSource.manual;
        recoverable = false;
      }
      ∷ [];
}
