-- ===== src/Domain/Risk/Types.antt =====
-- domain/risk.py: checks, decisions and the keyword arguments of `check_order_intent`.
use fdv.Base.{String, Bool, Option, List}
use fdv.Base.Integer.{ℤ}
use fdv.Decimal.{Decimal}
use fdv.Domain.Order.{OrderRecord}
use fdv.Domain.Market.{Market, TradingStatus}
use fdv.Domain.Orderbook.{OrderbookSnapshot}
use fdv.Domain.Position.{Position}
use fdv.Domain.Allocation.{AllocationPlan}

-- The values that checks carry: `RiskCheck.value` is an `object`.
pub data CheckValue : Type 0 where
  absent : CheckValue
  amount : Decimal → CheckValue
  flag : Bool → CheckValue
  status : TradingStatus → CheckValue
  number : ℤ → CheckValue
  amounts : List (String × Option Decimal) → CheckValue
  numbers : List (String × ℤ) → CheckValue
  names : List String → CheckValue

pub record RiskCheck : Type 0 where
  pub name : String
  pub passed : Bool
  pub reason : String
  pub field_name : Option String
  pub value : CheckValue
  pub suggested_action : String
  pub retryable : Bool

pub record RiskDecision : Type 0 where
  pub passed : Bool
  pub reason : String
  pub trace_id : String
  pub failed_field : Option String
  pub suggested_action : String
  pub retryable : Bool
  pub checks : List RiskCheck

pub record RiskRequest : Type 0 where
  pub market : Option Market
  pub orderbook : Option OrderbookSnapshot
  pub position : Option Position
  pub open_orders : List OrderRecord
  pub allocation_plan : Option AllocationPlan
  pub classification_passed : Option Bool
  pub classification_reason : Option String
  pub market_active : Option Bool
  pub market_open : Option Bool
  pub clob_enabled : Option Bool
  pub resolved : Option Bool
  pub cancelled : Option Bool
  pub archived : Option Bool
  pub geoblocked : Bool
  pub balance_usdc : Option Decimal
  pub allowance_usdc : Option Decimal
  pub portfolio_total_invested_usdc : Option Decimal
  pub open_orders_count : Option ℤ
  pub retry_count : ℤ
  pub order_retry_limit : Option ℤ
  pub max_order_usdc : Option Decimal
  pub max_market_usdc : Option Decimal
  pub max_total_usdc : Option Decimal
  pub max_open_orders : Option ℤ
  pub min_order_size : Option Decimal

-- A gate goes on with the checks noted so far, or ends the run with a decision.
pub data Gate : Type 0 where
  go : List RiskCheck → Gate
  stop : RiskDecision → Gate

infixl 5 ◌>>=◌
abbrev pub ◌>>=◌ : Gate → (List RiskCheck → Gate) → Gate
go checks >>= f = f checks
stop d >>= f = stop d

-- What `_fail` is told of a failure.
pub record Failure : Type 0 where
  pub name : String
  pub reason : String
  pub field_name : String
  pub suggested_action : String
  pub retryable : Bool
  pub value : CheckValue
