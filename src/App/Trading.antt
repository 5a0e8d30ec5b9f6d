-- ===== src/App/Trading.antt =====
-- src/polymarket_trader/app/trading_service.py: an intent goes through the risk gate to the executor.
-- The executor is an argument: which methods it has, and what a call of one gives.
pub mod Results
pub mod Sending
use fdv.Base.{String, Bool, true, false, Option, none, some, List, [], ◌∷◌}
use fdv.Domain.Order.{
  OrderSide, OrderResult, OrderResultStatus, TradableOrderIntent, CancelOrderIntent,
  ReplaceOrderIntent, ManagedOrderIntent, trading, cancelling, replacing,
}
use fdv.Domain.Intent
use fdv.Domain.Risk.Types.{RiskRequest, RiskDecision}
use fdv.Domain.Risk.Manager.{check_order_intent}
use fdv.App.Trading.Results.{RawResult, coerce_order_result, synthetic_order_result}

-- A call raises an error with its text, or answers.
pub data Answer : Type 0 where
  raised : String → Answer
  answered : RawResult → Answer

abbrev pub Executor : Type 0
Executor = String → Option (ManagedOrderIntent → Answer)

-- What `_invoke_executor` gives, and the calls of the executor that it made.
pub record Execution : Type 0 where
  pub order_result : OrderResult
  pub submitted : Bool
  pub submission_error : Option String
  pub calls : List (String × ManagedOrderIntent)

pub record TradingReviewResult : Type 0 where
  pub intent : ManagedOrderIntent
  pub operation : String
  pub risk_decision : Option RiskDecision
  pub submitted : Bool
  pub order_result : OrderResult
  pub submission_error : Option String

abbrev pub is_ok : TradingReviewResult → Bool
is_ok r = elim r.risk_decision [ none ↦ r.submitted | some d ↦ d.passed ]

unfoldable pub after_call : String → ManagedOrderIntent → Answer → Execution
after_call name intent (raised error) = record {
  order_result = synthetic_order_result intent OrderResultStatus.failed error true;
  submitted = true;
  submission_error = some error;
  calls = (name, intent) ∷ [];
}
after_call name intent (answered raw) = record {
  order_result =
      coerce_order_result raw intent OrderResultStatus.failed "executor_returned_empty_result";
  submitted = true;
  submission_error = none;
  calls = (name, intent) ∷ [];
}

-- `_invoke_executor`, whose callers all fall back on FAILED: the first candidate that is a method of
-- the executor is called.
unfoldable pub invoke_executor : Executor → ManagedOrderIntent → List String → Execution
unfolding after_call
invoke_executor e intent [] = record {
  order_result =
      synthetic_order_result intent OrderResultStatus.failed "executor_returned_empty_result" false;
  submitted = false;
  submission_error = none;
  calls = [];
}
invoke_executor e intent (name ∷ rest) =
    let more = invoke_executor e intent rest in
    elim (e name) [ none ↦ more | some method ↦ after_call name intent (method intent) ]

unfoldable pub unavailable : ManagedOrderIntent → Execution
unavailable intent = record {
  order_result = synthetic_order_result intent OrderResultStatus.failed "executor_unavailable" true;
  submitted = false;
  submission_error = none;
  calls = [];
}

abbrev pub submit_method : OrderSide → String
submit_method OrderSide.buy = "submit_buy"
submit_method OrderSide.sell = "submit_sell"

-- `_execute_trade_intent`
unfoldable pub execute_trade_intent : Option Executor → TradableOrderIntent → Execution
unfolding invoke_executor unavailable
execute_trade_intent none i = unavailable (trading i)
execute_trade_intent (some e) i =
    invoke_executor e (trading i) ("submit" ∷ submit_method (Intent.side i) ∷ [])

-- `_execute_control_intent`
unfoldable pub execute_control_intent : Option Executor → ManagedOrderIntent → Bool → Execution
unfolding invoke_executor unavailable
execute_control_intent none i cancels = unavailable i
execute_control_intent (some e) i true = invoke_executor e i ("cancel" ∷ "cancel_order" ∷ [])
execute_control_intent (some e) i false = invoke_executor e i ("replace" ∷ "replace_order" ∷ [])

abbrev pub result_of :
    ManagedOrderIntent → String → Option RiskDecision → Execution → TradingReviewResult
result_of intent operation decision x = record {
  intent = intent;
  operation = operation;
  risk_decision = decision;
  submitted = x.submitted;
  order_result = x.order_result;
  submission_error = x.submission_error;
}

-- What is executed of an intent with a decision on it: a refused one is answered without a call.
unfoldable pub execute_decided : Option Executor → TradableOrderIntent → RiskDecision → Execution
unfolding execute_trade_intent
execute_decided e i d = elim d.passed [
  | true ↦ execute_trade_intent e i
  | false ↦ record {
    order_result =
        synthetic_order_result (trading i) OrderResultStatus.rejected d.reason d.retryable;
    submitted = false;
    submission_error = none;
    calls = [];
  }
]

-- `review_intent`, with the calls of the executor that it makes; `buy` and `sell` are the operations
-- of those names.
unfoldable pub review_intent :
    Option Executor
    → TradableOrderIntent
    → RiskRequest
    → String
    → TradingReviewResult × List (String × ManagedOrderIntent)
unfolding execute_decided
review_intent e i r operation =
    let d = check_order_intent i r in
    let x = execute_decided e i d in (result_of (trading i) operation (some d) x, x.calls)

-- `cancel` and `replace`
unfoldable pub cancel :
    Option Executor → CancelOrderIntent → TradingReviewResult × List (String × ManagedOrderIntent)
unfolding execute_control_intent
cancel e i =
    let x = execute_control_intent e (cancelling i) true in
    (result_of (cancelling i) "cancel" none x, x.calls)

unfoldable pub replace :
    Option Executor → ReplaceOrderIntent → TradingReviewResult × List (String × ManagedOrderIntent)
unfolding execute_control_intent
replace e i =
    let x = execute_control_intent e (replacing i) false in
    (result_of (replacing i) "replace" none x, x.calls)
