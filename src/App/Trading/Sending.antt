-- ===== src/App/Trading/Sending.antt =====
-- app/trading_service.py: which intents reach the executor.
use mathlib.Core.Path.{subst}
use fdv.Base.{
  ◌≡◌, refl, ◌⊎◌, inl, inr, sym, String, true, false, Option, none, some, List, [], ◌∷◌, Bool-cases,
}
use fdv.Domain.Order.{TradableOrderIntent, ManagedOrderIntent, trading, OrderResultStatus}
use fdv.Domain.Intent
use fdv.Domain.Risk.Types.{RiskRequest, RiskDecision}
use fdv.Domain.Risk.Manager.{check_order_intent}
use fdv.Domain.Risk.Spec.{Admissible}
use fdv.Domain.Risk.Admission.{check_order_intent-passes_iff}
use fdv.App.Trading.Results.{synthetic_order_result}
use fdv.App.Trading.{
  Executor, Execution, Answer, raised, answered, after_call, invoke_executor, unavailable,
  submit_method, execute_trade_intent, execute_decided, review_intent, TradingReviewResult,
}

-- At most one call was made, with the intent itself, and the flag says whether one was.
abbrev pub OneCall : ManagedOrderIntent → Execution → Type 0
OneCall intent x =
    ((x.submitted ≡ true) × ((name : String) × (x.calls ≡ (name, intent) ∷ [])))
    ⊎ ((x.submitted ≡ false) × (x.calls ≡ []))

after_call-OneCall :
    (name : String) (intent : ManagedOrderIntent) (a : Answer)
    → OneCall intent (after_call name intent a)
unfolding after_call
after_call-OneCall name intent (raised error) = inl (refl, (name, refl))
after_call-OneCall name intent (answered raw) = inl (refl, (name, refl))

invoke_executor-OneCall :
    (e : Executor) (intent : ManagedOrderIntent) (names : List String)
    → OneCall intent (invoke_executor e intent names)
unfolding invoke_executor
invoke_executor-OneCall e intent [] = inr (refl, refl)
invoke_executor-OneCall e intent (name ∷ rest) =
    elim (e name)
      as (λ m. OneCall intent (elim m [
        | none ↦ invoke_executor e intent rest
        | some method ↦ after_call name intent (method intent)
      ])) [
        | none ↦ invoke_executor-OneCall e intent rest
        | some method ↦ after_call-OneCall name intent (method intent)
      ]

execute_trade_intent-OneCall :
    (e : Option Executor) (i : TradableOrderIntent) → OneCall (trading i) (execute_trade_intent e i)
unfolding execute_trade_intent unavailable
execute_trade_intent-OneCall none i = inr (refl, refl)
execute_trade_intent-OneCall (some e) i =
    invoke_executor-OneCall e (trading i) ("submit" ∷ submit_method (Intent.side i) ∷ [])

-- What a review ends in: a refusal without a call, answered by the gate's reason, or an admissible
-- intent with at most one call.
abbrev pub Reviewed :
    TradableOrderIntent
    → RiskRequest
    → TradingReviewResult × List (String × ManagedOrderIntent)
    → Type 0
Reviewed i r (t, calls) =
    (((check_order_intent i r).passed ≡ false)
      × (t.submitted ≡ false)
      × (calls ≡ [])
      × (t.order_result
          ≡ synthetic_order_result (trading i) OrderResultStatus.rejected
              (check_order_intent i r).reason (check_order_intent i r).retryable))
    ⊎ (Admissible i r
        × (((t.submitted ≡ true) × ((name : String) × (calls ≡ (name, trading i) ∷ [])))
            ⊎ ((t.submitted ≡ false) × (calls ≡ []))))

execute_decided-passed :
    (e : Option Executor) (i : TradableOrderIntent) (d : RiskDecision)
    → d.passed ≡ true
    → execute_decided e i d ≡ execute_trade_intent e i
unfolding execute_decided
execute_decided-passed e i d p = rw p

execute_decided-refused :
    (e : Option Executor) (i : TradableOrderIntent) (d : RiskDecision)
    → d.passed ≡ false
    → let x = execute_decided e i d in
      (x.submitted ≡ false)
      × (x.calls ≡ [])
      × (x.order_result
          ≡ synthetic_order_result (trading i) OrderResultStatus.rejected d.reason d.retryable)
unfolding execute_decided
execute_decided-refused e i d p = rw p (refl, refl, refl)

decided-Reviewed :
    (e : Option Executor) (i : TradableOrderIntent) (r : RiskRequest) (operation : String)
    → ((check_order_intent i r).passed ≡ true) ⊎ ((check_order_intent i r).passed ≡ false)
    → Reviewed i r (review_intent e i r operation)
unfolding review_intent
decided-Reviewed e i r operation (inl p) = inr (
  (check_order_intent-passes_iff i r).0 p,
  subst (OneCall (trading i)) (sym (execute_decided-passed e i (check_order_intent i r) p))
      (execute_trade_intent-OneCall e i),
)
decided-Reviewed e i r operation (inr p) =
    let x = execute_decided-refused e i (check_order_intent i r) p in inl (p, x.0, x.1, x.2)

-- The executor is called for an admissible intent only, once at most and with that intent, and the
-- review says that it was submitted exactly if it was called; an intent that the risk gate refuses is
-- answered without a call, as rejected, with the gate's reason.
pub review_intent-Reviewed :
    (e : Option Executor) (i : TradableOrderIntent) (r : RiskRequest) (operation : String)
    → Reviewed i r (review_intent e i r operation)
review_intent-Reviewed e i r operation =
    decided-Reviewed e i r operation (Bool-cases (check_order_intent i r).passed)
