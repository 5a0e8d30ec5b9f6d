-- ===== src/App/Reconcile/Sizing.antt =====
-- app/reconcile_service.py and app/extension_intent_builder.py: what every action of a plan is about.
use fdv.Base.{
  ◌≡◌, refl, inl, inr, String, Bool, true, false, ◌||◌, Option, none, some, List, [], ◌∷◌, ◌++◌,
  text_or?, ◌==◌, string_eq, Bool-cases, All, All-append,
}
use fdv.Base.Dict.{Dict, index_by}
use fdv.Decimal.{Decimal, of_ℕ, le}
use fdv.Domain.Order.{
  OrderRecord, OrderType, ManagedOrderIntent, trading, buying, selling, cancelling, replacing,
}
use fdv.Domain.Market.{Market, token_ids}
use fdv.Domain.Account.{AccountSnapshot, MarketPause, pause_for_market}
use fdv.Runtime.AccountStore.{order_key}
use fdv.App.Decisions.{
  ExtensionAction, ExtensionDecision, RecoveryDecision, IntentHead, positive, buy_intent,
  sell_intent, cancel_intent, replace_intent, intent_for, intent_with_token,
  decision_to_managed_intent,
}
use fdv.App.Reconcile.{
  ReconcileAction, ExtensionContext, orders_of, is_shut, is_sticky, resolved_pause_reason,
}
use fdv.App.Reconcile.Plan.{
  action_from_intent, add_action, recovery_actions, resume_actions, pause_actions,
  build_market_plan, recovery_context,
}

-- An intent on the market that names a positive amount, and an order where it is on one.
abbrev pub Sized : String → ManagedOrderIntent → Type 0
Sized c (trading (buying i)) = (i.condition_id ≡ c) × (le i.amount_usdc (of_ℕ 0) ≡ false)
Sized c (trading (selling i)) = (i.condition_id ≡ c) × (le i.size_shares (of_ℕ 0) ≡ false)
Sized c (cancelling i) = (i.condition_id ≡ c) × ((i.order_id == "") ≡ false)
Sized c (replacing i) =
    (i.condition_id ≡ c) × ((i.order_id == "") ≡ false) × (le i.size_shares (of_ℕ 0) ≡ false)

abbrev pub Sized? : String → Option ManagedOrderIntent → Type 0
Sized? c none = Unit {0}
Sized? c (some i) = Sized c i

abbrev Positive? : Option Decimal → Type 0
Positive? none = Unit {0}
Positive? (some d) = le d (of_ℕ 0) ≡ false

positive-Positive? : (o : Option Decimal) → Positive? (positive o)
positive-Positive? none = tt
positive-Positive? (some d) = elim (Bool-cases (le d (of_ℕ 0))) [ inl q ↦ rw q tt | inr q ↦ rw q q ]

module _ (h : IntentHead) where
  buy_intent-Sized :
      (t : Option OrderType) (p a : Option Decimal)
      → Positive? a
      → Sized? h.condition_id (buy_intent h t p a)
  buy_intent-Sized t (some p) (some a) q = (refl, q)
  buy_intent-Sized t (some p) none q = tt
  buy_intent-Sized t none a q = tt

  sell_intent-Sized :
      (t : Option OrderType) (p a : Option Decimal)
      → Positive? a
      → Sized? h.condition_id (sell_intent h t p a)
  sell_intent-Sized t (some p) (some a) q = (refl, q)
  sell_intent-Sized t (some p) none q = tt
  sell_intent-Sized t none a q = tt

  cancel_intent-Sized :
      (reason : String) (id : Option String) → Sized? h.condition_id (cancel_intent h reason id)
  cancel_intent-Sized reason none = tt
  cancel_intent-Sized reason (some id) = elim (Bool-cases (id == "")) [
    | inl q ↦ rw q tt
    | inr q ↦ rw q (refl, q)
  ]

  replace_intent-Sized :
      (reason : String) (id : Option String) (p a : Option Decimal)
      → Positive? a
      → Sized? h.condition_id (replace_intent h reason id p a)
  replace_intent-Sized reason (some id) (some p) (some a) z = elim (Bool-cases (id == "")) [
    | inl q ↦ rw q tt
    | inr q ↦ rw q (refl, q, z)
  ]
  replace_intent-Sized reason (some id) (some p) none z = tt
  replace_intent-Sized reason (some id) none a z = tt
  replace_intent-Sized reason none p a z = tt

  intent_for-Sized :
      (d : ExtensionDecision) (a : ExtensionAction) → Sized? h.condition_id (intent_for h d a)
  intent_for-Sized d ExtensionAction.buy =
      buy_intent-Sized d.order_type d.price _ (positive-Positive? d.amount_usdc)
  intent_for-Sized d ExtensionAction.sell =
      sell_intent-Sized d.order_type d.price _ (positive-Positive? d.size_shares)
  intent_for-Sized d ExtensionAction.cancel = cancel_intent-Sized d.reason d.order_id
  intent_for-Sized d ExtensionAction.replace =
      replace_intent-Sized d.reason d.order_id d.price _ (positive-Positive? d.size_shares)
  intent_for-Sized d ExtensionAction.skip = tt

decision-Sized :
    (trace_id c : String) (slug default_token : Option String) (d : ExtensionDecision)
    → Sized? c (decision_to_managed_intent trace_id c slug default_token d)
unfolding decision_to_managed_intent
decision-Sized trace_id c slug default_token d = with_token (text_or? d.token_id default_token)
  where
    with_token : (t : Option String) → Sized? c (intent_with_token trace_id c slug d t)
    with_token none = tt
    with_token (some t) =
        intent_for-Sized
          (record {
            trace_id = trace_id;
            condition_id = c;
            token_id = t;
            market_slug = text_or? d.market_slug slug;
          })
          d d.action

-- An action on the market, whose intent, if it has one, is on the market too.
abbrev pub OnMarket : String → ReconcileAction → Type 0
OnMarket c a = (a.condition_id ≡ c) × Sized? c a.intent

action-OnMarket :
    (trace_id : String) (m : Market) (reason : String) (index : Dict String OrderRecord)
    (i : ManagedOrderIntent)
    → Sized m.condition_id i
    → OnMarket m.condition_id (action_from_intent trace_id m reason index i)
unfolding action_from_intent
action-OnMarket trace_id m reason index (trading (buying i)) s = (s.0, s)
action-OnMarket trace_id m reason index (trading (selling i)) s = (s.0, s)
action-OnMarket trace_id m reason index (cancelling i) s = (s.0, s)
action-OnMarket trace_id m reason index (replacing i) s = (s.0, s)

add_action-OnMarket :
    (trace_id : String) (m : Market) (index : Dict String OrderRecord) (reason : String)
    (i : Option ManagedOrderIntent) (rest : List ReconcileAction)
    → Sized? m.condition_id i
    → All (OnMarket m.condition_id) rest
    → All (OnMarket m.condition_id) (add_action trace_id m index reason i rest)
add_action-OnMarket trace_id m index reason none rest s h = h
add_action-OnMarket trace_id m index reason (some i) rest s h =
    (action-OnMarket trace_id m reason index i s, h)

recovery_actions-OnMarket :
    (trace_id : String) (m : Market) (index : Dict String OrderRecord) (ds : List ExtensionDecision)
    → All (OnMarket m.condition_id) (recovery_actions trace_id m index ds)
unfolding recovery_actions
recovery_actions-OnMarket trace_id m index [] = tt
recovery_actions-OnMarket trace_id m index (d ∷ ds) =
    add_action-OnMarket trace_id m index d.reason _ (recovery_actions trace_id m index ds)
      (decision-Sized trace_id m.condition_id (some m.market_slug) none d)
      (recovery_actions-OnMarket trace_id m index ds)

resume_actions-OnMarket :
    (trace_id : String) (m : Market) (p : Option MarketPause) (b : Bool)
    → All (OnMarket m.condition_id) (resume_actions trace_id m p b)
resume_actions-OnMarket trace_id m none b = tt
resume_actions-OnMarket trace_id m (some p) true = tt
resume_actions-OnMarket trace_id m (some p) false = ((refl, tt), tt)

pause_actions-OnMarket :
    (trace_id : String) (m : Market) (b : Bool) (reason : String)
    → All (OnMarket m.condition_id) (pause_actions trace_id m b reason)
pause_actions-OnMarket trace_id m true reason = ((refl, tt), tt)
pause_actions-OnMarket trace_id m false reason = tt

-- Whatever the strategy decides, each action of a market's plan is on that market, and so is its intent,
-- which has a positive amount or size and, where it is on an order, the id of one.
pub build_market_plan-OnMarket :
    (decide_recovery : ExtensionContext → RecoveryDecision) (m : Market) (a : AccountSnapshot)
    (trace_id : String)
    → All (OnMarket m.condition_id) (build_market_plan decide_recovery m a trace_id).actions
unfolding build_market_plan
build_market_plan-OnMarket decide_recovery m a trace_id =
    let recovery = decide_recovery (recovery_context m a trace_id) in
    let p = pause_for_market a m.condition_id in
    let pauses = is_shut m.trading_status || (is_sticky p || recovery.pause_trading) in
    let reason = resolved_pause_reason m p recovery.pause_reason pauses in
    let index = index_by order_key [] (orders_of a m.condition_id (token_ids m)) in
    let found = recovery_actions trace_id m index recovery.actions in
    let last = pause_actions trace_id m pauses reason in
    All-append (OnMarket m.condition_id) (resume_actions trace_id m p pauses) (found ++ last)
      (resume_actions-OnMarket trace_id m p pauses)
      (All-append (OnMarket m.condition_id) found last
        (recovery_actions-OnMarket trace_id m index recovery.actions)
        (pause_actions-OnMarket trace_id m pauses reason))
