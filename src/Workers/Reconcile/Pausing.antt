-- ===== src/Workers/Reconcile/Pausing.antt =====
-- workers/reconcile_worker.py: the pauses after a reconcile.
use fdv.Base.{
  ◌≡◌, refl, ◌≢◌, ◌∙◌, inl, inr, String, Bool, true, false, ◌&&◌, Option, none, some, List, [], ◌∷◌,
  get_or, or_else, text_or, string_eq, Bool-cases, All,
}
use fdv.Base.Dict.{Dict}
use fdv.Domain.Order.{
  OrderRecord, OrderResult, OrderSide, TradableOrderIntent, ReplaceOrderIntent, ManagedOrderIntent,
  trading, cancelling, replacing,
}
use fdv.Domain.Intent
use fdv.Domain.Market.{Market}
use fdv.Domain.Position.{Position}
use fdv.Decimal.{Decimal}
use fdv.Domain.Account.{AccountSnapshot, get_position}
use fdv.Runtime.AccountStore.{
  AccountStore, upsert_position, upsert_order, remove_order, store_step, position, order,
  drop_order,
}
use fdv.Runtime.AccountStore.Invariant.{StoreValid, store_step-StoreValid}
use fdv.App.Projection.Amounts.{find_open_order}
use fdv.App.Projection.Manage.{apply_submitted_intent}
use fdv.App.Projection.Valid.{projector_step, submitted, projector_step-StoreValid}
use fdv.App.Trading.{Executor, cancel, replace, review_intent}
use fdv.App.Decisions.{ExtensionDecision, decision_to_managed_intent}
use fdv.App.Reconcile.{
  ReconcileActionType, cancel_order, submit_order, replace_order, pause_trading, resume_trading,
  ReconcileAction,
}
use fdv.App.Reconcile.Plan.{action_from_intent, recovery_actions, add_action, pause_actions}
use fdv.Workers.Reconcile.{
  submission_succeeded, is_cancelled, released, write_released, remove_cancelled, apply_cancel,
  reconcile_request, side_operation, Times, submit_with_token, apply_submit_order,
}
use fdv.Workers.Reconcile.Replacing.{
  replacement_record, replacement_rest, stays_open, write_record, write_replaced, remove_source,
  replace_with_token, apply_replace,
}
use fdv.Workers.Reconcile.Applying.{apply_typed, apply, apply_actions}

-- Writes that keep the store valid and leave the pauses alone.
pub record Quiet (s t : AccountStore) : Type 0 where
  pub valid : StoreValid s → StoreValid t
  pub same : t.market_pauses ≡ s.market_pauses

Quiet-refl : (s : AccountStore) → Quiet s s
Quiet-refl s = record { valid = λ v. v; same = refl }

Quiet-trans : (r s t : AccountStore) → Quiet r s → Quiet s t → Quiet r t
Quiet-trans r s t f g = record { valid = λ v. g.valid (f.valid v); same = g.same ∙ f.same }

upsert_position-Quiet : (s : AccountStore) (p : Position) → Quiet s (upsert_position s p)
unfolding store_step upsert_position
upsert_position-Quiet s p = record { valid = store_step-StoreValid s (position p); same = refl }

upsert_order-Quiet : (s : AccountStore) (o : OrderRecord) → Quiet s (upsert_order s o)
unfolding store_step upsert_order
upsert_order-Quiet s o = record { valid = store_step-StoreValid s (order o); same = refl }

remove_order-Quiet : (s : AccountStore) (id : String) → Quiet s (remove_order s id)
unfolding store_step remove_order
remove_order-Quiet s id = record { valid = store_step-StoreValid s (drop_order id); same = refl }

-- An action that raises leaves the store as it is.
abbrev Leaves : AccountStore → Option AccountStore → Type 0
Leaves s o = Quiet s (get_or o s)

module _ (e : Option Executor) (s : AccountStore) (a : ReconcileAction) (m : Market)
    (snapshot : AccountSnapshot) (now : Times) where
  write_released-Quiet : (t : AccountStore) (p : Option Position) → Quiet t (write_released t a p)
  write_released-Quiet t none = Quiet-refl t
  write_released-Quiet t (some p) = upsert_position-Quiet t (released a p)

  remove_cancelled-Leaves :
      (id token : Option String) → Leaves s (remove_cancelled s a snapshot id token)
  remove_cancelled-Leaves none token = Quiet-refl s
  remove_cancelled-Leaves (some id) none = Quiet-refl s
  remove_cancelled-Leaves (some id) (some token) =
      Quiet-trans s (remove_order s id) _ (remove_order-Quiet s id)
        (write_released-Quiet (remove_order s id) _)

  apply_cancel-Leaves : (i : Option ManagedOrderIntent) → Leaves s (apply_cancel e s a snapshot i)
  unfolding apply_cancel
  apply_cancel-Leaves none = Quiet-refl s
  apply_cancel-Leaves (some (trading i)) = Quiet-refl s
  apply_cancel-Leaves (some (replacing i)) = Quiet-refl s
  apply_cancel-Leaves (some (cancelling i)) =
      let review = (cancel e i).0 in
      elim (Bool-cases (review.submitted && is_cancelled review.order_result.status)) [
        | inl q ↦ rw q (remove_cancelled-Leaves a.source_order_id a.token_id)
        | inr q ↦ rw q (Quiet-refl s)
      ]

  submit_with_token-Leaves :
      (i : TradableOrderIntent) (t : Option String)
      → Leaves s (submit_with_token e s a m snapshot now i t)
  unfolding projector_step apply_submitted_intent upsert_position upsert_order
  submit_with_token-Leaves i none = Quiet-refl s
  submit_with_token-Leaves i (some token) =
      let review =
        (review_intent e i (reconcile_request m snapshot a.condition_id token)
          (side_operation (Intent.side i))).0 in
      elim (Bool-cases (review.submitted && submission_succeeded review.order_result.status)) [
        | inl q ↦ rw q (record {
          valid =
              projector_step-StoreValid
                (submitted i a.market_slug snapshot "reconcile_submit_order" now.0 now.1) s;
          same = refl;
        })
        | inr q ↦ rw q (Quiet-refl s)
      ]

  apply_submit_order-Leaves :
      (i : Option ManagedOrderIntent) → Leaves s (apply_submit_order e s a m snapshot now i)
  unfolding apply_submit_order
  apply_submit_order-Leaves none = Quiet-refl s
  apply_submit_order-Leaves (some (trading i)) = submit_with_token-Leaves i a.token_id
  apply_submit_order-Leaves (some (replacing i)) = Quiet-refl s
  apply_submit_order-Leaves (some (cancelling i)) = Quiet-refl s

  remove_source-Quiet : (id : Option String) → Quiet s (remove_source s id)
  remove_source-Quiet none = Quiet-refl s
  remove_source-Quiet (some id) = remove_order-Quiet s id

  write_record-Quiet :
      (t : AccountStore) (o : OrderRecord) (id : String) → Quiet t (write_record t o id)
  write_record-Quiet t o id = elim (Bool-cases (stays_open o.status)) [
    | inl q ↦ rw q (upsert_order-Quiet t o)
    | inr q ↦ rw q (remove_order-Quiet t id)
  ]

  write_replaced-Quiet :
      (t : AccountStore) (side : OrderSide) (source : Option OrderRecord) (d : Decimal)
      (p : Option Position)
      → Quiet t (write_replaced t side source d p)
  write_replaced-Quiet t side source d none = Quiet-refl t
  write_replaced-Quiet t side source d (some p) = upsert_position-Quiet t _

  replace_with_token-Leaves :
      (i : ReplaceOrderIntent) (r : OrderResult) (t : Option String)
      → Leaves s (replace_with_token s a snapshot now i r t)
  replace_with_token-Leaves i r none = Quiet-refl s
  replace_with_token-Leaves i r (some token) =
      let u = remove_source s a.source_order_id in
      let source =
        or_else (find_open_order (some s.snapshot) a.condition_id token a.source_order_id)
          (find_open_order (some snapshot) a.condition_id token a.source_order_id) in
      let o = replacement_record i r source now in
      let id = text_or r.order_id i.order_id in
      let held =
        or_else (get_position s.snapshot a.condition_id token)
          (get_position snapshot a.condition_id token) in
      Quiet-trans s u
        (write_replaced (write_record u o id) o.side source (replacement_rest i r) held)
        (remove_source-Quiet a.source_order_id)
        (Quiet-trans u (write_record u o id)
          (write_replaced (write_record u o id) o.side source (replacement_rest i r) held)
          (write_record-Quiet u o id)
          (write_replaced-Quiet (write_record u o id) o.side source (replacement_rest i r) held))

  apply_replace-Leaves :
      (i : Option ManagedOrderIntent) → Leaves s (apply_replace e s a snapshot now i)
  unfolding apply_replace
  apply_replace-Leaves none = Quiet-refl s
  apply_replace-Leaves (some (trading i)) = Quiet-refl s
  apply_replace-Leaves (some (cancelling i)) = Quiet-refl s
  apply_replace-Leaves (some (replacing i)) =
      let review = (replace e i).0 in
      elim (Bool-cases (review.submitted && submission_succeeded review.order_result.status)) [
        | inl q ↦ rw q (replace_with_token-Leaves i review.order_result a.token_id)
        | inr q ↦ rw q (Quiet-refl s)
      ]

-- An action that is no resumption.
abbrev pub Unresuming : ReconcileAction → Type 0
Unresuming a = a.action_type ≢ resume_trading

module _ (e : Option Executor) (m : Market) (now : Times) where
  apply_typed-Leaves :
      (s : AccountStore) (a : ReconcileAction) (t : ReconcileActionType)
      → t ≢ resume_trading
      → Leaves s (apply_typed e s a m s.snapshot now t)
  unfolding apply_typed
  apply_typed-Leaves s a pause_trading h = Quiet-refl s
  apply_typed-Leaves s a resume_trading h = absurd (h refl)
  apply_typed-Leaves s a cancel_order h = apply_cancel-Leaves e s a m s.snapshot now a.intent
  apply_typed-Leaves s a replace_order h = apply_replace-Leaves e s a m s.snapshot now a.intent
  apply_typed-Leaves s a submit_order h = apply_submit_order-Leaves e s a m s.snapshot now a.intent

  apply-Leaves :
      (s : AccountStore) (a : ReconcileAction)
      → Unresuming a
      → Leaves s (apply e s a m s.snapshot now)
  unfolding apply
  apply-Leaves s a u = apply_typed-Leaves s a a.action_type u

  pub apply_actions-Quiet :
      (actions : List ReconcileAction) (s : AccountStore)
      → All Unresuming actions
      → Quiet s (apply_actions e m now s actions)
  unfolding apply_actions
  apply_actions-Quiet [] s u = Quiet-refl s
  apply_actions-Quiet (a ∷ rest) s u =
      let t = get_or (apply e s a m s.snapshot now) s in
      Quiet-trans s t (apply_actions e m now t rest) (apply-Leaves s a u.0)
        (apply_actions-Quiet rest t u.1)

action_from_intent-Unresuming :
    (trace_id : String) (m : Market) (reason : String) (index : Dict String OrderRecord)
    (i : ManagedOrderIntent)
    → Unresuming (action_from_intent trace_id m reason index i)
unfolding action_from_intent
action_from_intent-Unresuming trace_id m reason index (cancelling i) = λ h. cc
action_from_intent-Unresuming trace_id m reason index (replacing i) = λ h. cc
action_from_intent-Unresuming trace_id m reason index (trading i) = λ h. cc

add_action-Unresuming :
    (trace_id : String) (m : Market) (index : Dict String OrderRecord) (reason : String)
    (i : Option ManagedOrderIntent) (rest : List ReconcileAction)
    → All Unresuming rest
    → All Unresuming (add_action trace_id m index reason i rest)
add_action-Unresuming trace_id m index reason none rest h = h
add_action-Unresuming trace_id m index reason (some i) rest h =
    (action_from_intent-Unresuming trace_id m reason index i, h)

pub recovery_actions-Unresuming :
    (trace_id : String) (m : Market) (index : Dict String OrderRecord) (ds : List ExtensionDecision)
    → All Unresuming (recovery_actions trace_id m index ds)
unfolding recovery_actions
recovery_actions-Unresuming trace_id m index [] = tt
recovery_actions-Unresuming trace_id m index (d ∷ ds) =
    add_action-Unresuming trace_id m index d.reason
      (decision_to_managed_intent trace_id m.condition_id (some m.market_slug) none d)
      (recovery_actions trace_id m index ds) (recovery_actions-Unresuming trace_id m index ds)

pub pause_actions-Unresuming :
    (trace_id : String) (m : Market) (pauses : Bool) (reason : String)
    → All Unresuming (pause_actions trace_id m pauses reason)
pause_actions-Unresuming trace_id m true reason = ((λ h. cc), tt)
pause_actions-Unresuming trace_id m false reason = tt
