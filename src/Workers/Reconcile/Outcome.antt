-- ===== src/Workers/Reconcile/Outcome.antt =====
-- workers/reconcile_worker.py: whether a market is paused after its reconcile.
use fdv.Base.{
  ◌≡◌, refl, sym, ap, ◌∙◌, inl, inr, String, Bool, true, false, ◌||◌, Option, none, some, List, [],
  ◌++◌, if◌then◌else◌, ◌==◌, string_eq, Bool-cases, All, All-append,
}
use fdv.Base.Dict.{lookup, index_by}
use fdv.Domain.Order.{OrderRecord}
use fdv.Domain.Market.{Market, token_ids}
use fdv.Domain.Account.{
  AccountSnapshot, MarketPause, MarketPauseSource, build_pause, pause_for_market,
}
use fdv.Runtime.AccountStore.{
  AccountStore, pause_market, resume_market, store_step, pause, resume, order_key,
}
use fdv.Runtime.AccountStore.Invariant.{StoreValid, store_step-StoreValid}
use fdv.Runtime.AccountStore.Reads.{
  pause_for_market-lookup, pauses-pause_market, pauses-resume_market,
}
use fdv.App.Trading.{Executor}
use fdv.App.Decisions.{ExtensionDecision, RecoveryDecision}
use fdv.App.Reconcile.{
  ReconcileAction, ReconcileMarketPlan, ExtensionContext, is_shut, is_sticky, resolved_pause_reason,
  orders_of,
}
use fdv.App.Reconcile.Plan.{
  recovery_actions, resume_actions, pause_actions, build_market_plan, recovery_context,
}
use fdv.Workers.Reconcile.{Times}
use fdv.Workers.Reconcile.Applying.{apply_typed, apply, apply_actions, reconcile_market}
use fdv.Workers.Reconcile.Pausing.{
  Quiet, Unresuming, apply_actions-Quiet, recovery_actions-Unresuming, pause_actions-Unresuming,
}

pub Quiet-pauses :
    (s t : AccountStore) (c : String)
    → Quiet s t
    → StoreValid s
    → pause_for_market t.snapshot c ≡ pause_for_market s.snapshot c
Quiet-pauses s t c q v =
    pause_for_market-lookup t c (q.valid v)
    ∙ ap (λ d. lookup c d) q.same
    ∙ sym (pause_for_market-lookup s c v)

resume-StoreValid : (s : AccountStore) (c : String) → StoreValid s → StoreValid (resume_market s c)
unfolding store_step
resume-StoreValid s c v = store_step-StoreValid s (resume c) v

pause-StoreValid :
    (s : AccountStore) (c reason : String) (source : Option MarketPauseSource) (r : Option Bool)
    → StoreValid s
    → StoreValid (pause_market s c reason source r)
unfolding store_step
pause-StoreValid s c reason source r v = store_step-StoreValid s (pause c reason source r) v

-- The actions of a plan after the resumption.
abbrev later_actions :
    String
    → Market
    → List OrderRecord
    → List ExtensionDecision
    → Bool
    → String
    → List ReconcileAction
later_actions trace_id m orders ds pauses reason =
    recovery_actions trace_id m (index_by order_key [] orders) ds
    ++ pause_actions trace_id m pauses reason

later_actions-Unresuming :
    (trace_id : String) (m : Market) (orders : List OrderRecord) (ds : List ExtensionDecision)
    (pauses : Bool) (reason : String)
    → All Unresuming (later_actions trace_id m orders ds pauses reason)
later_actions-Unresuming trace_id m orders ds pauses reason =
    All-append Unresuming (recovery_actions trace_id m (index_by order_key [] orders) ds)
      (pause_actions trace_id m pauses reason)
      (recovery_actions-Unresuming trace_id m (index_by order_key [] orders) ds)
      (pause_actions-Unresuming trace_id m pauses reason)

pub unrecoverable :
    (c : String)
    → (build_pause c "market_paused" (some MarketPauseSource.reconcile) none).recoverable ≡ false
unfolding build_pause
unrecoverable c = refl

-- A pause that is not recoverable is in every plan.
pub sticky_plan :
    (decide_recovery : ExtensionContext → RecoveryDecision) (m : Market) (a : AccountSnapshot)
    (trace_id : String) (p : MarketPause)
    → pause_for_market a m.condition_id ≡ some p
    → p.recoverable ≡ false
    → (build_market_plan decide_recovery m a trace_id).pause_trading ≡ true
unfolding build_market_plan
sticky_plan decide_recovery m a trace_id p found q = elim (Bool-cases (is_shut m.trading_status)) [
  | inl shut ↦ rw shut refl
  | inr open_market ↦ rw open_market (rw found (rw q refl))
]

module _ (e : Option Executor) (m : Market) (now : Times) (trace_id : String) where
  -- Without a call for a pause, the pause there is is lifted.
  resumed :
      (s : AccountStore) (p : Option MarketPause) (later : List ReconcileAction) (d : String)
      → StoreValid s
      → All Unresuming later
      → pause_for_market s.snapshot m.condition_id ≡ p
      → pause_for_market
          (apply_actions e m now s (resume_actions trace_id m p false ++ later)).snapshot
          d
        ≡ (if m.condition_id == d then none else pause_for_market s.snapshot d)
  unfolding apply_actions apply apply_typed
  resumed s none later d v u q = elim (Bool-cases (m.condition_id == d)) [
    | inl same ↦ rw same (
        Quiet-pauses s (apply_actions e m now s later) d (apply_actions-Quiet e m now later s u) v
        ∙ ap (λ c. pause_for_market s.snapshot c)
            (sym ((string_eq.same_iff m.condition_id d).0 same))
        ∙ q)
    | inr other ↦
        rw other (
          Quiet-pauses s (apply_actions e m now s later) d (apply_actions-Quiet e m now later s u)
            v)
  ]
  resumed s (some p) later d v u q =
      let t = resume_market s m.condition_id in
      Quiet-pauses t (apply_actions e m now t later) d (apply_actions-Quiet e m now later t u)
        (resume-StoreValid s m.condition_id v)
      ∙ pauses-resume_market s m.condition_id d v

  abbrev named_reason : String → String
  named_reason reason = if reason == "" then "market_not_tradable" else reason

  no_resumption : (p : Option MarketPause) → resume_actions trace_id m p true ≡ []
  no_resumption none = refl
  no_resumption (some p) = refl

  abbrev plan_of :
      List OrderRecord
      → List ExtensionDecision
      → Option MarketPause
      → Bool
      → String
      → ReconcileMarketPlan
  plan_of orders ds p pauses reason = record {
    trace_id = trace_id;
    market = m;
    open_orders = orders;
    actions =
        resume_actions trace_id m p pauses ++ later_actions trace_id m orders ds pauses reason;
    pause_trading = pauses;
    pause_reason = reason;
  }

  planned-pauses :
      (s : AccountStore) (orders : List OrderRecord) (ds : List ExtensionDecision)
      (p : Option MarketPause) (pauses : Bool) (reason d : String)
      → StoreValid s
      → pause_for_market s.snapshot m.condition_id ≡ p
      → pause_for_market (reconcile_market e now s (plan_of orders ds p pauses reason)).snapshot d
        ≡ (if m.condition_id == d
            then (if pauses
                then some (
                    build_pause m.condition_id
                      (named_reason reason)
                      (some MarketPauseSource.reconcile)
                      none)
                else none)
            else pause_for_market s.snapshot d)
  unfolding reconcile_market
  planned-pauses s orders ds p false reason d v q =
      resumed s p (later_actions trace_id m orders ds false reason) d v
        (later_actions-Unresuming trace_id m orders ds false reason) q
  planned-pauses s orders ds p true reason d v q =
      let t =
        pause_market s m.condition_id (named_reason reason) (some MarketPauseSource.reconcile)
          none in
      let later = later_actions trace_id m orders ds true reason in
      rw (no_resumption p) (
        Quiet-pauses t (apply_actions e m now t later) d
          (apply_actions-Quiet e m now later t
            (later_actions-Unresuming trace_id m orders ds true reason))
          (pause-StoreValid s m.condition_id (named_reason reason)
            (some MarketPauseSource.reconcile) none v)
        ∙ pauses-pause_market s m.condition_id d v (named_reason reason)
            (some MarketPauseSource.reconcile) none)

  planned-StoreValid :
      (s : AccountStore) (orders : List OrderRecord) (ds : List ExtensionDecision)
      (p : Option MarketPause) (pauses : Bool) (reason : String)
      → StoreValid s
      → StoreValid (reconcile_market e now s (plan_of orders ds p pauses reason))
  unfolding reconcile_market apply_actions apply apply_typed
  planned-StoreValid s orders ds none false reason v =
      (apply_actions-Quiet e m now (later_actions trace_id m orders ds false reason) s
          (later_actions-Unresuming trace_id m orders ds false reason)).valid
        v
  planned-StoreValid s orders ds (some p) false reason v =
      (apply_actions-Quiet e m now (later_actions trace_id m orders ds false reason)
          (resume_market s m.condition_id)
          (later_actions-Unresuming trace_id m orders ds false reason)).valid
        (resume-StoreValid s m.condition_id v)
  planned-StoreValid s orders ds p true reason v =
      let t =
        pause_market s m.condition_id (named_reason reason) (some MarketPauseSource.reconcile)
          none in
      rw (no_resumption p) (
        (apply_actions-Quiet e m now (later_actions trace_id m orders ds true reason) t
            (later_actions-Unresuming trace_id m orders ds true reason)).valid
          (pause-StoreValid s m.condition_id (named_reason reason)
            (some MarketPauseSource.reconcile) none v))

  -- A reconcile leaves the store valid.
  pub reconcile_market-StoreValid :
      (decide_recovery : ExtensionContext → RecoveryDecision) (s : AccountStore)
      → StoreValid s
      → StoreValid
          (reconcile_market e now s (build_market_plan decide_recovery m s.snapshot trace_id))
  unfolding build_market_plan
  reconcile_market-StoreValid decide_recovery s v =
      let recovery = decide_recovery (recovery_context m s.snapshot trace_id) in
      let p = pause_for_market s.snapshot m.condition_id in
      let pauses = is_shut m.trading_status || (is_sticky p || recovery.pause_trading) in
      planned-StoreValid s (orders_of s.snapshot m.condition_id (token_ids m)) recovery.actions p
        pauses (resolved_pause_reason m p recovery.pause_reason pauses) v

  -- Whatever the strategy decides and the executor answers, after the reconcile of a market on a valid
  -- store that market is paused if and only if its plan says so, with the reason of the plan and the
  -- source of a reconcile, and the pause of every other market is what it was.
  pub reconcile_market-pauses :
      (decide_recovery : ExtensionContext → RecoveryDecision) (s : AccountStore) (d : String)
      → StoreValid s
      → let plan = build_market_plan decide_recovery m s.snapshot trace_id in
        let reason = if plan.pause_reason == "" then "market_not_tradable" else plan.pause_reason in
        pause_for_market (reconcile_market e now s plan).snapshot d ≡ (
          if m.condition_id == d
          then (if plan.pause_trading
              then some (build_pause m.condition_id reason (some MarketPauseSource.reconcile) none)
              else none)
          else pause_for_market s.snapshot d)
  unfolding build_market_plan
  reconcile_market-pauses decide_recovery s d v =
      let recovery = decide_recovery (recovery_context m s.snapshot trace_id) in
      let p = pause_for_market s.snapshot m.condition_id in
      let pauses = is_shut m.trading_status || (is_sticky p || recovery.pause_trading) in
      planned-pauses s (orders_of s.snapshot m.condition_id (token_ids m)) recovery.actions p pauses
        (resolved_pause_reason m p recovery.pause_reason pauses) d v refl
