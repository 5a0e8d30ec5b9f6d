-- ===== src/Workers/Reconcile/Sticking.antt =====
-- workers/reconcile_worker.py: a pause that no later reconcile lifts.
use fdv.Base.{
  ◌≡◌, refl, ap, ◌∙◌, String, true, false, ◌||◌, ◌==◌, Option, none, some, inl, inr, Bool-cases,
  string_eq,
}
use fdv.Domain.Market.{Market, TradingStatus}
use fdv.Domain.Account.{
  AccountSnapshot, MarketPause, MarketPauseSource, build_pause, pause_for_market,
}
use fdv.Runtime.AccountStore.{AccountStore}
use fdv.Runtime.AccountStore.Invariant.{StoreValid}
use fdv.App.Trading.{Executor}
use fdv.App.Decisions.{RecoveryDecision}
use fdv.App.Reconcile.{
  ExtensionContext, is_shut, is_sticky, resolved_pause_reason, market_pause_reason,
}
use fdv.App.Reconcile.Plan.{build_market_plan, recovery_context}
use fdv.Workers.Reconcile.{Times}
use fdv.Workers.Reconcile.Applying.{reconcile_market}
use fdv.Workers.Reconcile.Outcome.{
  reconcile_market-pauses, reconcile_market-StoreValid, Quiet-pauses, unrecoverable, sticky_plan,
}
use fdv.Workers.Reconcile.Pausing.{Quiet}

module _ (e : Option Executor) (m : Market) (now : Times) (trace_id : String) where
  paused_reason :
      (p : Option MarketPause)
      → m.trading_status ≡ TradingStatus.paused
      → m.reject_reason ≡ none
      → is_sticky p ≡ false
      → resolved_pause_reason m p "" true ≡ "market_paused"
  unfolding resolved_pause_reason market_pause_reason
  paused_reason p h g k = rw k (rw h (rw g refl))

  shut_plan :
      (decide_recovery : ExtensionContext → RecoveryDecision) (a : AccountSnapshot)
      → m.trading_status ≡ TradingStatus.paused
      → m.reject_reason ≡ none
      → pause_for_market a m.condition_id ≡ none
      → (decide_recovery (recovery_context m a trace_id)).pause_reason ≡ ""
      → ((build_market_plan decide_recovery m a trace_id).pause_trading ≡ true)
        × ((build_market_plan decide_recovery m a trace_id).pause_reason ≡ "market_paused")
  unfolding build_market_plan
  shut_plan decide_recovery a h g k r =
      let recovery = decide_recovery (recovery_context m a trace_id) in
      let p = pause_for_market a m.condition_id in
      let shut : is_shut m.trading_status ≡ true = rw h refl in
      let pauses = ap (λ b. b || (is_sticky p || recovery.pause_trading)) shut in
      (
        pauses,
        ap (λ b. resolved_pause_reason m p recovery.pause_reason b) pauses
            ∙ ap (λ x. resolved_pause_reason m p x true) r
            ∙ paused_reason p h g (rw k refl),
      )

  after_shut :
      (decide_recovery : ExtensionContext → RecoveryDecision) (s : AccountStore)
      → StoreValid s
      → m.trading_status ≡ TradingStatus.paused
      → m.reject_reason ≡ none
      → pause_for_market s.snapshot m.condition_id ≡ none
      → (decide_recovery (recovery_context m s.snapshot trace_id)).pause_reason ≡ ""
      → pause_for_market
          (reconcile_market e now s
            (build_market_plan decide_recovery m s.snapshot trace_id)).snapshot
          m.condition_id
        ≡ some (build_pause m.condition_id "market_paused" (some MarketPauseSource.reconcile) none)
  after_shut decide_recovery s v h g k r =
      let plan = shut_plan decide_recovery s.snapshot h g k r in
      reconcile_market-pauses e m now trace_id decide_recovery s m.condition_id v
      ∙ rw ((string_eq.same_iff m.condition_id m.condition_id).1 refl) (rw plan.0 (rw plan.1 refl))

-- The pause that `_pause_reason` names for a market whose status is PAUSED.
abbrev sticky_pause : String → MarketPause
sticky_pause c = build_pause c "market_paused" (some MarketPauseSource.reconcile) none

-- A store that comes from another by reconciles of any markets, each planned on the account as it is
-- then, and by other writes that leave the pauses alone.
pub data Reconciles (s : AccountStore) : AccountStore → Type 0 where
  none_yet : Reconciles s s
  reconciled :
      {t : AccountStore} (e : Option Executor) (m : Market) (now : Times) (trace_id : String)
      (decide_recovery : ExtensionContext → RecoveryDecision)
      → Reconciles s t
      → Reconciles s
          (reconcile_market e now t (build_market_plan decide_recovery m t.snapshot trace_id))
  written : {t u : AccountStore} → Reconciles s t → Quiet t u → Reconciles s u

sticky_reason :
    (decide_recovery : ExtensionContext → RecoveryDecision) (m : Market) (a : AccountSnapshot)
    (trace_id : String)
    → pause_for_market a m.condition_id ≡ some (sticky_pause m.condition_id)
    → (build_market_plan decide_recovery m a trace_id).pause_reason ≡ "market_paused"
unfolding build_market_plan resolved_pause_reason build_pause
sticky_reason decide_recovery m a trace_id found = rw found refl

-- A plan for a market with that pause pauses it again for the same reason.
sticks :
    (decide_recovery : ExtensionContext → RecoveryDecision) (m : Market) (a : AccountSnapshot)
    (trace_id : String)
    → pause_for_market a m.condition_id ≡ some (sticky_pause m.condition_id)
    → ((build_market_plan decide_recovery m a trace_id).pause_trading ≡ true)
      × ((build_market_plan decide_recovery m a trace_id).pause_reason ≡ "market_paused")
sticks decide_recovery m a trace_id found = (
  sticky_plan decide_recovery m a trace_id (sticky_pause m.condition_id) found
      (unrecoverable m.condition_id),
  sticky_reason decide_recovery m a trace_id found,
)

module _ (e : Option Executor) (m : Market) (now : Times) (trace_id : String)
    (decide_recovery : ExtensionContext → RecoveryDecision) (s : AccountStore) where
  reconciled-sticky :
      (c : String)
      → StoreValid s
      → pause_for_market s.snapshot c ≡ some (sticky_pause c)
      → pause_for_market
          (reconcile_market e now s
            (build_market_plan decide_recovery m s.snapshot trace_id)).snapshot
          c
        ≡ some (sticky_pause c)
  reconciled-sticky c v found = elim (Bool-cases (m.condition_id == c)) [
    | inr other ↦ reconcile_market-pauses e m now trace_id decide_recovery s c v ∙ rw other found
    | inl same ↦
        let q = (string_eq.same_iff m.condition_id c).0 same in
        let held : pause_for_market s.snapshot m.condition_id ≡ some (sticky_pause m.condition_id) =
          rw q found in
        let plan = sticks decide_recovery m s.snapshot trace_id held in
        reconcile_market-pauses e m now trace_id decide_recovery s c v
        ∙ rw same (rw plan.0 (rw plan.1 (ap (λ d. some (sticky_pause d)) q)))
  ]

Reconciles-sticky :
    (s t : AccountStore) (c : String)
    → StoreValid s
    → pause_for_market s.snapshot c ≡ some (sticky_pause c)
    → Reconciles s t
    → StoreValid t × (pause_for_market t.snapshot c ≡ some (sticky_pause c))
Reconciles-sticky s _ c v found none_yet = (v, found)
Reconciles-sticky s _ c v found (reconciled {t = t} e m now trace_id decide_recovery run) =
    let (w, held) = Reconciles-sticky s t c v found run in
    (
      reconcile_market-StoreValid e m now trace_id decide_recovery t w,
      reconciled-sticky e m now trace_id decide_recovery t c w held,
    )
Reconciles-sticky s _ c v found (written {t = t} {u = u} run q) =
    let (w, held) = Reconciles-sticky s t c v found run in
    (q.valid w, Quiet-pauses t u c q w ∙ held)

-- A market whose status is PAUSED and that is not paused on the account is paused by its reconcile on
-- a valid store, if neither the market nor the strategy names a reason. From then on, after any
-- number of reconciles of any markets, each planned on the account as it is then, and of writes that
-- keep the store's invariant and leave the pauses alone, a plan for that market on the account as it
-- is pauses it again with the reason market_paused, whatever its status is then and whatever the
-- strategy decides.
pub reconcile_market-stays_paused :
    (e : Option Executor) (m later : Market) (now : Times) (trace_id trace : String)
    (decide_recovery again : ExtensionContext → RecoveryDecision) (s t : AccountStore)
    → StoreValid s
    → m.trading_status ≡ TradingStatus.paused
    → m.reject_reason ≡ none
    → pause_for_market s.snapshot m.condition_id ≡ none
    → (decide_recovery (recovery_context m s.snapshot trace_id)).pause_reason ≡ ""
    → Reconciles
        (reconcile_market e now s (build_market_plan decide_recovery m s.snapshot trace_id))
        t
    → later.condition_id ≡ m.condition_id
    → ((build_market_plan again later t.snapshot trace).pause_trading ≡ true)
      × ((build_market_plan again later t.snapshot trace).pause_reason ≡ "market_paused")
reconcile_market-stays_paused e m later now trace_id trace decide_recovery again s t v h g k r run
      same =
    let first = after_shut e m now trace_id decide_recovery s v h g k r in
    let w = reconcile_market-StoreValid e m now trace_id decide_recovery s v in
    let held = (Reconciles-sticky _ t m.condition_id w first run).1 in
    sticks again later t.snapshot trace (rw same held)
