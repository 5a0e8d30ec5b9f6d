-- ===== src/Runtime/Supervisor/Recovery.antt =====
-- runtime/supervisor.py: what `refresh` does under load, and how trading comes back.
use fdv.Base.{
  arith, ◌≡◌, refl, ◌⊎◌, ◌∙◌, ap, inl, inr, true, false, none, some, is_none, truthy, Bool-cases,
}
use fdv.Domain.Order.{Time}
use fdv.Runtime.EventBus.{EventBus}
use fdv.Runtime.EventBus.Consume.{resume_low_priority}
use fdv.Runtime.Values.{Conversions}
use fdv.Runtime.Supervisor.{RuntimePhase, Supervisor, Sources}
use fdv.Runtime.Supervisor.Readiness.{
  may_be_ready, snapshot, should_pause_low_priority, shed_load, lift_load, balance_load,
  enable_if_ready, refresh, outbox_backlog_ok,
}
use fdv.Runtime.Supervisor.Gate.{
  PartsReady, is_ready_iff, snapshot-enabled_iff, snapshot-held, both, false_and,
}

enable_if_ready-others :
    (k : Conversions) (s : Supervisor) (now : Time) (src : Sources)
    → ((enable_if_ready k s now src).event_bus ≡ s.event_bus)
      × ((enable_if_ready k s now src).degraded_reason ≡ s.degraded_reason)
unfolding enable_if_ready
enable_if_ready-others k s now src = ground arith

shed_load-degraded : (s : Supervisor) → is_none (shed_load s).degraded_reason ≡ false
unfolding shed_load
shed_load-degraded s = ground arith

-- An overloaded `refresh` leaves the low lanes paused, and no trading that is automatic.
pub refresh-overloaded :
    (k : Conversions) (s : Supervisor) (now : Time) (src : Sources)
    → should_pause_low_priority k s src ≡ true
    → ((refresh k s now src).0.event_bus.low_priority_paused ≡ true)
      × ((refresh k s now src).1.automatic_trading_enabled ≡ false)
unfolding refresh balance_load shed_load
refresh-overloaded k s now src h =
    let e = enable_if_ready-others k (shed_load s) now src in
    rw h (
      ap (λ b. b.low_priority_paused) e.0,
      snapshot-held k _ now src (false_and _ _ (ap is_none e.1 ∙ shed_load-degraded s)),
    )

-- What a supervisor may recover from: no operator paused it, and either it is not degraded and in a
-- phase that may trade, or the pressure on the queues degraded it and its low lanes are paused.
abbrev pub Recoverable : Supervisor → Type 0
Recoverable s =
    (s.manual_pause_reason ≡ none)
    × (((s.degraded_reason ≡ none) × (may_be_ready s.phase ≡ true))
        ⊎ ((s.degraded_reason ≡ some "p0_backpressure") × (s.event_bus.low_priority_paused ≡ true)))

-- What lets a snapshot after `enable_if_ready` say that trading is automatic.
abbrev Willing : Supervisor → Type 0
Willing s =
    (s.manual_pause_reason ≡ none)
    × (s.degraded_reason ≡ none)
    × (may_be_ready s.phase ≡ true)
    × (s.event_bus.low_priority_paused ≡ false)

resume-running : (b : EventBus) → (resume_low_priority b).low_priority_paused ≡ false
unfolding resume_low_priority
resume-running b = refl

lift_load-Willing : (s : Supervisor) → Recoverable s → Willing (lift_load s)
unfolding lift_load
lift_load-Willing s r = ground (arith, resume-running s.event_bus)

unpaused-Willing :
    (s : Supervisor) → Recoverable s → s.event_bus.low_priority_paused ≡ false → Willing s
unpaused-Willing s (m, inl (d, p)) q = (m, d, p, q)
unpaused-Willing s (m, inr (d, p)) q = cc

-- What the parts read of the supervisor itself.
abbrev SameParts : Supervisor → Supervisor → Type 0
SameParts s t =
    (t.db_ready ≡ s.db_ready)
    × (t.trading_client_ready ≡ s.trading_client_ready)
    × (t.reconcile_stale_after ≡ s.reconcile_stale_after)
    × (t.outbox_depth_warn ≡ s.outbox_depth_warn)

PartsReady-same :
    (k : Conversions) (s t : Supervisor) (now : Time) (src : Sources)
    → SameParts s t
    → PartsReady k s now src
    → PartsReady k t now src
unfolding outbox_backlog_ok
PartsReady-same k s t now src e p = record {
  config = p.config;
  db = e.0 ∙ p.db;
  client = e.1 ∙ p.client;
  market_ws = p.market_ws;
  user_ws = p.user_ws;
  reconciled = (p.reconciled.0, p.reconciled.1, rw e.2 p.reconciled.2);
  backlog = rw e.3 p.backlog;
}

balance_load-SameParts :
    (k : Conversions) (s : Supervisor) (src : Sources) → SameParts s (balance_load k s src)
unfolding balance_load shed_load lift_load
balance_load-SameParts k s src = ground arith

balance_load-Willing :
    (k : Conversions) (s : Supervisor) (src : Sources)
    → should_pause_low_priority k s src ≡ false
    → Recoverable s
    → Willing (balance_load k s src)
unfolding balance_load
balance_load-Willing k s src h r = elim (Bool-cases s.event_bus.low_priority_paused) [
  | inl q ↦ simp (h, q) (lift_load-Willing s r)
  | inr q ↦ let w = unpaused-Willing s r q in simp (h, q) (w.0, w.1, w.2, refl)
]

balance_load-PartsReady :
    (k : Conversions) (s : Supervisor) (now : Time) (src : Sources)
    → PartsReady k s now src
    → PartsReady k (balance_load k s src) now src
balance_load-PartsReady k s now src p =
    PartsReady-same k s (balance_load k s src) now src (balance_load-SameParts k s src) p

enable_if_ready-trades :
    (k : Conversions) (s : Supervisor) (now : Time) (src : Sources)
    → Willing s
    → PartsReady k s now src
    → ((snapshot k (enable_if_ready k s now src) now src).automatic_trading_enabled ≡ true)
      × ((enable_if_ready k s now src).event_bus.low_priority_paused ≡ false)
unfolding enable_if_ready
enable_if_ready-trades k s now src w p =
    let ready = (is_ready_iff k s now src).1 (p, (ap truthy w.0, ap truthy w.1), w.2) in
    rw (both _ _ ready (ap is_none w.0)) (
      (snapshot-enabled_iff k (record s { phase = RuntimePhase.trading_enabled }) now src).1
          (refl, w.0, w.1, PartsReady-same k s _ now src (refl, refl, refl, refl) p),
      w.3,
    )

-- Trading comes back by itself: a `refresh` without overload, with every part ready, of a supervisor
-- that no operator paused, and that either is not degraded and is in the phase workers_started or
-- trading_enabled, or is degraded by the pressure on the queues and has its low lanes paused, returns
-- a snapshot with automatic trading and leaves the low lanes running.
pub refresh-recovers :
    (k : Conversions) (s : Supervisor) (now : Time) (src : Sources)
    → should_pause_low_priority k s src ≡ false
    → Recoverable s
    → PartsReady k s now src
    → ((refresh k s now src).1.automatic_trading_enabled ≡ true)
      × ((refresh k s now src).0.event_bus.low_priority_paused ≡ false)
unfolding refresh
refresh-recovers k s now src h r p =
    enable_if_ready-trades k (balance_load k s src) now src (balance_load-Willing k s src h r)
      (balance_load-PartsReady k s now src p)
