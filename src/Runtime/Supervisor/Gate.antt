-- ===== src/Runtime/Supervisor/Gate.antt =====
-- runtime/supervisor.py: when a snapshot says that trading is automatic.
use fdv.Base.{
  arith, ◌≡◌, refl, ◌↔◌, ap, ℕ, ◌-◌, ◌≤◌, String, Bool, true, false, not, ◌&&◌, Option, none, some,
  List, ◌++◌, truthy, is_none, is_empty, leb→le, le→leb,
}
use fdv.Domain.Order.{Time}
use fdv.Runtime.Values.{Conversions}
use fdv.Runtime.Supervisor.{RuntimePhase, Supervisor, Sources, is_trading}
use fdv.Runtime.Supervisor.Readiness.{
  is_started, may_be_ready, config_ready, market_ws_connected, user_ws_connected, last_reconcile_at,
  within, reconcile_fresh, outbox_backlog_ok, reason_if, blocking_reasons, is_ready,
  build_readiness, snapshot,
}

reason_if-append :
    (blocked : Bool) (reason : String) (rest : List String)
    → is_empty (reason_if blocked reason ++ rest) ≡ (not blocked && is_empty rest)
unfolding reason_if
reason_if-append true reason rest = refl
reason_if-append false reason rest = refl

reason_if-is_empty :
    (blocked : Bool) (reason : String) → is_empty (reason_if blocked reason) ≡ not blocked
unfolding reason_if
reason_if-is_empty true reason = refl
reason_if-is_empty false reason = refl

pub double_negation : (b : Bool) → not (not b) ≡ b
double_negation true = refl
double_negation false = refl

and_left : (a b : Bool) → (a && b) ≡ true → a ≡ true
and_left a b h = ground arith

and_right : (a b : Bool) → (a && b) ≡ true → b ≡ true
and_right a b h = ground arith

pub and_false : (a b : Bool) → a ≡ false → (a && b) ≡ false
and_false a b h = ground arith

pub false_and : (a b : Bool) → b ≡ false → (a && b) ≡ false
false_and a b h = ground arith

pub both : (a b : Bool) → a ≡ true → b ≡ true → (a && b) ≡ true
both a b h k = ground arith

false_of_negation : (b : Bool) → not b ≡ true → b ≡ false
false_of_negation b h = ground arith

-- What readiness asks of the parts that the supervisor watches.
pub record PartsReady (k : Conversions) (s : Supervisor) (now : Time) (src : Sources) : Type 0 where
  pub config : config_ready src ≡ true
  pub db : s.db_ready ≡ true
  pub client : s.trading_client_ready ≡ true
  pub market_ws : market_ws_connected src ≡ true
  pub user_ws : user_ws_connected src ≡ true
  pub reconciled :
      (at : Time) × (last_reconcile_at k src ≡ some at) × (now - at ≤ s.reconcile_stale_after)
  pub backlog : outbox_backlog_ok k s src ≡ true

blocking_reasons-is_empty :
    (k : Conversions) (s : Supervisor) (now : Time) (src : Sources)
    → is_empty (blocking_reasons k s now src) ≡ (
        config_ready src
        && (s.db_ready
            && (s.trading_client_ready
                && (market_ws_connected src
                    && (user_ws_connected src
                        && (reconcile_fresh k s now src
                            && (outbox_backlog_ok k s src
                                && (not (truthy s.manual_pause_reason)
                                    && (not (truthy s.degraded_reason)
                                        && is_started s.phase)))))))))
unfolding blocking_reasons
blocking_reasons-is_empty k s now src = simp (reason_if-append, reason_if-is_empty, double_negation)

within-fresh :
    (stale now : ℕ) (o : Option Time)
    → (within stale now o ≡ true) ↔ ((at : Time) × (o ≡ some at) × (now - at ≤ stale))
within-fresh stale now none = (λ h. cc, λ h. cc (h.1))
within-fresh stale now (some at) = (λ h. (at, refl, leb→le _ _ h), λ h. le→leb _ _ (ground arith))

all_ten :
    (a b c d e f g h i j : Bool)
    → ((a && (b && (c && (d && (e && (f && (g && (h && (i && j))))))))) ≡ true) ↔ (
        (a ≡ true)
        × (b ≡ true)
        × (c ≡ true)
        × (d ≡ true)
        × (e ≡ true)
        × (f ≡ true)
        × (g ≡ true)
        × (h ≡ true)
        × (i ≡ true)
        × (j ≡ true))
all_ten a b c d e f g h i j = ground arith

may_be_ready-is_started : (p : RuntimePhase) → may_be_ready p ≡ true → is_started p ≡ true
may_be_ready-is_started RuntimePhase.workers_started h = refl
may_be_ready-is_started RuntimePhase.trading_enabled h = refl
may_be_ready-is_started RuntimePhase.config_loading h = cc
may_be_ready-is_started RuntimePhase.infra_ready h = cc
may_be_ready-is_started RuntimePhase.recovering_snapshot h = cc
may_be_ready-is_started RuntimePhase.reconciling h = cc
may_be_ready-is_started RuntimePhase.paused h = refl
may_be_ready-is_started RuntimePhase.degraded h = refl
may_be_ready-is_started RuntimePhase.stopping h = cc
may_be_ready-is_started RuntimePhase.stopped h = cc

-- No reason of its own stands against trading.
abbrev pub Unblocked : Supervisor → Type 0
Unblocked s = (truthy s.manual_pause_reason ≡ false) × (truthy s.degraded_reason ≡ false)

pub is_ready_iff :
    (k : Conversions) (s : Supervisor) (now : Time) (src : Sources)
    → (is_ready k s now src ≡ true)
      ↔ (PartsReady k s now src × Unblocked s × (may_be_ready s.phase ≡ true))
unfolding is_ready reconcile_fresh
is_ready_iff k s now src =
    let fresh = within-fresh s.reconcile_stale_after now (last_reconcile_at k src) in
    let ten =
      all_ten (config_ready src) s.db_ready s.trading_client_ready (market_ws_connected src)
        (user_ws_connected src) (reconcile_fresh k s now src) (outbox_backlog_ok k s src)
        (not (truthy s.manual_pause_reason)) (not (truthy s.degraded_reason))
        (is_started s.phase) in
    rw (blocking_reasons-is_empty k s now src) (
      (λ h.
          let t = ten.0 (and_left _ _ h) in
          (
            record {
              config = t.0;
              db = t.1;
              client = t.2;
              market_ws = t.3;
              user_ws = t.4;
              reconciled = fresh.0 (t.5);
              backlog = t.6;
            },
            (false_of_negation _ t.7, false_of_negation _ t.8),
            and_right _ _ h,
          )),
      (λ h.
          both _ _
            (ten.1 (
              h.0.config,
              h.0.db,
              h.0.client,
              h.0.market_ws,
              h.0.user_ws,
              fresh.1 h.0.reconciled,
              h.0.backlog,
              ap not h.1.0,
              ap not h.1.1,
              may_be_ready-is_started s.phase h.2,
            ))
            h.2),
    )

is_trading-eq : (p : RuntimePhase) → is_trading p ≡ true → p ≡ RuntimePhase.trading_enabled
is_trading-eq RuntimePhase.trading_enabled h = refl
is_trading-eq RuntimePhase.workers_started h = cc
is_trading-eq RuntimePhase.config_loading h = cc
is_trading-eq RuntimePhase.infra_ready h = cc
is_trading-eq RuntimePhase.recovering_snapshot h = cc
is_trading-eq RuntimePhase.reconciling h = cc
is_trading-eq RuntimePhase.paused h = cc
is_trading-eq RuntimePhase.degraded h = cc
is_trading-eq RuntimePhase.stopping h = cc
is_trading-eq RuntimePhase.stopped h = cc

is_none-eq : (o : Option String) → is_none o ≡ true → o ≡ none
is_none-eq none h = refl
is_none-eq (some a) h = cc

-- A snapshot says that trading is automatic exactly when trading is the phase, no pause and no
-- degradation stands, and every part is ready: the settings, the database, the client, both sockets,
-- a reconcile no older than the bound, and the backlog of the outbox.
pub snapshot-enabled_iff :
    (k : Conversions) (s : Supervisor) (now : Time) (src : Sources)
    → ((snapshot k s now src).automatic_trading_enabled ≡ true) ↔ (
        (s.phase ≡ RuntimePhase.trading_enabled)
        × (s.manual_pause_reason ≡ none)
        × (s.degraded_reason ≡ none)
        × PartsReady k s now src)
unfolding snapshot build_readiness
snapshot-enabled_iff k s now src = (
  (λ h.
      let rest = and_right _ _ h in
      let held = and_right _ _ rest in
      (
        is_trading-eq s.phase (and_left _ _ rest),
        is_none-eq _ (and_left _ _ held),
        is_none-eq _ (and_right _ _ held),
        ((is_ready_iff k s now src).0 (and_left _ _ h)).0,
      )),
  (λ h.
      both _ _
        ((is_ready_iff k s now src).1 (h.3, (ap truthy h.1, ap truthy h.2), ap may_be_ready h.0))
        (both _ _ (ap is_trading h.0) (both _ _ (ap is_none h.1) (ap is_none h.2)))),
)

-- A snapshot with a pause or a degradation does not enable trading.
pub snapshot-held :
    (k : Conversions) (s : Supervisor) (now : Time) (src : Sources)
    → (is_none s.manual_pause_reason && is_none s.degraded_reason) ≡ false
    → (snapshot k s now src).automatic_trading_enabled ≡ false
unfolding snapshot build_readiness
snapshot-held k s now src h = ground arith
