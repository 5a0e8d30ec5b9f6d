-- ===== src/Runtime/Supervisor/Readiness.antt =====
-- runtime/supervisor.py: `_build_readiness`, `snapshot` and `refresh`. Of a snapshot this has the fields
-- that the code computes, without the mappings that it passes through and the sorted worker list.
use fdv.Base.{
  ℕ, ◌-◌, String, Bool, true, false, not, ◌&&◌, ◌||◌, Option, none, some, List, [], ◌∷◌, ◌++◌,
  truthy, get_or, is_none, is_empty, or_else, leb, string_eq, ◌==◌, str_append, if◌then◌else◌,
}
use fdv.Base.Dict.{lookup}
use fdv.Base.Integer.{ℤ, pos, leb_ℤ}
use fdv.Domain.Order.{Time}
use fdv.Runtime.EventBus.Consume.{depths, pause_low_priority, resume_low_priority}
use fdv.Runtime.Values.{
  Conversions, read_bool, read_int, read_datetime, is_blank, extract_metric_value,
}
use fdv.Runtime.Supervisor.{RuntimePhase, Supervisor, Sources, is_trading}

pub record ReadinessSnapshot : Type 0 where
  pub phase : RuntimePhase
  pub live : Bool
  pub ready : Bool
  pub automatic_trading_enabled : Bool
  pub config_ready : Bool
  pub db_ready : Bool
  pub trading_client_ready : Bool
  pub market_ws_connected : Bool
  pub user_ws_connected : Bool
  pub reconcile_fresh : Bool
  pub outbox_backlog_ok : Bool
  pub low_priority_paused : Bool
  pub blocking_reasons : List String
  pub warnings : List String
  pub last_reconcile_at : Option Time

pub record RuntimeSnapshot : Type 0 where
  pub phase : RuntimePhase
  pub automatic_trading_enabled : Bool
  pub low_priority_paused : Bool
  pub live : Bool
  pub manual_pause_reason : Option String
  pub degraded_reason : Option String
  pub readiness : ReadinessSnapshot

abbrev pub phase_text : RuntimePhase → String
phase_text RuntimePhase.config_loading = "config_loading"
phase_text RuntimePhase.infra_ready = "infra_ready"
phase_text RuntimePhase.recovering_snapshot = "recovering_snapshot"
phase_text RuntimePhase.reconciling = "reconciling"
phase_text RuntimePhase.workers_started = "workers_started"
phase_text RuntimePhase.trading_enabled = "trading_enabled"
phase_text RuntimePhase.paused = "paused"
phase_text RuntimePhase.degraded = "degraded"
phase_text RuntimePhase.stopping = "stopping"
phase_text RuntimePhase.stopped = "stopped"

abbrev pub is_live : RuntimePhase → Bool
is_live RuntimePhase.stopping = false
is_live RuntimePhase.stopped = false
is_live phase = true

-- The phases after start-up, and those in which trading may be ready.
abbrev pub is_started : RuntimePhase → Bool
is_started RuntimePhase.trading_enabled = true
is_started RuntimePhase.workers_started = true
is_started RuntimePhase.degraded = true
is_started RuntimePhase.paused = true
is_started phase = false

abbrev pub may_be_ready : RuntimePhase → Bool
may_be_ready RuntimePhase.workers_started = true
may_be_ready RuntimePhase.trading_enabled = true
may_be_ready phase = false

unfoldable pub config_ready : Sources → Bool
config_ready src = read_bool src.settings_readiness "ready_to_trade" false

unfoldable pub market_ws_connected : Sources → Bool
market_ws_connected src =
    if is_none (lookup "connected" src.market_ws)
    then is_blank (lookup "last_error" src.market_ws)
    else read_bool src.market_ws "connected" false

unfoldable pub user_ws_connected : Sources → Bool
user_ws_connected src =
    read_bool src.user_ws "connected" (read_bool src.account "user_ws_connected" false)

unfoldable pub last_reconcile_at : Conversions → Sources → Option Time
last_reconcile_at k src =
    or_else (read_datetime k src.account "last_reconcile_at")
      (read_datetime k src.reconcile "last_reconcile_at")

abbrev pub within : ℕ → Time → Option Time → Bool
within stale_after now none = false
within stale_after now (some at) = leb (now - at) stale_after

unfoldable pub reconcile_fresh : Conversions → Supervisor → Time → Sources → Bool
reconcile_fresh k s now src = within s.reconcile_stale_after now (last_reconcile_at k src)

unfoldable pub outbox_backlog_ok : Conversions → Supervisor → Sources → Bool
outbox_backlog_ok k s src =
    not (leb_ℤ (pos s.outbox_depth_warn) (read_int k src.persistence "outbox_depth" (pos 0)))

-- `if blocked: blocking_reasons.append(reason)`
unfoldable pub reason_if : Bool → String → List String
reason_if blocked reason = if blocked then reason ∷ [] else []

unfoldable pub blocking_reasons : Conversions → Supervisor → Time → Sources → List String
unfolding reason_if
blocking_reasons k s now src =
    reason_if (not (config_ready src)) "config_not_ready"
    ++ (reason_if (not s.db_ready) "db_not_ready"
        ++ (reason_if (not s.trading_client_ready) "trading_client_not_ready"
            ++ (reason_if (not (market_ws_connected src)) "market_ws_not_connected"
                ++ (reason_if (not (user_ws_connected src)) "user_ws_not_connected"
                    ++ (reason_if (not (reconcile_fresh k s now src)) "reconcile_not_fresh"
                        ++ (reason_if (not (outbox_backlog_ok k s src)) "outbox_backlog_high"
                            ++ (reason_if (truthy s.manual_pause_reason)
                                  (get_or s.manual_pause_reason "")
                                ++ (reason_if (truthy s.degraded_reason)
                                      (get_or s.degraded_reason "")
                                    ++ reason_if (not (is_started s.phase))
                                        (str_append "phase=" (phase_text s.phase))))))))))

unfoldable pub is_ready : Conversions → Supervisor → Time → Sources → Bool
unfolding blocking_reasons
is_ready k s now src = is_empty (blocking_reasons k s now src) && may_be_ready s.phase

-- `_build_readiness`
unfoldable pub build_readiness : Conversions → Supervisor → Time → Sources → ReadinessSnapshot
unfolding is_ready
build_readiness k s now src = record {
  phase = s.phase;
  live = is_live s.phase;
  ready = is_ready k s now src;
  automatic_trading_enabled =
      is_ready k s now src && read_bool src.account "allow_new_entries" (user_ws_connected src);
  config_ready = config_ready src;
  db_ready = s.db_ready;
  trading_client_ready = s.trading_client_ready;
  market_ws_connected = market_ws_connected src;
  user_ws_connected = user_ws_connected src;
  reconcile_fresh = reconcile_fresh k s now src;
  outbox_backlog_ok = outbox_backlog_ok k s src;
  low_priority_paused = s.event_bus.low_priority_paused;
  blocking_reasons = blocking_reasons k s now src;
  warnings =
      reason_if (depths s.event_bus).low_priority_paused "low_priority_paused"
      ++ reason_if (read_bool src.settings_readiness "warnings" false) "config_warning_present";
  last_reconcile_at = last_reconcile_at k src;
}

-- `snapshot`
unfoldable pub snapshot : Conversions → Supervisor → Time → Sources → RuntimeSnapshot
unfolding build_readiness
snapshot k s now src =
    let readiness = build_readiness k s now src in
    record {
      phase = s.phase;
      automatic_trading_enabled =
          readiness.ready
          && (is_trading s.phase && (is_none s.manual_pause_reason && is_none s.degraded_reason));
      low_priority_paused = s.event_bus.low_priority_paused;
      live = is_live s.phase;
      manual_pause_reason = s.manual_pause_reason;
      degraded_reason = s.degraded_reason;
      readiness = readiness;
    }

abbrev pub reaches : ℕ → Option ℤ → Bool
reaches warn none = false
reaches warn (some ms) = leb_ℤ (pos warn) ms

-- `_should_pause_low_priority`
unfoldable pub should_pause_low_priority : Conversions → Supervisor → Sources → Bool
unfolding depths extract_metric_value
should_pause_low_priority k s src =
    leb s.trading_queue_warn_depth (depths s.event_bus).trading_queue_depth
    || (reaches s.entry_signal_to_submit_warn_ms
          (extract_metric_value k src.metrics "entry_signal_to_submit_ms")
        || (reaches s.entry_signal_to_submit_warn_ms
              (extract_metric_value k src.metrics "trading_lock_wait_ms")
            || reaches s.entry_signal_to_submit_warn_ms
                (extract_metric_value k src.metrics "executor_queue_wait_ms")))

abbrev pub is_backpressure : Option String → Bool
is_backpressure none = false
is_backpressure (some reason) = reason == "p0_backpressure"

unfoldable pub shed_load : Supervisor → Supervisor
shed_load s = record s {
  event_bus = pause_low_priority s.event_bus;
  degraded_reason = or_else s.degraded_reason (some "p0_backpressure");
  phase = if is_trading s.phase then RuntimePhase.degraded else s.phase;
}

unfoldable pub lift_load : Supervisor → Supervisor
lift_load s = record s {
  event_bus = resume_low_priority s.event_bus;
  degraded_reason = if is_backpressure s.degraded_reason then none else s.degraded_reason;
  phase =
      if is_backpressure s.degraded_reason && is_none s.manual_pause_reason
      then RuntimePhase.workers_started
      else s.phase;
}

-- `refresh` up to its first snapshot.
unfoldable pub balance_load : Conversions → Supervisor → Sources → Supervisor
unfolding shed_load lift_load
balance_load k s src =
    if should_pause_low_priority k s src
    then shed_load s
    else if s.event_bus.low_priority_paused
    then lift_load s
    else s

-- Its rest: a ready program trades.
unfoldable pub enable_if_ready : Conversions → Supervisor → Time → Sources → Supervisor
unfolding is_ready
enable_if_ready k s now src =
    if is_ready k s now src && is_none s.manual_pause_reason
    then record s { phase = RuntimePhase.trading_enabled }
    else s

-- `refresh`: the supervisor after it, and the snapshot that it returns. The clock is taken as read once.
unfoldable pub refresh : Conversions → Supervisor → Time → Sources → Supervisor × RuntimeSnapshot
unfolding balance_load enable_if_ready snapshot
refresh k s now src =
    let s' = enable_if_ready k (balance_load k s src) now src in (s', snapshot k s' now src)
