-- ===== src/Runtime/Supervisor.antt =====
-- runtime/supervisor.py and runtime/status.py: the phases of the program and the marks of its workers.
pub mod Readiness
pub mod Gate
pub mod Runs
pub mod Recovery
use fdv.Base.{
  ℕ, ◌*◌, ◌-◌, String, Bool, true, false, not, ◌&&◌, ◌||◌, Option, none, some, List, [], ◌∷◌, ◌++◌,
  truthy, text_or, get_or, is_none, is_empty, or_else, leb, ltb, string_eq, str_append,
  if◌then◌else◌,
}
use fdv.Base.Dict.{Dict, lookup, insert}
use fdv.Base.Integer.{ℤ, pos, pos_part, leb_ℤ}
use fdv.Domain.Order.{Time}
use fdv.Runtime.EventBus.{EventBus, max_ℕ}
use fdv.Runtime.Values.{
  Value, Conversions, Mapping, truth, read_bool, truth_or, read_int, read_datetime, is_blank,
  Metrics,
}

pub data RuntimePhase : Type 0 where
  config_loading infra_ready recovering_snapshot reconciling workers_started : RuntimePhase
  trading_enabled paused degraded stopping stopped : RuntimePhase

pub data WorkerLifecycleState : Type 0 where
  starting running paused degraded stopped : WorkerLifecycleState

pub record WorkerHealth : Type 0 where
  pub name : String
  pub priority : String
  pub lifecycle : WorkerLifecycleState
  pub healthy : Bool
  pub detail : String
  pub last_heartbeat_at : Time
  pub last_error : Option String

pub record Supervisor : Type 0 where
  pub event_bus : EventBus
  pub trading_queue_warn_depth : ℕ
  pub entry_signal_to_submit_warn_ms : ℕ
  pub outbox_depth_warn : ℕ
  pub reconcile_stale_after : ℕ
  pub phase : RuntimePhase
  pub manual_pause_reason : Option String
  pub degraded_reason : Option String
  pub db_ready : Bool
  pub trading_client_ready : Bool
  pub worker_health : Dict String WorkerHealth

-- What the snapshot providers give at a moment.
pub record Sources : Type 0 where
  pub settings_readiness : Mapping
  pub account : Mapping
  pub market_ws : Mapping
  pub user_ws : Mapping
  pub reconcile : Mapping
  pub persistence : Mapping
  pub metrics : Metrics

-- `__init__`; times are numbers of microseconds.
unfoldable pub new_supervisor : EventBus → ℤ → ℤ → ℤ → ℤ → Supervisor
new_supervisor bus queue_warn submit_warn outbox_warn stale_seconds = record {
  event_bus = bus;
  trading_queue_warn_depth = max_ℕ 0 (pos_part queue_warn);
  entry_signal_to_submit_warn_ms = max_ℕ 1 (pos_part submit_warn);
  outbox_depth_warn = max_ℕ 1 (pos_part outbox_warn);
  reconcile_stale_after = max_ℕ 1 (pos_part stale_seconds) * 1000000;
  phase = RuntimePhase.config_loading;
  manual_pause_reason = none;
  degraded_reason = none;
  db_ready = false;
  trading_client_ready = false;
  worker_health = [];
}

unfoldable pub register_worker :
    Supervisor → Time → String → String → WorkerLifecycleState → Bool → String → Supervisor
register_worker s now name priority lifecycle healthy detail = record s {
  worker_health =
      insert name
        (record {
          name = name;
          priority = priority;
          lifecycle = lifecycle;
          healthy = healthy;
          detail = detail;
          last_heartbeat_at = now;
          last_error = none;
        })
        s.worker_health;
}

abbrev pub priority_of : Option WorkerHealth → String
priority_of none = "P2"
priority_of (some w) = w.priority

-- `heartbeat_worker`; `mark_worker_error` is the one that says degraded and not healthy.
unfoldable pub heartbeat_worker :
    Supervisor → Time → String → WorkerLifecycleState → Bool → String → Option String → Supervisor
heartbeat_worker s now name lifecycle healthy detail last_error = record s {
  worker_health =
      insert name
        (record {
          name = name;
          priority = priority_of (lookup name s.worker_health);
          lifecycle = lifecycle;
          healthy = healthy;
          detail = detail;
          last_heartbeat_at = now;
          last_error = last_error;
        })
        s.worker_health;
}

unfoldable pub mark_worker_error : Supervisor → Time → String → String → String → Supervisor
unfolding heartbeat_worker
mark_worker_error s now name detail last_error =
    heartbeat_worker s now name WorkerLifecycleState.degraded false detail (some last_error)

unfoldable pub set_phase : Supervisor → RuntimePhase → Supervisor
set_phase s phase = record s { phase = phase }

-- The reason that a readiness mark leaves behind.
abbrev pub marked_reason : Bool → String → Option String → Option String
marked_reason ready reason old = if not ready && truthy (some reason) then some reason else old

unfoldable pub mark_db_ready : Supervisor → Bool → String → Supervisor
mark_db_ready s ready reason = record s {
  db_ready = ready;
  degraded_reason = marked_reason ready reason s.degraded_reason;
}

unfoldable pub mark_trading_client_ready : Supervisor → Bool → String → Supervisor
mark_trading_client_ready s ready reason = record s {
  trading_client_ready = ready;
  degraded_reason = marked_reason ready reason s.degraded_reason;
}

unfoldable pub pause_trading : Supervisor → String → Supervisor
pause_trading s reason = record s {
  manual_pause_reason = some (text_or (some reason) "manual_pause");
  phase = RuntimePhase.paused;
}

abbrev pub is_paused : RuntimePhase → Bool
is_paused RuntimePhase.paused = true
is_paused phase = false

abbrev pub is_degraded : RuntimePhase → Bool
is_degraded RuntimePhase.degraded = true
is_degraded phase = false

abbrev pub is_trading : RuntimePhase → Bool
is_trading RuntimePhase.trading_enabled = true
is_trading phase = false

unfoldable pub resume_trading : Supervisor → Supervisor
resume_trading s = record s {
  manual_pause_reason = none;
  phase = if is_paused s.phase then RuntimePhase.trading_enabled else s.phase;
}

unfoldable pub mark_degraded : Supervisor → String → Supervisor
mark_degraded s reason = record s {
  degraded_reason = some (text_or (some reason) "runtime_degraded");
  phase = RuntimePhase.degraded;
}

unfoldable pub clear_degraded : Supervisor → Supervisor
clear_degraded s = record s {
  degraded_reason = none;
  phase = if is_degraded s.phase then RuntimePhase.workers_started else s.phase;
}
