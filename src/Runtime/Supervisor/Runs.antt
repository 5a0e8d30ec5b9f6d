-- ===== src/Runtime/Supervisor/Runs.antt =====
-- runtime/supervisor.py: runs of the supervisor, beside the workers of the bus that it shares.
use fdv.Base.{arith, ◌≡◌, refl, ◌∙◌, ap, String, Bool, false, Option, List, [], ◌∷◌, is_none, All}
use fdv.Domain.Order.{Time}
use fdv.Runtime.EventBus.Calls.{BusCall, bus_step}
use fdv.Runtime.Values.{Conversions}
use fdv.Runtime.Supervisor.{
  RuntimePhase, WorkerLifecycleState, Supervisor, Sources, register_worker, heartbeat_worker,
  mark_worker_error, set_phase, mark_db_ready, mark_trading_client_ready, pause_trading,
  resume_trading, mark_degraded, clear_degraded,
}
use fdv.Runtime.Supervisor.Readiness.{snapshot, balance_load, enable_if_ready, refresh}
use fdv.Runtime.Supervisor.Gate.{snapshot-held, and_false}

-- The calls on the supervisor, and what other workers do to the bus that it shares.
pub data SupervisorCall : Type 0 where
  registering : Time → String → String → WorkerLifecycleState → Bool → String → SupervisorCall
  beating : Time → String → WorkerLifecycleState → Bool → String → Option String → SupervisorCall
  failing : Time → String → String → String → SupervisorCall
  entering : RuntimePhase → SupervisorCall
  db_marking : Bool → String → SupervisorCall
  client_marking : Bool → String → SupervisorCall
  pausing : String → SupervisorCall
  resuming : SupervisorCall
  degrading : String → SupervisorCall
  clearing : SupervisorCall
  refreshing : Conversions → Time → Sources → SupervisorCall
  on_bus : BusCall → SupervisorCall

unfoldable pub supervisor_step : SupervisorCall → Supervisor → Supervisor
unfolding register_worker heartbeat_worker mark_worker_error set_phase mark_db_ready
    mark_trading_client_ready pause_trading resume_trading mark_degraded clear_degraded refresh
supervisor_step (registering now name priority lifecycle healthy detail) s =
    register_worker s now name priority lifecycle healthy detail
supervisor_step (beating now name lifecycle healthy detail last_error) s =
    heartbeat_worker s now name lifecycle healthy detail last_error
supervisor_step (failing now name detail last_error) s =
    mark_worker_error s now name detail last_error
supervisor_step (entering phase) s = set_phase s phase
supervisor_step (db_marking ready reason) s = mark_db_ready s ready reason
supervisor_step (client_marking ready reason) s = mark_trading_client_ready s ready reason
supervisor_step (pausing reason) s = pause_trading s reason
supervisor_step resuming s = resume_trading s
supervisor_step (degrading reason) s = mark_degraded s reason
supervisor_step clearing s = clear_degraded s
supervisor_step (refreshing k now src) s = (refresh k s now src).0
supervisor_step (on_bus call) s = record s { event_bus = bus_step call s.event_bus }

unfoldable pub supervisor_run : List SupervisorCall → Supervisor → Supervisor
supervisor_run [] s = s
supervisor_run (c ∷ cs) s = supervisor_run cs (supervisor_step c s)

balance_load-pause :
    (k : Conversions) (s : Supervisor) (src : Sources)
    → (balance_load k s src).manual_pause_reason ≡ s.manual_pause_reason
unfolding balance_load
balance_load-pause k s src = ground arith

enable_if_ready-pause :
    (k : Conversions) (s : Supervisor) (now : Time) (src : Sources)
    → (enable_if_ready k s now src).manual_pause_reason ≡ s.manual_pause_reason
unfolding enable_if_ready
enable_if_ready-pause k s now src = ground arith

-- Every call but the one that resumes trading.
abbrev pub KeepsPause : SupervisorCall → Type 0
KeepsPause resuming = ⊥
KeepsPause (registering now name priority lifecycle healthy detail) = Unit {0}
KeepsPause (beating now name lifecycle healthy detail last_error) = Unit {0}
KeepsPause (failing now name detail last_error) = Unit {0}
KeepsPause (entering phase) = Unit {0}
KeepsPause (db_marking ready reason) = Unit {0}
KeepsPause (client_marking ready reason) = Unit {0}
KeepsPause (pausing reason) = Unit {0}
KeepsPause (degrading reason) = Unit {0}
KeepsPause clearing = Unit {0}
KeepsPause (refreshing k now src) = Unit {0}
KeepsPause (on_bus call) = Unit {0}

abbrev pub Paused : Supervisor → Type 0
Paused s = is_none s.manual_pause_reason ≡ false

supervisor_step-Paused :
    (c : SupervisorCall) (s : Supervisor) → KeepsPause c → Paused s → Paused (supervisor_step c s)
unfolding supervisor_step refresh register_worker heartbeat_worker mark_worker_error set_phase
    mark_db_ready mark_trading_client_ready pause_trading mark_degraded clear_degraded
supervisor_step-Paused resuming s f h = absurd f
supervisor_step-Paused (registering now name priority lifecycle healthy detail) s f h = h
supervisor_step-Paused (beating now name lifecycle healthy detail last_error) s f h = h
supervisor_step-Paused (failing now name detail last_error) s f h = h
supervisor_step-Paused (entering phase) s f h = h
supervisor_step-Paused (db_marking ready reason) s f h = h
supervisor_step-Paused (client_marking ready reason) s f h = h
supervisor_step-Paused (pausing reason) s f h = refl
supervisor_step-Paused (degrading reason) s f h = h
supervisor_step-Paused clearing s f h = h
supervisor_step-Paused (refreshing k now src) s f h =
    ap is_none (enable_if_ready-pause k (balance_load k s src) now src ∙ balance_load-pause k s src)
    ∙ h
supervisor_step-Paused (on_bus call) s f h = h

supervisor_run-keeps :
    (cs : List SupervisorCall) (s : Supervisor)
    → All KeepsPause cs
    → Paused s
    → Paused (supervisor_run cs s)
unfolding supervisor_run
supervisor_run-keeps [] s f h = h
supervisor_run-keeps (c ∷ cs) s f h =
    supervisor_run-keeps cs (supervisor_step c s) f.1 (supervisor_step-Paused c s f.0 h)

-- After an operator's pause, whatever is called, marked, refreshed or done to the bus, no snapshot says
-- that trading is automatic until trading is resumed.
pub supervisor_run-Paused :
    (cs : List SupervisorCall) (s : Supervisor) (reason : String)
    → All KeepsPause cs
    → (k : Conversions) (now : Time) (src : Sources)
    → (snapshot k (supervisor_run cs (pause_trading s reason)) now src).automatic_trading_enabled
      ≡ false
unfolding pause_trading
supervisor_run-Paused cs s reason f k now src =
    snapshot-held k _ now src
      (and_false _ _ (supervisor_run-keeps cs (pause_trading s reason) f refl))
