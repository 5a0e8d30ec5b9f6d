-- ===== src/Tests/Supervisor.antt =====
-- runtime/supervisor.py: a supervisor whose workers are up.
use fdv.Base.{arith, ◌↔◌, ◌≡◌, refl, true, false, none, [], ◌∷◌, inl, string_eq}
use fdv.Base.Integer.{pos}
use fdv.Base.Dict.{lookup}
use fdv.Runtime.EventBus.{new_bus}
use fdv.Runtime.Values.{
  flag, stamp, number, Conversions, no_gauges, truth, read_bool, read_int, read_datetime, int_of,
}
use fdv.Runtime.Supervisor.{RuntimePhase, Supervisor, Sources, new_supervisor, pause_trading}
use fdv.Runtime.Supervisor.Readiness.{
  snapshot, refresh, should_pause_low_priority, config_ready, market_ws_connected,
  user_ws_connected, last_reconcile_at, outbox_backlog_ok,
}
use fdv.Runtime.Supervisor.Gate.{PartsReady, snapshot-enabled_iff}
use fdv.Runtime.Supervisor.Runs.{
  supervisor_run, supervisor_run-Paused, clearing, refreshing, entering,
}
use fdv.Runtime.Supervisor.Recovery.{refresh-overloaded, refresh-recovers}

abbrev plain : Conversions
plain = record { int_of_text = λ s. none; time_of_value = λ v. none }

abbrev well : Sources
well = record {
  settings_readiness = ("ready_to_trade", flag true) ∷ [];
  account = ("last_reconcile_at", stamp 900) ∷ [];
  market_ws = ("connected", flag true) ∷ [];
  user_ws = ("connected", flag true) ∷ [];
  reconcile = [];
  persistence = ("outbox_depth", number (pos 3)) ∷ [];
  metrics = record { values = []; gauges = no_gauges };
}

-- The executor is behind.
abbrev slow : Sources
slow = record well {
  metrics = record {
    values = ("executor_queue_wait_ms", number (pos 700)) ∷ [];
    gauges = no_gauges;
  };
}

abbrev started : Supervisor
unfolding new_supervisor new_bus
started =
    record (new_supervisor (new_bus none none none none none) (pos 100) (pos 500) (pos 1000)
      (pos 300)) {
        phase = RuntimePhase.workers_started;
        db_ready = true;
        trading_client_ready = true;
      }

abbrev trading : Supervisor
unfolding started new_supervisor new_bus
trading = record started { phase = RuntimePhase.trading_enabled }

started-PartsReady : PartsReady plain started 1000 well
unfolding started new_supervisor new_bus config_ready market_ws_connected user_ws_connected
    last_reconcile_at outbox_backlog_ok read_bool read_int read_datetime truth int_of lookup
started-PartsReady = record {
  config = refl;
  db = refl;
  client = refl;
  market_ws = refl;
  user_ws = refl;
  reconciled = (900, refl, omega arith);
  backlog = refl;
}

trading-PartsReady : PartsReady plain trading 1000 well
unfolding trading started new_supervisor new_bus config_ready market_ws_connected user_ws_connected
    last_reconcile_at outbox_backlog_ok read_bool read_int read_datetime truth int_of lookup
trading-PartsReady = record {
  config = refl;
  db = refl;
  client = refl;
  market_ws = refl;
  user_ws = refl;
  reconciled = (900, refl, omega arith);
  backlog = refl;
}

trading_enabled : (snapshot plain trading 1000 well).automatic_trading_enabled ≡ true
unfolding trading started new_supervisor new_bus
trading_enabled =
    (snapshot-enabled_iff plain trading 1000 well).1 (refl, refl, refl, trading-PartsReady)

snapshot-enabled_iff_example :
    ((snapshot plain trading 1000 well).automatic_trading_enabled ≡ true) ↔ (
      (trading.phase ≡ RuntimePhase.trading_enabled)
      × (trading.manual_pause_reason ≡ none)
      × (trading.degraded_reason ≡ none)
      × PartsReady plain trading 1000 well)
snapshot-enabled_iff_example = snapshot-enabled_iff plain trading 1000 well

supervisor_run-Paused_example :
    (snapshot plain
      (supervisor_run
        (entering RuntimePhase.trading_enabled ∷ clearing ∷ refreshing plain 1000 well ∷ [])
        (pause_trading trading "maintenance"))
      1000
      well).automatic_trading_enabled
    ≡ false
supervisor_run-Paused_example =
    supervisor_run-Paused
      (entering RuntimePhase.trading_enabled ∷ clearing ∷ refreshing plain 1000 well ∷ []) trading
      "maintenance" (tt, (tt, (tt, tt))) plain 1000 well

refresh-overloaded_example :
    ((refresh plain trading 1000 slow).0.event_bus.low_priority_paused ≡ true)
    × ((refresh plain trading 1000 slow).1.automatic_trading_enabled ≡ false)
unfolding trading started new_supervisor new_bus should_pause_low_priority lookup
refresh-overloaded_example = refresh-overloaded plain trading 1000 slow refl

refresh-recovers_example :
    ((refresh plain started 1000 well).1.automatic_trading_enabled ≡ true)
    × ((refresh plain started 1000 well).0.event_bus.low_priority_paused ≡ false)
unfolding started new_supervisor new_bus should_pause_low_priority lookup
refresh-recovers_example =
    refresh-recovers plain started 1000 well refl (refl, inl (refl, refl)) started-PartsReady
