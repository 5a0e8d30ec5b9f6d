-- ===== src/Runtime/EventBus/Calls.antt =====
-- runtime/event_bus.py: the calls of the workers as steps of the bus, each up to the point where it
-- returns or waits.
use fdv.Base.{ℕ, Bool, false, Option, none, some, List, [], ◌∷◌}
use fdv.Runtime.EventBus.{
  EventPriority, BusEvent, EventBus, bind_persistence_sink, Published, finished, waiting,
  put_trading, publish,
}
use fdv.Runtime.EventBus.Consume.{
  next_event, next_trading_event, next_maintenance_event, next_persistence_event, flush_retained,
  pause_low_priority, resume_low_priority, take_trading, take_maintenance, take_persistence,
}

pub data BusCall : Type 0 where
  publishing : EventPriority → BusEvent → BusCall
  -- A put into the trading queue that waited with the number that it drew tries again.
  finishing : EventPriority → ℕ → BusEvent → BusCall
  binding : Bool → BusCall
  reading : BusCall
  reading_trading : BusCall
  reading_maintenance : BusCall
  reading_persistence : BusCall
  pausing : BusCall
  resuming : BusCall

unfoldable pub bus_after : Published → EventBus
bus_after (finished b) = b
bus_after (waiting b n) = b

-- A reader that waits for its queue leaves the bus as it is.
unfoldable pub read_or_wait : EventBus → Option (BusEvent × EventBus) → EventBus
read_or_wait b none = b
read_or_wait b (some (e, after)) = after

-- `next_event` waits with the wake flag cleared, after what it flushed.
unfoldable pub read_or_sleep : EventBus → Option (BusEvent × EventBus) → EventBus
read_or_sleep b none = record b { wake = false }
read_or_sleep b (some (e, after)) = after

unfoldable pub bus_step : BusCall → EventBus → EventBus
unfolding bus_after publish put_trading read_or_wait read_or_sleep next_event take_trading
    take_maintenance take_persistence resume_low_priority flush_retained
bus_step (publishing p e) b = bus_after (publish b p e)
bus_step (finishing p n e) b = bus_after (put_trading b p n e)
bus_step (binding bound) b = bind_persistence_sink b bound
bus_step reading b = read_or_sleep (flush_retained b) (next_event b)
bus_step reading_trading b = read_or_wait b (next_trading_event b)
bus_step reading_maintenance b = read_or_wait b (next_maintenance_event b)
bus_step reading_persistence b = read_or_wait b (next_persistence_event b)
bus_step pausing b = pause_low_priority b
bus_step resuming b = resume_low_priority b

unfoldable pub bus_run : List BusCall → EventBus → EventBus
bus_run [] b = b
bus_run (c ∷ cs) b = bus_run cs (bus_step c b)
