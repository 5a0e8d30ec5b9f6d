-- ===== src/Tests/Bus.antt =====
-- The bus after a few calls.
use fdv.Base.{String, ◌≡◌, refl, none, some, [], ◌∷◌, string_eq}
use fdv.Base.Dict.{Dict}
use fdv.Runtime.EventBus.{BusEvent, EventBus, new_bus, p0, p2}
use fdv.Runtime.EventBus.Consume.{
  flush_retained, flush_lanes, pop_trading, pop_maintenance, pop_persistence, next_event,
}
use fdv.Runtime.EventBus.Calls.{publishing, pausing, resuming, bus_run}
use fdv.Runtime.EventBus.Bounds.{Bounded}
use fdv.Runtime.EventBus.Steps.{bus_run-new_bus-Bounded}
use fdv.Runtime.EventBus.Delivery.{
  events, maintenance_line, persistence_line, ready, Serves, flush_retained-keeps_lines,
  next_event-Serves, next_event-idle,
}
use fdv.Tests.Data.{event}

-- A bus of small lanes.
abbrev empty_bus : EventBus
empty_bus = new_bus none (some 2) (some 1) (some 1) (some 2)

-- Three maintenance events came in while the low lanes were paused.
abbrev busy : EventBus
busy =
    bus_run
      (pausing
        ∷ publishing p2 (event "a")
        ∷ publishing p2 (event "b")
        ∷ publishing p2 (event "c")
        ∷ publishing p0 (event "t")
        ∷ resuming
        ∷ [])
      empty_bus

bus_run-new_bus-Bounded_example : Bounded busy
bus_run-new_bus-Bounded_example = bus_run-new_bus-Bounded none (some 2) (some 1) (some 1) (some 2) _

flush_retained-keeps_lines_example :
    (maintenance_line (flush_retained busy) ≡ maintenance_line busy)
    × (persistence_line (flush_retained busy) ≡ persistence_line busy)
    × ((flush_retained busy).trading_queue ≡ busy.trading_queue)
flush_retained-keeps_lines_example = flush_retained-keeps_lines busy

next_event-Serves_example : Serves (ready (flush_retained busy)) (next_event busy)
next_event-Serves_example = next_event-Serves busy

-- A bus whose first trading event is known.
abbrev trades : EventBus
trades = record busy { trading_queue = (7, event "t") ∷ (9, event "u") ∷ [] }

next_event-idle_example :
    (events empty_bus.trading_queue ≡ [])
    × (maintenance_line empty_bus ≡ [])
    × (persistence_line empty_bus ≡ [])
unfolding new_bus next_event flush_retained flush_lanes pop_trading pop_maintenance pop_persistence
    bus_run
next_event-idle_example =
    next_event-idle empty_bus (bus_run-new_bus-Bounded none (some 2) (some 1) (some 1) (some 2) [])
      refl refl

abbrev one_kept : Dict String BusEvent
one_kept = ("a", event "a") ∷ []
