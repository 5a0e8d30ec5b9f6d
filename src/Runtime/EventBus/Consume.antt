-- ===== src/Runtime/EventBus/Consume.antt =====
-- runtime/event_bus.py: taking events off the bus. Every read moves retained events into the room
-- that it finds.
use fdv.Base.{
  ℕ, suc, String, Bool, true, false, Option, none, some, [], ◌∷◌, length, ltb, if◌then◌else◌,
}
use fdv.Base.Dict.{Dict}
use fdv.Runtime.EventBus.{BusEvent, Queue, EventBus, enqueue, awake}

pub record Flushed : Type 0 where
  pub number : ℕ
  pub queue : Queue
  pub retained : Dict String BusEvent

-- The loop of `_flush_retained_best_effort` over one lane. Its `put_nowait` cannot find the queue
-- full, since nothing runs between the test and the put.
unfoldable pub flush_lane : ℕ → ℕ → Queue → Dict String BusEvent → Flushed
flush_lane capacity n q [] = record { number = n; queue = q; retained = [] }
flush_lane capacity n q ((k, e) ∷ rest) =
    let more = flush_lane capacity (suc n) (enqueue q n e) rest in
    if ltb (length q) capacity
    then more
    else record { number = n; queue = q; retained = (k, e) ∷ rest }

unfoldable pub flush_maintenance : EventBus → EventBus
flush_maintenance b =
    let f =
      flush_lane b.maintenance_capacity b.sequence b.maintenance_queue b.maintenance_retained in
    record b { sequence = f.number; maintenance_queue = f.queue; maintenance_retained = f.retained }

unfoldable pub flush_persistence : EventBus → EventBus
flush_persistence b =
    let f =
      flush_lane b.persistence_capacity b.sequence b.persistence_queue b.persistence_retained in
    record b { sequence = f.number; persistence_queue = f.queue; persistence_retained = f.retained }

-- Whether an event moves, which sets the wake flag.
abbrev pub moves : ℕ → Queue → Dict String BusEvent → Bool
moves capacity q [] = false
moves capacity q (x ∷ rest) = ltb (length q) capacity

unfoldable pub flush_lanes : EventBus → EventBus
unfolding flush_lane flush_maintenance flush_persistence
flush_lanes b = record (flush_persistence (flush_maintenance b)) {
  wake =
      if moves b.maintenance_capacity b.maintenance_queue b.maintenance_retained
      then true
      else if moves b.persistence_capacity b.persistence_queue b.persistence_retained
      then true
      else b.wake;
}

-- `_flush_retained_best_effort`
unfoldable pub flush_retained : EventBus → EventBus
unfolding flush_lanes
flush_retained b = if b.low_priority_paused then b else flush_lanes b

-- `_pop_next_ready`: trading first, then maintenance, then persistence.
unfoldable pub pop_persistence : EventBus → Queue → Option (BusEvent × EventBus)
pop_persistence b [] = none
pop_persistence b ((n, e) ∷ rest) = some (e, record b { persistence_queue = rest })

unfoldable pub pop_maintenance : EventBus → Queue → Option (BusEvent × EventBus)
unfolding pop_persistence
pop_maintenance b [] = pop_persistence b b.persistence_queue
pop_maintenance b ((n, e) ∷ rest) = some (e, record b { maintenance_queue = rest })

unfoldable pub pop_trading : EventBus → Queue → Option (BusEvent × EventBus)
unfolding pop_maintenance
pop_trading b [] = pop_maintenance b b.maintenance_queue
pop_trading b ((n, e) ∷ rest) = some (e, record b { trading_queue = rest })

abbrev pub pop_next_ready : EventBus → Option (BusEvent × EventBus)
pop_next_ready b = pop_trading b b.trading_queue

-- One round of `next_event`; `none` means that it waits, with the wake flag cleared.
unfoldable pub next_event : EventBus → Option (BusEvent × EventBus)
unfolding flush_retained pop_trading
next_event b = pop_next_ready (flush_retained b)

-- `next_trading_event`, `next_maintenance_event` and `next_persistence_event`; `none` means that the
-- reader waits for the queue.
unfoldable pub take_trading : EventBus → Queue → Option (BusEvent × EventBus)
unfolding flush_retained
take_trading b [] = none
take_trading b ((n, e) ∷ rest) = some (e, flush_retained (record b { trading_queue = rest }))

unfoldable pub take_maintenance : EventBus → Queue → Option (BusEvent × EventBus)
unfolding flush_retained
take_maintenance b [] = none
take_maintenance b ((n, e) ∷ rest) =
    some (e, flush_retained (record b { maintenance_queue = rest }))

unfoldable pub take_persistence : EventBus → Queue → Option (BusEvent × EventBus)
unfolding flush_retained
take_persistence b [] = none
take_persistence b ((n, e) ∷ rest) =
    some (e, flush_retained (record b { persistence_queue = rest }))

abbrev pub next_trading_event : EventBus → Option (BusEvent × EventBus)
next_trading_event b = take_trading b b.trading_queue

abbrev pub next_maintenance_event : EventBus → Option (BusEvent × EventBus)
next_maintenance_event b = take_maintenance b b.maintenance_queue

abbrev pub next_persistence_event : EventBus → Option (BusEvent × EventBus)
next_persistence_event b = take_persistence b b.persistence_queue

abbrev pub pause_low_priority : EventBus → EventBus
pause_low_priority b = record b { low_priority_paused = true }

unfoldable pub resume_low_priority : EventBus → EventBus
unfolding flush_retained
resume_low_priority b = awake (flush_retained (record b { low_priority_paused = false }))

pub record QueueDepthSnapshot : Type 0 where
  pub trading_queue_depth : ℕ
  pub maintenance_queue_depth : ℕ
  pub persistence_queue_depth : ℕ
  pub trading_queue_capacity : ℕ
  pub maintenance_queue_capacity : ℕ
  pub persistence_queue_capacity : ℕ
  pub trading_retained_depth : ℕ
  pub maintenance_retained_depth : ℕ
  pub persistence_retained_depth : ℕ
  pub low_priority_paused : Bool

unfoldable pub depths : EventBus → QueueDepthSnapshot
depths b = record {
  trading_queue_depth = length b.trading_queue;
  maintenance_queue_depth = length b.maintenance_queue;
  persistence_queue_depth = length b.persistence_queue;
  trading_queue_capacity = b.trading_capacity;
  maintenance_queue_capacity = b.maintenance_capacity;
  persistence_queue_capacity = b.persistence_capacity;
  trading_retained_depth = 0;
  maintenance_retained_depth = length b.maintenance_retained;
  persistence_retained_depth = length b.persistence_retained;
  low_priority_paused = b.low_priority_paused;
}
