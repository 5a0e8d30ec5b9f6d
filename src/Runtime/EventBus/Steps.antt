-- ===== src/Runtime/EventBus/Steps.antt =====
-- Every call keeps the bus within its capacities.
use fdv.Base.{
  ℕ, suc, ◌≤◌, String, true, false, Option, none, some, List, [], ◌∷◌, length, ltb, arith, inl, inr,
  Bool-cases, if◌then◌else◌,
}
use fdv.Base.Dict.{Dict}
use fdv.Runtime.EventBus.{
  new_bus, EventPriority, BusEvent, Queue, EventBus, mirror, enqueue, retain_maintenance,
  retain_persistence, awake, put_trading, put_maintenance, put_persistence, publish_maintenance,
  publish_persistence, QueueLane, trading, maintenance, persistence, publish_on, publish,
  normalize_priority,
}
use fdv.Runtime.EventBus.Consume.{
  flush_retained, pop_persistence, pop_maintenance, pop_trading, next_event, take_trading,
  take_maintenance, take_persistence, resume_low_priority,
}
use fdv.Runtime.EventBus.Calls.{
  BusCall, publishing, finishing, binding, reading, reading_trading, reading_maintenance,
  reading_persistence, pausing, resuming, bus_after, read_or_wait, read_or_sleep, bus_step, bus_run,
}
use fdv.Runtime.EventBus.Bounds.{
  LowLane, Bounded, new_bus-Bounded, flush_retained-Bounded, retain_in-LowLane, enqueue-fits,
  enqueue-LowLane,
}

mirror-Bounded :
    (b : EventBus) (p : EventPriority) (e : BusEvent) → Bounded b → Bounded (mirror b p e)
unfolding mirror
mirror-Bounded b p e h = elim (Bool-cases b.sink_bound) [
  | inl bound ↦ rw bound h
  | inr free ↦ rw free h
]

put_trading-Bounded :
    (b : EventBus) (p : EventPriority) (n : ℕ) (e : BusEvent)
    → Bounded b
    → Bounded (bus_after (put_trading b p n e))
unfolding put_trading bus_after
put_trading-Bounded b p n e h =
    elim (Bool-cases (ltb (length b.trading_queue) b.trading_capacity)) [
      | inl room ↦ rw room (
          mirror-Bounded (record b { trading_queue = enqueue b.trading_queue n e }) p e
            (enqueue-fits _ n b.trading_queue e room, h.1, h.2, h.3))
      | inr full ↦ rw full h
    ]

retain_maintenance-Bounded :
    (b : EventBus) (e : BusEvent) → Bounded b → Bounded (retain_maintenance b e)
unfolding retain_maintenance
retain_maintenance-Bounded b e h = (h.0, retain_in-LowLane _ _ _ _ e h.3 h.1, h.2, h.3)

retain_persistence-Bounded :
    (b : EventBus) (e : BusEvent) → Bounded b → Bounded (retain_persistence b e)
unfolding retain_persistence
retain_persistence-Bounded b e h = (h.0, h.1, retain_in-LowLane _ _ _ _ e h.3 h.2, h.3)

put_maintenance-Bounded : (b : EventBus) (e : BusEvent) → Bounded b → Bounded (put_maintenance b e)
unfolding put_maintenance
put_maintenance-Bounded b e h =
    elim (Bool-cases (ltb (length b.maintenance_queue) b.maintenance_capacity)) [
      | inl room ↦ rw room (h.0, enqueue-LowLane _ _ b.sequence _ _ e room h.1, h.2, h.3)
      | inr full ↦ rw full (retain_maintenance-Bounded (record b { sequence = suc b.sequence }) e h)
    ]

put_persistence-Bounded : (b : EventBus) (e : BusEvent) → Bounded b → Bounded (put_persistence b e)
unfolding put_persistence
put_persistence-Bounded b e h =
    elim (Bool-cases (ltb (length b.persistence_queue) b.persistence_capacity)) [
      | inl room ↦ rw room (h.0, h.1, enqueue-LowLane _ _ b.sequence _ _ e room h.2, h.3)
      | inr full ↦ rw full (retain_persistence-Bounded (record b { sequence = suc b.sequence }) e h)
    ]

publish_on-Bounded :
    (lane : QueueLane) (b : EventBus) (p : EventPriority) (e : BusEvent)
    → Bounded b
    → Bounded (bus_after (publish_on lane b p e))
unfolding publish_on bus_after publish_maintenance publish_persistence
publish_on-Bounded trading b p e h =
    put_trading-Bounded (record b { sequence = suc b.sequence }) p b.sequence e h
publish_on-Bounded maintenance b p e h =
    mirror-Bounded (if b.low_priority_paused then retain_maintenance b e else put_maintenance b e) p
      e
      (elim b.low_priority_paused
        as (λ q. Bounded (if q then retain_maintenance b e else put_maintenance b e)) [
          | true ↦ retain_maintenance-Bounded b e h
          | false ↦ put_maintenance-Bounded b e h
        ])
publish_on-Bounded persistence b p e h =
    elim b.sink_bound
      as (λ s. Bounded (
        if s
        then mirror b p e
        else awake (
            mirror (if b.low_priority_paused then retain_persistence b e else put_persistence b e) p
              e))) [
                | true ↦ mirror-Bounded b p e h
                | false ↦
                    mirror-Bounded
                      (if b.low_priority_paused
                        then retain_persistence b e
                        else put_persistence b e)
                      p e
                      (elim b.low_priority_paused
                        as (λ q.
                          Bounded (if q then retain_persistence b e else put_persistence b e)) [
                            | true ↦ retain_persistence-Bounded b e h
                            | false ↦ put_persistence-Bounded b e h
                          ])
              ]

-- What a read returns is a bus within its capacities.
abbrev AfterRead : Option (BusEvent × EventBus) → Type 0
AfterRead none = Unit
AfterRead (some (e, b)) = Bounded b

other_queue :
    {capacity room : ℕ} {q s : Queue} {d : Dict String BusEvent}
    → LowLane capacity room q d
    → length s ≤ capacity
    → LowLane capacity room s d
other_queue h fits = record {
  serves = h.serves;
  queue_fits = fits;
  retained_fits = h.retained_fits;
  distinct = h.distinct;
}

pop_persistence-Bounded :
    (b : EventBus) (q : Queue)
    → Bounded b
    → length q ≤ b.persistence_capacity
    → AfterRead (pop_persistence b q)
unfolding pop_persistence
pop_persistence-Bounded b [] h fits = tt
pop_persistence-Bounded b ((n, e) ∷ rest) h fits = (h.0, h.1, other_queue h.2 (omega arith), h.3)

pop_maintenance-Bounded :
    (b : EventBus) (q : Queue)
    → Bounded b
    → length q ≤ b.maintenance_capacity
    → AfterRead (pop_maintenance b q)
unfolding pop_maintenance
pop_maintenance-Bounded b [] h fits = pop_persistence-Bounded b b.persistence_queue h h.2.queue_fits
pop_maintenance-Bounded b ((n, e) ∷ rest) h fits = (h.0, other_queue h.1 (omega arith), h.2, h.3)

pop_trading-Bounded :
    (b : EventBus) (q : Queue)
    → Bounded b
    → length q ≤ b.trading_capacity
    → AfterRead (pop_trading b q)
unfolding pop_trading
pop_trading-Bounded b [] h fits = pop_maintenance-Bounded b b.maintenance_queue h h.1.queue_fits
pop_trading-Bounded b ((n, e) ∷ rest) h fits = (omega arith, h.1, h.2, h.3)

take_trading-Bounded :
    (b : EventBus) (q : Queue)
    → Bounded b
    → length q ≤ b.trading_capacity
    → AfterRead (take_trading b q)
unfolding take_trading
take_trading-Bounded b [] h fits = tt
take_trading-Bounded b ((n, e) ∷ rest) h fits =
    flush_retained-Bounded (record b { trading_queue = rest }) (omega arith, h.1, h.2, h.3)

take_maintenance-Bounded :
    (b : EventBus) (q : Queue)
    → Bounded b
    → length q ≤ b.maintenance_capacity
    → AfterRead (take_maintenance b q)
unfolding take_maintenance
take_maintenance-Bounded b [] h fits = tt
take_maintenance-Bounded b ((n, e) ∷ rest) h fits =
    flush_retained-Bounded (record b { maintenance_queue = rest })
      (h.0, other_queue h.1 (omega arith), h.2, h.3)

take_persistence-Bounded :
    (b : EventBus) (q : Queue)
    → Bounded b
    → length q ≤ b.persistence_capacity
    → AfterRead (take_persistence b q)
unfolding take_persistence
take_persistence-Bounded b [] h fits = tt
take_persistence-Bounded b ((n, e) ∷ rest) h fits =
    flush_retained-Bounded (record b { persistence_queue = rest })
      (h.0, h.1, other_queue h.2 (omega arith), h.3)

read_or_wait-Bounded :
    (b : EventBus) (r : Option (BusEvent × EventBus))
    → Bounded b
    → AfterRead r
    → Bounded (read_or_wait b r)
unfolding read_or_wait
read_or_wait-Bounded b none h after = h
read_or_wait-Bounded b (some (e, c)) h after = after

read_or_sleep-Bounded :
    (b : EventBus) (r : Option (BusEvent × EventBus))
    → Bounded b
    → AfterRead r
    → Bounded (read_or_sleep b r)
unfolding read_or_sleep
read_or_sleep-Bounded b none h after = h
read_or_sleep-Bounded b (some (e, c)) h after = after

pub bus_step-Bounded : (c : BusCall) (b : EventBus) → Bounded b → Bounded (bus_step c b)
unfolding bus_step publish next_event resume_low_priority
bus_step-Bounded (publishing p e) b h = publish_on-Bounded (normalize_priority p) b p e h
bus_step-Bounded (finishing p n e) b h = put_trading-Bounded b p n e h
bus_step-Bounded (binding bound) b h = h
bus_step-Bounded reading b h =
    let f = flush_retained-Bounded b h in
    read_or_sleep-Bounded (flush_retained b) _ f
      (pop_trading-Bounded (flush_retained b) (flush_retained b).trading_queue f f.0)
bus_step-Bounded reading_trading b h =
    read_or_wait-Bounded b _ h (take_trading-Bounded b b.trading_queue h h.0)
bus_step-Bounded reading_maintenance b h =
    read_or_wait-Bounded b _ h (take_maintenance-Bounded b b.maintenance_queue h h.1.queue_fits)
bus_step-Bounded reading_persistence b h =
    read_or_wait-Bounded b _ h (take_persistence-Bounded b b.persistence_queue h h.2.queue_fits)
bus_step-Bounded pausing b h = h
bus_step-Bounded resuming b h = flush_retained-Bounded (record b { low_priority_paused = false }) h

bus_run-Bounded : (cs : List BusCall) (b : EventBus) → Bounded b → Bounded (bus_run cs b)
unfolding bus_run
bus_run-Bounded [] b h = h
bus_run-Bounded (c ∷ cs) b h = bus_run-Bounded cs (bus_step c b) (bus_step-Bounded c b h)

-- After any calls on a new bus, whatever capacities it was given, each queue holds at most its
-- capacity and each retained lane at most the retained capacity, which is positive, with no key
-- twice.
pub bus_run-new_bus-Bounded :
    (size t m p r : Option ℕ) (cs : List BusCall) → Bounded (bus_run cs (new_bus size t m p r))
bus_run-new_bus-Bounded size t m p r cs = bus_run-Bounded cs _ (new_bus-Bounded size t m p r)
