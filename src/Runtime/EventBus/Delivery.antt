-- ===== src/Runtime/EventBus/Delivery.antt =====
-- What leaves the bus: in which order, and that nothing is lost between a retained lane and its queue.
use fdv.Base.{
  ℕ, suc, ◌≤◌, ◌<◌, ◌≡◌, refl, ◌∙◌, sym, String, true, false, Option, none, some, List, [], ◌∷◌,
  ◌++◌, map, length, ltb, arith, inl, inr, Bool-cases, if◌then◌else◌, ◌⊎◌, ap, string_eq,
}
use fdv.Base.Dict.{Dict, values}
use fdv.Runtime.EventBus.{BusEvent, Queue, EventBus, enqueue}
use fdv.Runtime.EventBus.Consume.{
  flush_lane, flush_maintenance, flush_persistence, flush_lanes, flush_retained, pop_persistence,
  pop_maintenance, pop_trading, next_event,
}
use fdv.Runtime.EventBus.Bounds.{Bounded}

abbrev pub events : Queue → List BusEvent
events = map (λ p. p.1)

events-enqueue :
    (q : Queue) (n : ℕ) (e : BusEvent) (vs : List BusEvent)
    → events (enqueue q n e) ++ vs ≡ events q ++ e ∷ vs
events-enqueue [] n e vs = refl
events-enqueue ((m, f) ∷ q) n e vs = ap (λ us. f ∷ us) (events-enqueue q n e vs)

flush_lane-values :
    (capacity n : ℕ) (q : Queue) (d : Dict String BusEvent)
    → events (flush_lane capacity n q d).queue ++ values (flush_lane capacity n q d).retained
      ≡ events q ++ values d
unfolding flush_lane
flush_lane-values capacity n q [] = refl
flush_lane-values capacity n q ((k, e) ∷ rest) = elim (Bool-cases (ltb (length q) capacity)) [
  | inr full ↦ rw full refl
  | inl room ↦
      rw room (
        flush_lane-values capacity (suc n) (enqueue q n e) rest
        ∙ events-enqueue q n e (values rest))
]

flush_lane-full :
    (capacity n : ℕ) (q : Queue) (d : Dict String BusEvent)
    → ((flush_lane capacity n q d).retained ≡ [])
      ⊎ (capacity ≤ length (flush_lane capacity n q d).queue)
unfolding flush_lane
flush_lane-full capacity n q [] = inl refl
flush_lane-full capacity n q ((k, e) ∷ rest) = elim (Bool-cases (ltb (length q) capacity)) [
  | inl room ↦ rw room (flush_lane-full capacity (suc n) (enqueue q n e) rest)
  | inr full ↦ rw full (inr (ground arith))
]

-- A lane's events in the order in which it serves them: the queue, then what it retains.
abbrev pub maintenance_line : EventBus → List BusEvent
maintenance_line b = events b.maintenance_queue ++ values b.maintenance_retained

abbrev pub persistence_line : EventBus → List BusEvent
persistence_line b = events b.persistence_queue ++ values b.persistence_retained

-- A flush loses nothing, doubles nothing and keeps the order within each lane, and it leaves the
-- trading queue as it was.
pub flush_retained-keeps_lines :
    (b : EventBus)
    → (maintenance_line (flush_retained b) ≡ maintenance_line b)
      × (persistence_line (flush_retained b) ≡ persistence_line b)
      × ((flush_retained b).trading_queue ≡ b.trading_queue)
unfolding flush_retained flush_lanes flush_maintenance flush_persistence
flush_retained-keeps_lines b =
    elim b.low_priority_paused
      as (λ p.
        (maintenance_line (if p then b else flush_lanes b) ≡ maintenance_line b)
        × (persistence_line (if p then b else flush_lanes b) ≡ persistence_line b)
        × ((if p then b else flush_lanes b).trading_queue ≡ b.trading_queue)) [
          | true ↦ (refl, refl, refl)
          | false ↦ (
            flush_lane-values _ b.sequence b.maintenance_queue b.maintenance_retained,
            flush_lane-values _ (flush_maintenance b).sequence b.persistence_queue
                b.persistence_retained,
            refl,
          )
        ]

-- The queues in the order in which `next_event` serves them.
abbrev pub ready : EventBus → List BusEvent
ready b = events b.trading_queue ++ (events b.maintenance_queue ++ events b.persistence_queue)

-- A reader gets the first ready event and leaves the others, or finds none.
abbrev pub Serves : List BusEvent → Option (BusEvent × EventBus) → Type 0
Serves line none = line ≡ []
Serves line (some (e, after)) = line ≡ e ∷ ready after

pop_persistence-Serves :
    (b : EventBus) (q : Queue)
    → b.trading_queue ≡ []
    → b.maintenance_queue ≡ []
    → Serves (events q) (pop_persistence b q)
unfolding pop_persistence
pop_persistence-Serves b [] ht hm = refl
pop_persistence-Serves b ((n, e) ∷ rest) ht hm = rw (ht, hm) refl

pop_maintenance-Serves :
    (b : EventBus) (q : Queue)
    → b.trading_queue ≡ []
    → b.maintenance_queue ≡ q
    → Serves (events q ++ events b.persistence_queue) (pop_maintenance b q)
unfolding pop_maintenance
pop_maintenance-Serves b [] ht hm = pop_persistence-Serves b b.persistence_queue ht hm
pop_maintenance-Serves b ((n, e) ∷ rest) ht hm = rw ht refl

pop_trading-Serves :
    (b : EventBus) (q : Queue)
    → b.trading_queue ≡ q
    → Serves
        (events q ++ (events b.maintenance_queue ++ events b.persistence_queue))
        (pop_trading b q)
unfolding pop_trading
pop_trading-Serves b [] ht = pop_maintenance-Serves b b.maintenance_queue ht refl
pop_trading-Serves b ((n, e) ∷ rest) ht = refl

-- `next_event` flushes, and then serves the first of the trading events, the maintenance events and
-- the persistence events, in that order, and leaves the others in theirs; it waits just when no
-- queue holds an event.
pub next_event-Serves : (b : EventBus) → Serves (ready (flush_retained b)) (next_event b)
unfolding next_event
next_event-Serves b = pop_trading-Serves (flush_retained b) (flush_retained b).trading_queue refl

-- A trading event is never overtaken: whatever the other lanes hold, the reader gets the first one.
pub next_event-trading_first :
    (b : EventBus) (n : ℕ) (e : BusEvent) (rest : Queue)
    → b.trading_queue ≡ (n, e) ∷ rest
    → next_event b ≡ some (e, record (flush_retained b) { trading_queue = rest })
unfolding next_event
next_event-trading_first b n e rest h =
    ap (pop_trading (flush_retained b)) ((flush_retained-keeps_lines b).2 ∙ h)

append_nil : (us vs : List BusEvent) → us ++ vs ≡ [] → (us ≡ []) × (vs ≡ [])
append_nil [] vs h = (refl, h)
append_nil (u ∷ us) vs h = cc

length-events : (q : Queue) → events q ≡ [] → length q ≡ 0
length-events [] h = refl
length-events (x ∷ q) h = cc

flush_lane-idle :
    (capacity n : ℕ) (q : Queue) (d : Dict String BusEvent)
    → 0 < capacity
    → events (flush_lane capacity n q d).queue ≡ []
    → events q ++ values d ≡ []
flush_lane-idle capacity n q d pos_capacity idle =
    sym (flush_lane-values capacity n q d)
    ∙ rw idle (elim (flush_lane-full capacity n q d) [
      | inl drained ↦ ap values drained
      | inr full ↦ ground (arith, full, length-events (flush_lane capacity n q d).queue idle)
    ])

flush_retained-running :
    (b : EventBus) → b.low_priority_paused ≡ false → flush_retained b ≡ flush_lanes b
unfolding flush_retained
flush_retained-running b h = ap (λ p. if p then b else flush_lanes b) h

-- When `next_event` has to wait on a bus within its capacities whose low lanes run, the bus holds no
-- event at all, queued or retained: no retained event is left behind while a reader sleeps.
pub next_event-idle :
    (b : EventBus)
    → Bounded b
    → b.low_priority_paused ≡ false
    → next_event b ≡ none
    → (events b.trading_queue ≡ []) × (maintenance_line b ≡ []) × (persistence_line b ≡ [])
unfolding flush_lanes flush_maintenance flush_persistence
next_event-idle b h running waits =
    let idle : Serves (ready (flush_retained b)) none = rw waits at (next_event-Serves b) in
    let lanes =
      append_nil (events (flush_retained b).trading_queue)
        (events (flush_retained b).maintenance_queue ++ events (flush_retained b).persistence_queue)
        idle in
    let low =
      append_nil (events (flush_retained b).maintenance_queue)
        (events (flush_retained b).persistence_queue) lanes.1 in
    let flushed = flush_retained-running b running in
    (
      sym (ap events (flush_retained-keeps_lines b).2) ∙ lanes.0,
      flush_lane-idle b.maintenance_capacity b.sequence b.maintenance_queue b.maintenance_retained
          h.1.serves (sym (ap (λ c. events c.maintenance_queue) flushed) ∙ low.0),
      flush_lane-idle b.persistence_capacity (flush_maintenance b).sequence b.persistence_queue
          b.persistence_retained h.2.serves
          (sym (ap (λ c. events c.persistence_queue) flushed) ∙ low.1),
    )
