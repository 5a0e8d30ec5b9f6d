-- ===== src/Runtime/EventBus/Publishing.antt =====
-- What a publication does: to the lanes, to the sink and to the retained events.
use mathlib.Core.Path.{subst}
use fdv.Base.{
  Bool, inl, inr, Bool-cases, sym, ℕ, suc, ◌<◌, ◌≡◌, ◌≢◌, refl, String, true, false, some, List, [],
  ◌∷◌, ◌++◌, length, arith, if◌then◌else◌, string_eq, ◌⊎◌,
}
use fdv.Base.Integer.{ℤ}
use fdv.Base.Dict.{Dict, lookup, lookup-insert_self, lookup-insert_ne}
use fdv.Runtime.EventBus.{
  EventPriority, outbox_priority, BusEvent, Queue, EventBus, event_identity, mirror, retain_in,
  drop_first, retain_maintenance, retain_persistence, Published, finished, waiting, put_trading,
  put_maintenance, put_persistence, publish_maintenance, publish_persistence, QueueLane, trading,
  maintenance, persistence, publish_on, publish, normalize_priority,
}

-- What holds of a publication that finishes with a bus.
abbrev pub Finishes : (EventBus → Type 0) → Published → Type 0
Finishes P (finished b) = P b
Finishes P (waiting b n) = ⊥

mirror-trading_queue :
    (b : EventBus) (p : EventPriority) (e : BusEvent)
    → (mirror b p e).trading_queue ≡ b.trading_queue
unfolding mirror
mirror-trading_queue b p e = ground arith

put_maintenance-trading_queue :
    (b : EventBus) (e : BusEvent) → (put_maintenance b e).trading_queue ≡ b.trading_queue
unfolding put_maintenance retain_maintenance
put_maintenance-trading_queue b e = ground arith

put_persistence-trading_queue :
    (b : EventBus) (e : BusEvent) → (put_persistence b e).trading_queue ≡ b.trading_queue
unfolding put_persistence retain_persistence
put_persistence-trading_queue b e = ground arith

publish_maintenance-trading_queue :
    (b : EventBus) (p : EventPriority) (e : BusEvent)
    → (publish_maintenance b p e).trading_queue ≡ b.trading_queue
unfolding publish_maintenance retain_maintenance put_maintenance mirror
publish_maintenance-trading_queue b p e = ground arith

publish_persistence-trading_queue :
    (b : EventBus) (p : EventPriority) (e : BusEvent)
    → (publish_persistence b p e).trading_queue ≡ b.trading_queue
unfolding publish_persistence retain_persistence put_persistence mirror
publish_persistence-trading_queue b p e = ground arith

publish_on-low_priority :
    (lane : QueueLane) (b : EventBus) (p : EventPriority) (e : BusEvent)
    → lane ≢ trading
    → Finishes (λ c. c.trading_queue ≡ b.trading_queue) (publish_on lane b p e)
unfolding publish_on
publish_on-low_priority trading b p e low = elim (low refl) [ ]
publish_on-low_priority maintenance b p e low = publish_maintenance-trading_queue b p e
publish_on-low_priority persistence b p e low = publish_persistence-trading_queue b p e

-- A publication of a priority below P1 never waits, however full the lanes are, and leaves the
-- trading queue as it was: the low lanes cannot block the trading lane.
pub publish-low_priority :
    (b : EventBus) (p : EventPriority) (e : BusEvent)
    → normalize_priority p ≢ trading
    → Finishes (λ c. c.trading_queue ≡ b.trading_queue) (publish b p e)
unfolding publish
publish-low_priority b p e low = publish_on-low_priority (normalize_priority p) b p e low

abbrev pub sent : EventBus → EventPriority → BusEvent → List (ℤ × BusEvent)
sent b p e = if b.sink_bound then b.mirrored ++ (outbox_priority p, e) ∷ [] else b.mirrored

-- The sink has the event once, or not yet while the put waits.
abbrev pub Mirrors : EventBus → EventPriority → BusEvent → Published → Type 0
Mirrors b p e (finished c) = c.mirrored ≡ sent b p e
Mirrors b p e (waiting c n) = c.mirrored ≡ b.mirrored

put_trading-Mirrors :
    (b : EventBus) (p : EventPriority) (n : ℕ) (e : BusEvent) → Mirrors b p e (put_trading b p n e)
unfolding put_trading mirror
put_trading-Mirrors b p n e = ground arith

publish_on-Mirrors :
    (lane : QueueLane) (b : EventBus) (p : EventPriority) (e : BusEvent)
    → Mirrors b p e (publish_on lane b p e)
unfolding publish_on publish_maintenance publish_persistence put_maintenance put_persistence
    retain_maintenance retain_persistence mirror
publish_on-Mirrors trading b p e =
    put_trading-Mirrors (record b { sequence = suc b.sequence }) p b.sequence e
publish_on-Mirrors maintenance b p e = ground arith
publish_on-Mirrors persistence b p e = ground arith

-- A publication that finishes has called the sink once, with the event and the number of its
-- priority, when a sink is bound, and not at all when none is; one that waits has not called it yet.
pub publish-Mirrors :
    (b : EventBus) (p : EventPriority) (e : BusEvent) → Mirrors b p e (publish b p e)
unfolding publish
publish-Mirrors b p e = publish_on-Mirrors (normalize_priority p) b p e

retain_in-newest :
    (capacity : ℕ) (d : Dict String BusEvent) (e : BusEvent)
    → lookup (event_identity e) (retain_in capacity d e) ≡ some e
unfolding retain_in
retain_in-newest capacity d e = ground (
  arith,
  lookup-insert_self (event_identity e) e d,
  lookup-insert_self (event_identity e) e (drop_first d),
)

-- An event that a low lane takes stands at the end of the queue, or as the one retained under its
-- key.
abbrev pub Kept : EventBus → Queue → Queue → Dict String BusEvent → BusEvent → Type 0
Kept b before after retained e =
    (after ≡ before ++ (b.sequence, e) ∷ []) ⊎ (lookup (event_identity e) retained ≡ some e)

-- A maintenance event is never dropped when it is published: it stands at the end of the queue, or
-- it is the event that is retained under its key, whatever was retained under that key before.
pub publish_maintenance-Kept :
    (b : EventBus) (p : EventPriority) (e : BusEvent)
    → Kept b b.maintenance_queue
        (publish_maintenance b p e).maintenance_queue
        (publish_maintenance b p e).maintenance_retained
        e
unfolding publish_maintenance put_maintenance retain_maintenance mirror
publish_maintenance-Kept b p e =
    ground (arith, retain_in-newest b.retained_capacity b.maintenance_retained e)

-- What becomes of a persistence event: without a sink it is kept as a maintenance event is, and with
-- one bound neither the queue nor the retained events change.
abbrev pub Persisted : EventBus → Bool → EventBus → BusEvent → Type 0
Persisted b false c e = Kept b b.persistence_queue c.persistence_queue c.persistence_retained e
Persisted b true c e =
    (c.persistence_queue ≡ b.persistence_queue) × (c.persistence_retained ≡ b.persistence_retained)

unbound_persistence-Kept :
    (b : EventBus) (p : EventPriority) (e : BusEvent)
    → b.sink_bound ≡ false
    → Persisted b false (publish_persistence b p e) e
unfolding publish_persistence put_persistence retain_persistence mirror
unbound_persistence-Kept b p e free =
    ground (arith, retain_in-newest b.retained_capacity b.persistence_retained e)

bound_persistence-same :
    (b : EventBus) (p : EventPriority) (e : BusEvent)
    → b.sink_bound ≡ true
    → Persisted b true (publish_persistence b p e) e
unfolding publish_persistence mirror
bound_persistence-same b p e bound = ground arith

-- A persistence event is not dropped either while no sink is bound: it stands at the end of its
-- queue, or it is the one retained under its key. With a sink bound, neither the queue nor the
-- retained events change.
pub publish_persistence-Persisted :
    (b : EventBus) (p : EventPriority) (e : BusEvent)
    → Persisted b b.sink_bound (publish_persistence b p e) e
publish_persistence-Persisted b p e = elim (Bool-cases b.sink_bound) [
  | inl bound ↦
      subst (λ s. Persisted b s (publish_persistence b p e) e) (sym bound)
        (bound_persistence-same b p e bound)
  | inr free ↦
      subst (λ s. Persisted b s (publish_persistence b p e) e) (sym free)
        (unbound_persistence-Kept b p e free)
]

-- Retaining an event while the lane has room changes no other key: a full lane alone gives up an
-- older event.
pub retain_in-others :
    (capacity : ℕ) (d : Dict String BusEvent) (e : BusEvent) (k : String)
    → event_identity e ≢ k
    → length d < capacity
    → lookup k (retain_in capacity d e) ≡ lookup k d
unfolding retain_in
retain_in-others capacity d e k other room =
    ground (arith, lookup-insert_ne (event_identity e) k e d other)
