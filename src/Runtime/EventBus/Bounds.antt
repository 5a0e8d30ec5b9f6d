-- ===== src/Runtime/EventBus/Bounds.antt =====
-- The bus stays within its capacities, and each retained key stands once.
use fdv.Base.{
  ℕ, zero, suc, ◌-◌, ◌≤◌, ◌<◌, ◌≡◌, String, true, false, Option, none, some, [], ◌∷◌, length,
  length-append, arith, ltb, leb, inl, inr, Bool-cases, Option-cases, is_none, if◌then◌else◌,
  string_eq,
}
use fdv.Base.Dict.{
  Dict, lookup, insert, Distinct, insert-Distinct, length-insert_old, length-insert_new,
}
use fdv.Runtime.EventBus.{
  BusEvent, Queue, EventBus, event_identity, new_bus, capacity_or, max_ℕ, drop_first, retain_in,
  enqueue,
}
use fdv.Runtime.EventBus.Consume.{
  flush_lane, flush_maintenance, flush_persistence, flush_lanes, flush_retained,
}

-- A low lane: its queue, and the events that it retains, each under its own key.
pub record LowLane (capacity room : ℕ) (queue : Queue) (retained : Dict String BusEvent)
    : Type 0 where
  pub serves : 0 < capacity
  pub queue_fits : length queue ≤ capacity
  pub retained_fits : length retained ≤ room
  pub distinct : Distinct retained

abbrev pub Bounded : EventBus → Type 0
Bounded b =
    (length b.trading_queue ≤ b.trading_capacity)
    × LowLane b.maintenance_capacity b.retained_capacity b.maintenance_queue b.maintenance_retained
    × LowLane b.persistence_capacity b.retained_capacity b.persistence_queue b.persistence_retained
    × (0 < b.retained_capacity)

capacity_or_pos : (x : Option ℕ) (d : ℕ) → 0 < d → 0 < capacity_or x d
capacity_or_pos none d h = h
capacity_or_pos (some zero) d h = h
capacity_or_pos (some (suc n)) d h = omega arith

max_ℕ_pos : (a b : ℕ) → 0 < a → 0 < max_ℕ a b
max_ℕ_pos a b h = ground arith

empty_lane : (capacity room : ℕ) → 0 < capacity → LowLane capacity room [] []
empty_lane capacity room h = record {
  serves = h;
  queue_fits = omega arith;
  retained_fits = omega arith;
  distinct = tt;
}

pub new_bus-Bounded : (size t m p r : Option ℕ) → Bounded (new_bus size t m p r)
unfolding new_bus
new_bus-Bounded size t m p r = (
  omega arith,
  empty_lane _ _ (capacity_or_pos m _ (capacity_or_pos size 1000 (omega arith))),
  empty_lane _ _ (capacity_or_pos p _ (capacity_or_pos size 5000 (omega arith))),
  capacity_or_pos r _ (
      max_ℕ_pos _ _
        (max_ℕ_pos _ _ (capacity_or_pos t _ (capacity_or_pos size 1000 (omega arith))))),
)

drop_first-Distinct : (d : Dict String BusEvent) → Distinct d → Distinct (drop_first d)
drop_first-Distinct [] h = h
drop_first-Distinct (x ∷ d) h = h.1

lookup-drop_first :
    (k : String) (d : Dict String BusEvent) → lookup k d ≡ none → lookup k (drop_first d) ≡ none
unfolding lookup
lookup-drop_first k [] h = h
lookup-drop_first k ((j, e) ∷ d) h = ground arith

length-drop_first : (d : Dict String BusEvent) → length (drop_first d) ≡ length d - 1
length-drop_first [] = omega arith
length-drop_first (x ∷ d) = omega arith

insert_room :
    (capacity : ℕ) (d : Dict String BusEvent) (e : BusEvent)
    → lookup (event_identity e) d ≡ none
    → 0 < capacity
    → length d ≤ capacity
    → length (insert (event_identity e) e (if leb capacity (length d) then drop_first d else d))
      ≤ capacity
insert_room capacity d e new h k = ground (
  arith,
  length-insert_new (event_identity e) e d new,
  length-insert_new (event_identity e) e (drop_first d)
      (lookup-drop_first (event_identity e) d new),
  length-drop_first d,
)

pub retain_in-fits :
    (capacity : ℕ) (d : Dict String BusEvent) (e : BusEvent)
    → 0 < capacity
    → length d ≤ capacity
    → length (retain_in capacity d e) ≤ capacity
unfolding retain_in
retain_in-fits capacity d e h k = elim (Option-cases (lookup (event_identity e) d)) [
  | inl new ↦ rw new (insert_room capacity d e new h k)
  | inr (old, known) ↦ rw known (rw (length-insert_old (event_identity e) e d known) k)
]

pub retain_in-Distinct :
    (capacity : ℕ) (d : Dict String BusEvent) (e : BusEvent)
    → Distinct d
    → Distinct (retain_in capacity d e)
unfolding retain_in
retain_in-Distinct capacity d e h = elim (Bool-cases (is_none (lookup (event_identity e) d))) [
  | inr known ↦ rw known (insert-Distinct (event_identity e) e d h)
  | inl new ↦
      rw new
        (elim (leb capacity (length d))
          as (λ b. Distinct (insert (event_identity e) e (if b then drop_first d else d))) [
            | true ↦ insert-Distinct (event_identity e) e _ (drop_first-Distinct d h)
            | false ↦ insert-Distinct (event_identity e) e d h
          ])
]

pub flush_lane-fits :
    (capacity n : ℕ) (q : Queue) (d : Dict String BusEvent)
    → length q ≤ capacity
    → length (flush_lane capacity n q d).queue ≤ capacity
unfolding flush_lane
flush_lane-fits capacity n q [] h = h
flush_lane-fits capacity n q ((k, e) ∷ rest) h =
    ground
      (arith, length-append q ((n, e) ∷ []), flush_lane-fits capacity (suc n) (enqueue q n e) rest)

pub flush_lane-retained :
    (capacity n : ℕ) (q : Queue) (d : Dict String BusEvent)
    → length (flush_lane capacity n q d).retained ≤ length d
unfolding flush_lane
flush_lane-retained capacity n q [] = omega arith
flush_lane-retained capacity n q ((k, e) ∷ rest) =
    ground (arith, flush_lane-retained capacity (suc n) (enqueue q n e) rest)

pub flush_lane-Distinct :
    (capacity n : ℕ) (q : Queue) (d : Dict String BusEvent)
    → Distinct d
    → Distinct (flush_lane capacity n q d).retained
unfolding flush_lane
flush_lane-Distinct capacity n q [] h = tt
flush_lane-Distinct capacity n q ((k, e) ∷ rest) h = elim (Bool-cases (ltb (length q) capacity)) [
  | inl room ↦ rw room (flush_lane-Distinct capacity (suc n) (enqueue q n e) rest h.1)
  | inr full ↦ rw full h
]

flush_lane-LowLane :
    (capacity room n : ℕ) (q : Queue) (d : Dict String BusEvent)
    → LowLane capacity room q d
    → LowLane capacity room (flush_lane capacity n q d).queue (flush_lane capacity n q d).retained
flush_lane-LowLane capacity room n q d h = record {
  serves = h.serves;
  queue_fits = flush_lane-fits capacity n q d h.queue_fits;
  retained_fits = omega (arith, flush_lane-retained capacity n q d, h.retained_fits);
  distinct = flush_lane-Distinct capacity n q d h.distinct;
}

pub flush_retained-Bounded : (b : EventBus) → Bounded b → Bounded (flush_retained b)
unfolding flush_retained flush_lanes flush_maintenance flush_persistence
flush_retained-Bounded b h =
    elim b.low_priority_paused as (λ p. Bounded (if p then b else flush_lanes b)) [
      | true ↦ h
      | false ↦ (
        h.0,
        flush_lane-LowLane _ _ b.sequence _ _ h.1,
        flush_lane-LowLane _ _ (flush_maintenance b).sequence _ _ h.2,
        h.3,
      )
    ]

pub retain_in-LowLane :
    (capacity room : ℕ) (q : Queue) (d : Dict String BusEvent) (e : BusEvent)
    → 0 < room
    → LowLane capacity room q d
    → LowLane capacity room q (retain_in room d e)
retain_in-LowLane capacity room q d e pos_room h = record {
  serves = h.serves;
  queue_fits = h.queue_fits;
  retained_fits = retain_in-fits room d e pos_room h.retained_fits;
  distinct = retain_in-Distinct room d e h.distinct;
}

pub enqueue-fits :
    (capacity n : ℕ) (q : Queue) (e : BusEvent)
    → ltb (length q) capacity ≡ true
    → length (enqueue q n e) ≤ capacity
enqueue-fits capacity n q e room = ground (arith, length-append q ((n, e) ∷ []))

pub enqueue-LowLane :
    (capacity room n : ℕ) (q : Queue) (d : Dict String BusEvent) (e : BusEvent)
    → ltb (length q) capacity ≡ true
    → LowLane capacity room q d
    → LowLane capacity room (enqueue q n e) d
enqueue-LowLane capacity room n q d e has h = record {
  serves = h.serves;
  queue_fits = enqueue-fits capacity n q e has;
  retained_fits = h.retained_fits;
  distinct = h.distinct;
}
