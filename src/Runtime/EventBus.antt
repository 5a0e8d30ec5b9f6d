-- ===== src/Runtime/EventBus.antt =====
-- src/polymarket_trader/runtime/event_bus.py: the bus between the workers. One event loop runs it, so
-- a method is one step up to the point where it waits. A priority given as text is taken as the
-- number that it spells.
pub mod Consume
pub mod Calls
pub mod Bounds
pub mod Steps
pub mod Delivery
pub mod Publishing
use fdv.Base.{
  ℕ, zero, suc, ◌+◌, String, Bool, true, false, ◌&&◌, not, Option, none, some, List, [], ◌∷◌, ◌++◌,
  length, get_or, is_none, text_or, text_or?, ltb, leb, nat_beq, string_eq, if◌then◌else◌,
}
use fdv.Base.Dict.{Dict, lookup, insert}
use fdv.Base.Integer.{ℤ, pos, negsuc, leb_ℤ}

pub data QueueLane : Type 0 where
  trading maintenance persistence : QueueLane

pub data EventPriority : Type 0 where
  p0 p1 p2 p3 : EventPriority
  number : ℤ → EventPriority

-- `_normalize_outbox_priority`
abbrev pub outbox_priority : EventPriority → ℤ
outbox_priority p0 = pos 0
outbox_priority p1 = pos 1
outbox_priority p2 = pos 2
outbox_priority p3 = pos 3
outbox_priority (number n) = n

-- `_normalize_priority`
unfoldable pub normalize_priority : EventPriority → QueueLane
normalize_priority p0 = trading
normalize_priority p1 = trading
normalize_priority p2 = maintenance
normalize_priority p3 = persistence
normalize_priority (number n) =
    if leb_ℤ n (pos 1) then trading else if leb_ℤ n (pos 2) then maintenance else persistence

-- An event by the attributes that the bus reads; `object_name` is the text `event:<id>`.
pub record BusEvent : Type 0 where
  pub merge_key : Option String
  pub dedupe_key : Option String
  pub idempotency_key : Option String
  pub event_id : Option String
  pub trace_id : Option String
  pub object_name : String

-- `_event_identity`
unfoldable pub event_identity : BusEvent → String
event_identity e =
    text_or
      (text_or? e.merge_key
        (text_or? e.dedupe_key (text_or? e.idempotency_key (text_or? e.event_id e.trace_id))))
      e.object_name

-- A queue holds events with the numbers that `_sequence` gave out.
abbrev pub Queue : Type 0
Queue = List (ℕ × BusEvent)

pub record EventBus : Type 0 where
  pub trading_capacity : ℕ
  pub maintenance_capacity : ℕ
  pub persistence_capacity : ℕ
  pub retained_capacity : ℕ
  pub sequence : ℕ
  pub trading_queue : Queue
  pub maintenance_queue : Queue
  pub persistence_queue : Queue
  pub maintenance_retained : Dict String BusEvent
  pub persistence_retained : Dict String BusEvent
  pub low_priority_paused : Bool
  pub wake : Bool
  pub sink_bound : Bool
  -- The calls of the persistence sink so far; what they raise is swallowed.
  pub mirrored : List (ℤ × BusEvent)

-- `x or d` for a capacity: absent and 0 give the default.
abbrev pub capacity_or : Option ℕ → ℕ → ℕ
capacity_or none d = d
capacity_or (some zero) d = d
capacity_or (some (suc n)) d = suc n

abbrev pub max_ℕ : ℕ → ℕ → ℕ
max_ℕ a b = if ltb a b then b else a

-- `__init__`; a `max_size` stands in for the lane capacities that are not given. No capacity is
-- negative.
unfoldable pub new_bus : Option ℕ → Option ℕ → Option ℕ → Option ℕ → Option ℕ → EventBus
new_bus max_size trading_size maintenance_size persistence_size retained_size =
    let t = capacity_or trading_size (capacity_or max_size 1000) in
    let m = capacity_or maintenance_size (capacity_or max_size 1000) in
    let p = capacity_or persistence_size (capacity_or max_size 5000) in
    record {
      trading_capacity = t;
      maintenance_capacity = m;
      persistence_capacity = p;
      retained_capacity = capacity_or retained_size (max_ℕ (max_ℕ t m) p);
      sequence = 0;
      trading_queue = [];
      maintenance_queue = [];
      persistence_queue = [];
      maintenance_retained = [];
      persistence_retained = [];
      low_priority_paused = false;
      wake = false;
      sink_bound = false;
      mirrored = [];
    }

abbrev pub bind_persistence_sink : EventBus → Bool → EventBus
bind_persistence_sink b bound = record b { sink_bound = bound }

-- `_mirror_to_outbox`
unfoldable pub mirror : EventBus → EventPriority → BusEvent → EventBus
mirror b p e =
    if b.sink_bound then record b { mirrored = b.mirrored ++ (outbox_priority p, e) ∷ [] } else b

abbrev pub drop_first : Dict String BusEvent → Dict String BusEvent
drop_first [] = []
drop_first (x ∷ d) = d

-- `_retain` over one lane: an event with a known key takes its place; a new one goes to the end, and
-- pushes the oldest out where the lane is full.
unfoldable pub retain_in : ℕ → Dict String BusEvent → BusEvent → Dict String BusEvent
retain_in capacity d e =
    if is_none (lookup (event_identity e) d)
    then insert (event_identity e) e (if leb capacity (length d) then drop_first d else d)
    else insert (event_identity e) e d

-- A lane's queue with the event at its end, and the bus that retains it.
abbrev pub enqueue : Queue → ℕ → BusEvent → Queue
enqueue q n e = q ++ (n, e) ∷ []

unfoldable pub retain_maintenance : EventBus → BusEvent → EventBus
unfolding retain_in
retain_maintenance b e = record b {
  maintenance_retained = retain_in b.retained_capacity b.maintenance_retained e;
}

unfoldable pub retain_persistence : EventBus → BusEvent → EventBus
unfolding retain_in
retain_persistence b e = record b {
  persistence_retained = retain_in b.retained_capacity b.persistence_retained e;
}

abbrev pub awake : EventBus → EventBus
awake b = record b { wake = true }

-- A put that waits for room holds the number that it drew.
pub data Published : Type 0 where
  finished : EventBus → Published
  waiting : EventBus → ℕ → Published

-- The end of a `put` into the trading queue: with room the event goes in and is mirrored.
unfoldable pub put_trading : EventBus → EventPriority → ℕ → BusEvent → Published
unfolding mirror
put_trading b p n e =
    if ltb (length b.trading_queue) b.trading_capacity
    then finished (awake (mirror (record b { trading_queue = enqueue b.trading_queue n e }) p e))
    else waiting b n

-- `put_nowait` draws its number before it finds the queue full.
unfoldable pub put_maintenance : EventBus → BusEvent → EventBus
unfolding retain_maintenance
put_maintenance b e =
    if ltb (length b.maintenance_queue) b.maintenance_capacity
    then record b {
      sequence = suc b.sequence;
      maintenance_queue = enqueue b.maintenance_queue b.sequence e;
    }
    else retain_maintenance (record b { sequence = suc b.sequence }) e

unfoldable pub put_persistence : EventBus → BusEvent → EventBus
unfolding retain_persistence
put_persistence b e =
    if ltb (length b.persistence_queue) b.persistence_capacity
    then record b {
      sequence = suc b.sequence;
      persistence_queue = enqueue b.persistence_queue b.sequence e;
    }
    else retain_persistence (record b { sequence = suc b.sequence }) e

unfoldable pub publish_maintenance : EventBus → EventPriority → BusEvent → EventBus
unfolding put_maintenance mirror
publish_maintenance b p e =
    awake
      (mirror (if b.low_priority_paused then retain_maintenance b e else put_maintenance b e) p e)

unfoldable pub publish_persistence : EventBus → EventPriority → BusEvent → EventBus
unfolding put_persistence mirror
publish_persistence b p e =
    if b.sink_bound
    then mirror b p e
    else awake
        (mirror (if b.low_priority_paused then retain_persistence b e else put_persistence b e) p e)

unfoldable pub publish_on : QueueLane → EventBus → EventPriority → BusEvent → Published
unfolding put_trading publish_maintenance publish_persistence
publish_on trading b p e = put_trading (record b { sequence = suc b.sequence }) p b.sequence e
publish_on maintenance b p e = finished (publish_maintenance b p e)
publish_on persistence b p e = finished (publish_persistence b p e)

unfoldable pub publish : EventBus → EventPriority → BusEvent → Published
unfolding publish_on normalize_priority
publish b p e = publish_on (normalize_priority p) b p e
