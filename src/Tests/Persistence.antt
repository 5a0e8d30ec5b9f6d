-- ===== src/Tests/Persistence.antt =====
-- workers/persistence_worker.py: batches of a market, an order and a balance event.
use fdv.Base.{
  ◌≡◌, refl, ◌≢◌, ◌⊎◌, true, ◌+◌, String, none, some, List, [], ◌∷◌, length, All, string_eq, ◌==◌,
  if◌then◌else◌,
}
use fdv.Base.Integer.{ℤ, pos}
use fdv.Base.Dict.{lookup, insert}
use fdv.Outbox.{
  OutboxEvent, LocalOutbox, is_critical, new_outbox, merge_key, has_capacity, store_pending,
}
use fdv.Outbox.Calls.{put_nowait, put_with, put_new}
use fdv.Outbox.Steps.{putting, outbox_step}
use fdv.Outbox.Critical.{OutboxValid, new_outbox-OutboxValid, outbox_step-OutboxValid}
use fdv.Outbox.Guards.{HoldsCritical}
use fdv.Workers.Persistence.{
  PayloadParts, plan_records, plan_event, plan_events, build_planned_records, route_event,
  is_one_of, account_event_types, coalesce_low_priority,
}
use fdv.Workers.Persistence.Writing.{
  Repository, select_repository_method, count_all, succeed_one, write_one, write_singles,
  write_many, write_with, write_kind, write_items, write_kinds, write_batch,
}
use fdv.Workers.Persistence.Finishing.{
  begins_with, contains, says, is_retryable_error, acknowledged, retried, retry_or_dead_letter,
  outcome_of, persist_batch,
}
use fdv.Workers.Persistence.Saving.{In}
use fdv.Workers.Persistence.Acknowledged.{
  persist_batch-acknowledged_saved, account_event-unacknowledged,
}
use fdv.Workers.Persistence.Keeping.{AnyEvent, Settles, persist_batch-HoldsCritical}
use fdv.Workers.Persistence.Merging.{critical_of, coalesce_low_priority-critical}

abbrev event_with : String → String → ℤ → OutboxEvent
event_with id event_type priority = record {
  trace_id = "t1";
  event_type = event_type;
  idempotency_key = id;
  event_id = id;
  market_slug = some "election";
  event_slug = none;
  condition_id = some "c1";
  token_id = none;
  reason = none;
  created_at = 7;
  priority = priority;
  retry_count = 0;
  last_error = none;
  raw_response_summary = none;
  payload = "";
}

abbrev market_event : OutboxEvent
market_event = event_with "m" "market_discovered" (pos 3)

abbrev order_event : OutboxEvent
order_event = event_with "o" "order_submitted" (pos 0)

abbrev balance_event : OutboxEvent
balance_event = event_with "b" "balance_updated" (pos 0)

-- Each event has all that its type is routed to.
abbrev all_parts : OutboxEvent → PayloadParts
all_parts e = record {
  audit_record = "audit";
  allocation_records = [];
  market_record = some "market";
  account_record = "account";
  orderbook_record = none;
  order_record = some "order";
  fill_records = [];
  position_records = [];
  outbox_record = "outbox";
}

-- A repository that has each method and saves all it is given.
abbrev saves_all : Repository
saves_all = record { has = λ m. true; save = λ saved m ps. none }

-- One that cannot save a single order.
abbrev no_orders : Repository
no_orders = record {
  has = λ m. true;
  save = λ saved m ps. if m == "save_order" then some "connection lost" else none;
}

abbrev batch : List OutboxEvent
batch = market_event ∷ order_event ∷ balance_event ∷ []

persist_batch-acknowledged_saved_example :
    let plan = build_planned_records all_parts batch in
    let w = write_batch saves_all [] plan.planned in
    All
      (λ e.
        outcome_of 5 plan w e ≡ acknowledged
        → All (λ p. In p w.saved) (plan_records e (route_event all_parts e)))
      batch
persist_batch-acknowledged_saved_example =
    persist_batch-acknowledged_saved all_parts saves_all [] batch 5
      ((refl, (refl, tt)), ((refl, tt), (tt, tt)))

account_event-unacknowledged_example :
    let plan = build_planned_records all_parts batch in
    let w = write_batch saves_all [] plan.planned in
    All
      (λ e.
        is_one_of account_event_types e.event_type ≡ true → outcome_of 5 plan w e ≢ acknowledged)
      batch
account_event-unacknowledged_example =
    account_event-unacknowledged all_parts saves_all [] batch 5
      ((refl, (refl, tt)), ((refl, tt), (tt, tt)))

-- The outcomes of the three events with a repository that saves all.
market_acknowledged :
    let plan = build_planned_records all_parts batch in
    outcome_of 5 plan (write_batch saves_all [] plan.planned) market_event ≡ acknowledged
unfolding outcome_of build_planned_records plan_events plan_event route_event write_batch
    write_kinds write_items write_kind write_with write_many count_all write_singles write_one
    succeed_one select_repository_method insert lookup
market_acknowledged = refl

balance_retried :
    let plan = build_planned_records all_parts batch in
    outcome_of 5 plan (write_batch saves_all [] plan.planned) balance_event
    ≡ retried "persistence write incomplete"
unfolding outcome_of retry_or_dead_letter is_retryable_error says contains begins_with
    build_planned_records plan_events plan_event route_event write_batch write_kinds write_items
    write_kind write_with write_many count_all write_singles write_one succeed_one
    select_repository_method insert lookup
balance_retried = refl

-- The outbox holds the order event.
abbrev holding_order : LocalOutbox
holding_order = outbox_step (putting order_event) (new_outbox 4 (some 4))

holding_order-OutboxValid : OutboxValid holding_order
holding_order-OutboxValid =
    outbox_step-OutboxValid (putting order_event) (new_outbox 4 (some 4))
      (new_outbox-OutboxValid 4 (some 4))

holding_order-HoldsCritical : HoldsCritical "o" holding_order.events_by_id
unfolding outbox_step put_nowait put_with put_new merge_key has_capacity store_pending insert lookup
    is_critical
holding_order-HoldsCritical = (order_event, refl, refl)

persist_batch-HoldsCritical_example :
    let after = (persist_batch all_parts no_orders 5 [] holding_order batch).1.outbox in
    OutboxValid after
    × (HoldsCritical "o" after.events_by_id
        ⊎ AnyEvent (Settles all_parts no_orders 5 [] holding_order batch "o") batch)
persist_batch-HoldsCritical_example =
    persist_batch-HoldsCritical all_parts no_orders 5 [] holding_order batch "o"
      ((refl, (refl, tt)), ((refl, tt), (tt, tt))) holding_order-OutboxValid
      holding_order-HoldsCritical

coalesce_low_priority-critical_example :
    let (kept, merged) = coalesce_low_priority (market_event ∷ batch) in
    (critical_of kept ≡ critical_of (market_event ∷ batch)) × (length kept + merged ≡ 4)
coalesce_low_priority-critical_example = coalesce_low_priority-critical (market_event ∷ batch)
