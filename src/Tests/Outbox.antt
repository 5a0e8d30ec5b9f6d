-- ===== src/Tests/Outbox.antt =====
-- The outbox after a few calls.
use fdv.Base.{ℕ, ◌≡◌, refl, String, true, false, none, some, [], ◌∷◌, string_eq, arith, map}
use fdv.Base.Dict.{lookup, insert, erase}
use fdv.Base.Integer.{ℤ, pos}
use fdv.Outbox.{
  OutboxEvent, is_critical, LocalOutbox, new_outbox, merge_key, has_capacity, store_pending,
  store_retained, enforce_retained_capacity, evict_rounds,
}
use fdv.Outbox.Calls.{
  promote_retained, get_round, put_nowait, put_with, put_new, store, promote, sorted_entries,
  insert_sorted, enqueue_ready,
}
use fdv.Outbox.Steps.{enqueuing, putting, outbox_step}
use fdv.Outbox.Eviction.{Settled, enforce_retained_capacity-Settled}
use fdv.Outbox.Critical.{
  OutboxValid, new_outbox-OutboxValid, outbox_step-OutboxValid, outbox_step-HoldsCritical,
}
use fdv.Outbox.Guards.{HoldsCritical}
use fdv.Outbox.Service.{RoundOf, get_round-RoundOf}

-- An event of a market, by its id, its priority and the time it was made at.
abbrev event_of : String → ℤ → ℕ → OutboxEvent
event_of id priority created_at = record {
  trace_id = "t1";
  event_type = "market_discovered";
  idempotency_key = id;
  event_id = id;
  market_slug = some "election";
  event_slug = none;
  condition_id = some "c1";
  token_id = none;
  reason = none;
  created_at = created_at;
  priority = priority;
  retry_count = 0;
  last_error = none;
  raw_response_summary = none;
  payload = "";
}

abbrev order_event : OutboxEvent
order_event = event_of "o" (pos 0) 1

abbrev snapshot_event : OutboxEvent
snapshot_event = event_of "a" (pos 3) 2

-- One ready place, taken by a critical event.
abbrev full : LocalOutbox
full = outbox_step (putting order_event) (new_outbox 1 (some 1))

full-OutboxValid : OutboxValid full
full-OutboxValid =
    outbox_step-OutboxValid (putting order_event) (new_outbox 1 (some 1))
      (new_outbox-OutboxValid 1 (some 1))

outbox_step-OutboxValid_example : OutboxValid (outbox_step (putting snapshot_event) full)
outbox_step-OutboxValid_example =
    outbox_step-OutboxValid (putting snapshot_event) full full-OutboxValid

full-HoldsCritical : HoldsCritical "o" full.events_by_id
unfolding outbox_step put_nowait put_with put_new merge_key has_capacity store_pending insert lookup
    is_critical
full-HoldsCritical = (order_event, refl, refl)

outbox_step-HoldsCritical_example :
    HoldsCritical "o" (outbox_step (enqueuing snapshot_event) full).events_by_id
outbox_step-HoldsCritical_example =
    outbox_step-HoldsCritical (enqueuing snapshot_event) full "o" full-OutboxValid
      (λ e. let bad : false ≡ true = (string_eq.same_iff "a" "o").1 e in cc) full-HoldsCritical

-- Two retained events, where there is room for one.
abbrev crowded : LocalOutbox
crowded = record full { retained = ("a", snapshot_event) ∷ ("b", event_of "b" (pos 2) 5) ∷ [] }

enforce_retained_capacity-Settled_example : Settled crowded (enforce_retained_capacity crowded)
unfolding lookup outbox_step put_nowait put_with put_new merge_key has_capacity store_pending
enforce_retained_capacity-Settled_example =
    enforce_retained_capacity-Settled crowded (refl, (refl, tt)) (omega arith)

get_round-RoundOf_example : RoundOf (promote_retained full) (get_round full)
get_round-RoundOf_example = get_round-RoundOf full

-- An event that `put_nowait` queued and the event that merges with it stand in the ready queue twice,
-- under one id, after the next promotion.
queued_twice :
    map
      (λ x. x.2)
      (promote_retained
        (put_nowait (put_nowait (new_outbox 4 none) snapshot_event) (event_of "b" (pos 3) 9))).ready
    ≡ "a" ∷ "a" ∷ []
unfolding put_nowait put_with put_new merge_key has_capacity store_pending store store_retained
    enforce_retained_capacity evict_rounds promote_retained promote sorted_entries insert_sorted
    enqueue_ready insert lookup erase
queued_twice = refl
