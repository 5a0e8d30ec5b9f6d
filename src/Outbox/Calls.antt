-- ===== src/Outbox/Calls.antt =====
-- infra/outbox/local_queue.py: what callers do with the outbox.
use fdv.Base.{
  suc, String, Bool, true, false, Option, none, some, List, [], ◌∷◌, ◌++◌, or_else, if◌then◌else◌,
  leb, string_eq,
}
use fdv.Base.Dict.{Dict, lookup, erase, values}
use fdv.Base.Integer.{leb_ℤ}
use fdv.Outbox.{
  OutboxEvent, merge_key, with_retry, ReadyEntry, LocalOutbox, is_queued, unqueue, has_capacity,
  unmerge, store_pending, entry_leb, store_retained,
}

-- A put into the ready queue: the number is drawn in any case, and the event goes in if there is room.
abbrev pub push_ready : LocalOutbox → OutboxEvent → LocalOutbox
push_ready s e = record s {
  sequence = suc s.sequence;
  ready = s.ready ++ (e.priority, s.sequence, e.event_id) ∷ [];
}

-- `_queued_event_ids.add`
abbrev pub mark_queued : LocalOutbox → String → LocalOutbox
mark_queued s id = record s {
  queued_event_ids = if is_queued s id then s.queued_event_ids else id ∷ s.queued_event_ids;
}

-- `_enqueue_ready`
unfoldable pub enqueue_ready : LocalOutbox → OutboxEvent → Bool × LocalOutbox
unfolding has_capacity
enqueue_ready s e =
    if has_capacity s
    then (true, mark_queued (push_ready s e) e.event_id)
    else (false, record s { sequence = suc s.sequence })

-- `sorted(items, key=...)`, by insertion; it is stable.
unfoldable pub insert_sorted :
    String × OutboxEvent → Dict String OutboxEvent → Dict String OutboxEvent
insert_sorted x [] = x ∷ []
insert_sorted x (y ∷ ys) =
    let rest = insert_sorted x ys in if entry_leb x y then x ∷ y ∷ ys else y ∷ rest

unfoldable pub sorted_entries : Dict String OutboxEvent → Dict String OutboxEvent
unfolding insert_sorted entry_leb
sorted_entries [] = []
sorted_entries (x ∷ xs) = insert_sorted x (sorted_entries xs)

abbrev pub forget_retained : String → Bool × LocalOutbox → LocalOutbox
forget_retained id (true, s) = record s { retained = erase id s.retained }
forget_retained id (false, s) = s

-- The loop of `_promote_retained_best_effort`.
unfoldable pub promote : LocalOutbox → Dict String OutboxEvent → LocalOutbox
unfolding enqueue_ready
promote s [] = s
promote s ((id, e) ∷ rest) =
    promote (if is_queued s id then s else forget_retained id (enqueue_ready s e)) rest

unfoldable pub promote_retained : LocalOutbox → LocalOutbox
unfolding promote sorted_entries
promote_retained s = promote s (sorted_entries s.retained)

-- `self._events_by_id.get(id) or self._retained.get(id)`
abbrev pub current_of : LocalOutbox → String → Option OutboxEvent
current_of s id = or_else (lookup id s.events_by_id) (lookup id s.retained)

-- The event that a merge key leads to.
abbrev pub mergeable : LocalOutbox → Option String → Option OutboxEvent
mergeable s none = none
mergeable s (some k) = elim (lookup k s.merge_index) [ none ↦ none | some id ↦ current_of s id ]

abbrev pub merged : OutboxEvent → OutboxEvent → OutboxEvent
merged current e = record e {
  event_id = current.event_id;
  created_at = current.created_at;
  retry_count = current.retry_count;
  priority = if leb_ℤ current.priority e.priority then current.priority else e.priority;
}

-- An event that is queued is stored as pending, and any other as retained.
unfoldable pub store : LocalOutbox → OutboxEvent → LocalOutbox
unfolding store_pending store_retained
store s e = if is_queued s e.event_id then store_pending s e else store_retained s e

abbrev pub pending_or_retained : OutboxEvent → Bool × LocalOutbox → LocalOutbox
pending_or_retained e (true, s) = store_pending s e
pending_or_retained e (false, s) = store_retained s e

-- The ends of `enqueue` and `put_nowait` for an event that merges with none.
unfoldable pub enqueue_new : LocalOutbox → OutboxEvent → LocalOutbox
unfolding has_capacity enqueue_ready store_pending store_retained
enqueue_new s e =
    if has_capacity s then pending_or_retained e (enqueue_ready s e) else store_retained s e

unfoldable pub put_new : LocalOutbox → OutboxEvent → LocalOutbox
unfolding has_capacity store_pending store_retained
put_new s e = if has_capacity s then store_pending (push_ready s e) e else store_retained s e

unfoldable pub enqueue_with : LocalOutbox → OutboxEvent → Option OutboxEvent → LocalOutbox
unfolding store enqueue_new
enqueue_with s e none = enqueue_new s e
enqueue_with s e (some current) = store s (merged current e)

-- `enqueue` and `put`
unfoldable pub enqueue : LocalOutbox → OutboxEvent → LocalOutbox
unfolding enqueue_with merge_key
enqueue s e = enqueue_with s e (mergeable s (merge_key e))

unfoldable pub put_with : LocalOutbox → OutboxEvent → Option OutboxEvent → LocalOutbox
unfolding store put_new
put_with s e none = put_new s e
put_with s e (some current) = store s (merged current e)

-- `put_nowait`, which does not note the event as queued.
unfoldable pub put_nowait : LocalOutbox → OutboxEvent → LocalOutbox
unfolding put_with merge_key
put_nowait s e = put_with s e (mergeable s (merge_key e))

-- The order of the ready queue: by priority, then by number, and numbers differ.
unfoldable pub ready_leb : ReadyEntry → ReadyEntry → Bool
ready_leb (p, n, a) (q, m, b) = if leb_ℤ q p then (if leb_ℤ p q then leb n m else false) else true

abbrev pub keep_least :
    ReadyEntry → ReadyEntry × List ReadyEntry → List ReadyEntry → ReadyEntry × List ReadyEntry
keep_least x (least, rest) all = if ready_leb x least then (x, all) else (least, x ∷ rest)

-- The least entry, and the others.
unfoldable pub take_least : ReadyEntry → List ReadyEntry → ReadyEntry × List ReadyEntry
unfolding ready_leb
take_least x [] = (x, [])
take_least x (y ∷ ys) = keep_least x (take_least y ys) (y ∷ ys)

-- One round of `get`: it serves an event, or passes over an entry whose event is gone, or waits.
pub data Round : Type 0 where
  served : OutboxEvent → LocalOutbox → Round
  passed : LocalOutbox → Round
  waits : LocalOutbox → Round

abbrev pub found_round : LocalOutbox → Option OutboxEvent → Round
found_round t none = passed t
found_round t (some e) = served e t

unfoldable pub serve : LocalOutbox → ReadyEntry × List ReadyEntry → Round
serve s ((p, n, id), rest) =
    found_round (record s { ready = rest; queued_event_ids = unqueue id s.queued_event_ids })
      (lookup id s.events_by_id)

unfoldable pub take_ready : LocalOutbox → List ReadyEntry → Round
unfolding take_least serve
take_ready s [] = waits s
take_ready s (x ∷ xs) = serve s (take_least x xs)

unfoldable pub get_round : LocalOutbox → Round
unfolding take_ready promote_retained
get_round s = let t = promote_retained s in take_ready t t.ready

abbrev pub merge_of : Option OutboxEvent → Option String
merge_of none = none
merge_of (some e) = merge_key e

unfoldable pub ack : LocalOutbox → String → LocalOutbox
unfolding promote_retained merge_key
ack s id = promote_retained (record s {
  events_by_id = erase id s.events_by_id;
  queued_event_ids = unqueue id s.queued_event_ids;
  retained = erase id s.retained;
  merge_index = unmerge id (merge_of (lookup id s.events_by_id)) s.merge_index;
})

abbrev pub forget_or_retain : String → OutboxEvent → Bool × LocalOutbox → LocalOutbox
forget_or_retain id e (true, s) = record s { retained = erase id s.retained }
forget_or_retain id e (false, s) = store_retained s e

unfoldable pub retry_with : LocalOutbox → String → OutboxEvent → LocalOutbox
unfolding store enqueue_ready store_pending store_retained
retry_with s id retried =
    if is_queued s id
    then store_pending s retried
    else forget_or_retain id retried (enqueue_ready (store_retained s retried) retried)

unfoldable pub retry_found :
    LocalOutbox → String → Option String → Option OutboxEvent → Option (OutboxEvent × LocalOutbox)
unfolding retry_with
retry_found s id last_error none = none
retry_found s id last_error (some current) =
    let retried = with_retry current last_error in some (retried, retry_with s id retried)

-- `retry`; `none` is the `KeyError` for an event that is not known.
unfoldable pub retry : LocalOutbox → String → Option String → Option (OutboxEvent × LocalOutbox)
unfolding retry_found
retry s id last_error = retry_found s id last_error (current_of s id)

unfoldable pub bury : LocalOutbox → String → OutboxEvent → LocalOutbox
unfolding merge_key
bury s id dead = record s {
  queued_event_ids = unqueue id s.queued_event_ids;
  merge_index = unmerge id (merge_key dead) s.merge_index;
  dead_letters = s.dead_letters ++ dead ∷ [];
}

-- What is held under the id, and what is retained.
unfoldable pub dead_letter_found :
    LocalOutbox
    → String
    → Option String
    → Option OutboxEvent
    → Option OutboxEvent
    → Option (OutboxEvent × LocalOutbox)
unfolding bury
dead_letter_found s id last_error (some e) kept =
    let dead = with_retry e last_error in
    some (dead, bury (record s { events_by_id = erase id s.events_by_id }) id dead)
dead_letter_found s id last_error none (some e) =
    let dead = with_retry e last_error in
    some (dead, bury (record s { retained = erase id s.retained }) id dead)
dead_letter_found s id last_error none none = none

-- `dead_letter`: the retained event is taken out only where no event is held under the id.
unfoldable pub dead_letter :
    LocalOutbox → String → Option String → Option (OutboxEvent × LocalOutbox)
unfolding dead_letter_found
dead_letter s id last_error =
    dead_letter_found s id last_error (lookup id s.events_by_id) (lookup id s.retained)

abbrev pub pending_events : LocalOutbox → List OutboxEvent
pending_events s = values (sorted_entries s.events_by_id)
