-- ===== src/Outbox.antt =====
-- src/polymarket_trader/infra/outbox/local_queue.py and the `OutboxEvent` of domain/events.py: the
-- queue of events that wait for the database. One event loop runs it. An event is made with its
-- summary cut to the limit, so `_prepare_event` finds nothing to cut, and a put that finds the ready
-- queue full runs into its timeout: what other tasks do while it waits are no steps of it.
pub mod Calls
pub mod Eviction
pub mod Sound
pub mod Steps
pub mod Guards
pub mod Queueing
pub mod Critical
pub mod Service
use Prim.Native.Nat.{Ordering}
use Prim.Native.String.{compare as compare_text}
use fdv.Base.{
  ℕ, zero, suc, String, str_append, Bool, true, false, ◌&&◌, not, Option, none, some, List, [], ◌∷◌,
  ◌++◌, length, filter_by, any_by, or_else, text_or, ltb, leb, nat_beq, ◌==◌, ◌!=◌, string_eq,
  same_text?, if◌then◌else◌,
}
use fdv.Base.Dict.{Dict, lookup, insert, erase}
use fdv.Base.Integer.{ℤ, pos, leb_ℤ}
use fdv.Domain.Order.{Time}

-- The payload, which the outbox only carries, stands as its text.
pub record OutboxEvent : Type 0 where
  pub trace_id : String
  pub event_type : String
  pub idempotency_key : String
  pub event_id : String
  pub market_slug : Option String
  pub event_slug : Option String
  pub condition_id : Option String
  pub token_id : Option String
  pub reason : Option String
  pub created_at : Time
  pub priority : ℤ
  pub retry_count : ℕ
  pub last_error : Option String
  pub raw_response_summary : Option String
  pub payload : String

unfoldable pub is_critical : OutboxEvent → Bool
is_critical e = leb_ℤ e.priority (pos 1)

-- `text or ""`
abbrev pub text_of : Option String → String
text_of none = ""
text_of (some s) = s

abbrev pub is_blank : Option String → Bool
is_blank o = text_of o == ""

-- `"|".join(parts)`
abbrev pub merge_text : OutboxEvent → String
merge_text e = str_append e.event_type (
    str_append "|" (
      str_append (text_of e.market_slug) (
        str_append "|"
          (str_append (text_of e.condition_id) (str_append "|" (text_of e.token_id))))))

unfoldable pub merge_key : OutboxEvent → Option String
merge_key e =
    if leb_ℤ (pos 2) e.priority
    then (if is_blank e.market_slug && (is_blank e.condition_id && is_blank e.token_id)
        then none
        else some (merge_text e))
    else none

-- `with_retry`, and `with_dead_letter`, which is the same.
abbrev pub with_retry : OutboxEvent → Option String → OutboxEvent
with_retry e last_error = record e {
  retry_count = suc e.retry_count;
  last_error = or_else last_error e.last_error;
}

-- An entry of the ready queue: priority, number, event id.
abbrev pub ReadyEntry : Type 0
ReadyEntry = ℤ × ℕ × String

-- A size of 0 is no bound, as sizes below it are in the source.
pub record LocalOutbox : Type 0 where
  pub max_size : ℕ
  pub retained_max_size : ℕ
  pub sequence : ℕ
  pub ready : List ReadyEntry
  pub events_by_id : Dict String OutboxEvent
  pub queued_event_ids : List String
  pub merge_index : Dict String String
  pub retained : Dict String OutboxEvent
  pub dead_letters : List OutboxEvent

abbrev pub new_outbox : ℕ → Option ℕ → LocalOutbox
new_outbox max_size retained_max_size = record {
  max_size = max_size;
  retained_max_size = elim retained_max_size [ none ↦ max_size | some n ↦ n ];
  sequence = 0;
  ready = [];
  events_by_id = [];
  queued_event_ids = [];
  merge_index = [];
  retained = [];
  dead_letters = [];
}

abbrev pub is_queued : LocalOutbox → String → Bool
is_queued s id = any_by (λ x. x == id) s.queued_event_ids

-- `discard`
abbrev pub unqueue : String → List String → List String
unqueue id = filter_by (λ x. x != id)

-- `_has_capacity`
unfoldable pub has_capacity : LocalOutbox → Bool
has_capacity s = if ltb 0 s.max_size then ltb (length s.ready) s.max_size else true

-- A merge key that leads to an event leads to it no more.
abbrev pub unmerge : String → Option String → Dict String String → Dict String String
unmerge id none index = index
unmerge id (some k) index = if same_text? (lookup k index) (some id) then erase k index else index

abbrev pub index_merge : String → Option String → Dict String String → Dict String String
index_merge id none index = index
index_merge id (some k) index = insert k id index

-- `_store_pending`
unfoldable pub store_pending : LocalOutbox → OutboxEvent → LocalOutbox
store_pending s e = record s {
  events_by_id = insert e.event_id e s.events_by_id;
  retained = erase e.event_id s.retained;
  merge_index = index_merge e.event_id (merge_key e) s.merge_index;
}

-- The order of `(priority, created_at, event_id)`.
abbrev pub text_leb : String → String → Bool
text_leb a b = elim (compare_text a b) [ Ordering.gt ↦ false | _ ↦ true ]

unfoldable pub entry_leb : String × OutboxEvent → String × OutboxEvent → Bool
entry_leb (k, a) (j, b) =
    if leb_ℤ b.priority a.priority
    then (if leb_ℤ a.priority b.priority
        then (if nat_beq a.created_at b.created_at
            then text_leb k j
            else leb a.created_at b.created_at)
        else false)
    else true

-- `max(items, key=...)`
unfoldable pub greatest : String × OutboxEvent → Dict String OutboxEvent → String × OutboxEvent
unfolding entry_leb
greatest x [] = x
greatest x (y ∷ ys) = greatest (if entry_leb y x then x else y) ys

abbrev pub may_evict : LocalOutbox → String × OutboxEvent → Bool
may_evict s (k, e) = not (is_critical e) && not (is_queued s k)

-- `event.last_error or RETAINED_OVERFLOW_REASON`
abbrev pub overflow_error : Option String → String
overflow_error last_error = text_or last_error "retained_low_priority_overflow"

abbrev pub evict : LocalOutbox → String × OutboxEvent → LocalOutbox
evict s (k, e) = record s {
  retained = erase k s.retained;
  events_by_id = erase k s.events_by_id;
  merge_index = unmerge k (merge_key e) s.merge_index;
  dead_letters =
      s.dead_letters ++ (record e { last_error = some (overflow_error e.last_error) }) ∷ [];
}

-- The last of the entries that may go, if there is one.
unfoldable pub evict_last : LocalOutbox → Dict String OutboxEvent → Option LocalOutbox
unfolding greatest
evict_last s [] = none
evict_last s (x ∷ xs) = some (evict s (greatest x xs))

-- One round of `_enforce_retained_capacity`, if the loop goes on.
unfoldable pub evict_next : LocalOutbox → Option LocalOutbox
unfolding evict_last
evict_next s =
    if ltb s.retained_max_size (length s.retained)
    then evict_last s (filter_by (may_evict s) s.retained)
    else none

-- The rounds; each takes an event out of the retained ones, so their number is enough fuel.
unfoldable pub evict_rounds : ℕ → LocalOutbox → LocalOutbox
evict_rounds zero s = s
evict_rounds (suc n) s = elim (evict_next s) [ none ↦ s | some t ↦ evict_rounds n t ]

-- `_enforce_retained_capacity`
unfoldable pub enforce_retained_capacity : LocalOutbox → LocalOutbox
unfolding evict_rounds evict_next
enforce_retained_capacity s =
    if ltb 0 s.retained_max_size then evict_rounds (length s.retained) s else s

-- `_store_retained`, up to its last line and with it.
abbrev pub retain : LocalOutbox → OutboxEvent → LocalOutbox
retain s e = record s {
  events_by_id = insert e.event_id e s.events_by_id;
  retained = insert e.event_id e s.retained;
  merge_index = index_merge e.event_id (merge_key e) s.merge_index;
}

unfoldable pub store_retained : LocalOutbox → OutboxEvent → LocalOutbox
unfolding enforce_retained_capacity
store_retained s e = enforce_retained_capacity (retain s e)
