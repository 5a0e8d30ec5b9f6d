-- ===== src/Workers/Persistence/Finishing.antt =====
-- workers/persistence_worker.py: what becomes of the events of a batch: each is acknowledged, retried
-- or buried in the outbox. The lags and the times of the statistics are left out.
use Prim.Native.Char.{code}
use Prim.Native.String as Text
use fdv.Base.{
  ℕ, suc, ◌+◌, ◌-◌, String, Bool, true, false, ◌&&◌, not, ◌||◌, some, List, [], ◌∷◌, get_or,
  is_none, ltb, leb, nat_beq, string_eq, if◌then◌else◌,
}
use fdv.Base.Dict.{lookup}
use fdv.Outbox.{OutboxEvent, LocalOutbox}
use fdv.Outbox.Calls.{retry, dead_letter}
use fdv.Outbox.Steps.{OutboxCall, acking, retrying, burying, outbox_step}
use fdv.Workers.Persistence.{PayloadParts, Plan, build_planned_records, PlannedRecord}
use fdv.Workers.Persistence.Writing.{Repository, Written, count_of, write_batch}

-- The code points of a text, with ASCII capitals made small: outside ASCII, `lower` changes nothing that
-- the tests below look for but two letters of other scripts.
abbrev pub small : ℕ → ℕ
small c = if leb 65 c && leb c 90 then c + 32 else c

abbrev pub lowered : String → List ℕ
lowered Text.[] = []
lowered (Text.◌∷◌ c s) = small (code c) ∷ lowered s

unfoldable pub begins_with : List ℕ → List ℕ → Bool
begins_with [] ys = true
begins_with (x ∷ xs) [] = false
begins_with (x ∷ xs) (y ∷ ys) = nat_beq x y && begins_with xs ys

-- `part in text`
unfoldable pub contains : List ℕ → List ℕ → Bool
unfolding begins_with
contains part [] = begins_with part []
contains part (y ∷ ys) = begins_with part (y ∷ ys) || contains part ys

unfoldable pub says : String → String → Bool
unfolding contains
says reason part = contains (lowered part) (lowered reason)

-- `_is_retryable_error`
unfoldable pub is_retryable_error : String → Bool
unfolding says
is_retryable_error reason = not (
    says reason "missing repository method"
    || (says reason "validation"
        || (says reason "schema"
            || (says reason "typeerror" || (says reason "valueerror" || says reason "keyerror")))))

pub data Outcome : Type 0 where
  acknowledged : Outcome
  retried : String → Outcome
  buried : String → Outcome

-- Whether all that an event needs was written.
abbrev pub is_complete : Plan → Written → OutboxEvent → Bool
is_complete plan w e =
    ltb 0 (count_of e.event_id plan.required)
    && (leb (count_of e.event_id plan.required) (count_of e.event_id w.success)
        && is_none (lookup e.event_id w.failed))

abbrev pub failed_reason : Written → OutboxEvent → String
failed_reason w e = get_or (lookup e.event_id w.failed) "persistence write incomplete"

-- `_retry_or_dead_letter`, its choice.
unfoldable pub retry_or_dead_letter : ℕ → OutboxEvent → String → Outcome
retry_or_dead_letter max_retry_count e reason =
    if is_retryable_error reason && ltb e.retry_count max_retry_count
    then retried reason
    else buried reason

unfoldable pub outcome_of : ℕ → Plan → Written → OutboxEvent → Outcome
unfolding retry_or_dead_letter
outcome_of max_retry_count plan w e =
    if is_complete plan w e
    then acknowledged
    else retry_or_dead_letter max_retry_count e (failed_reason w e)

-- The call on the outbox for an outcome.
abbrev pub call_of : String → Outcome → OutboxCall
call_of id acknowledged = acking id
call_of id (retried reason) = retrying id (some reason)
call_of id (buried reason) = burying id (some reason)

-- A KeyError of the outbox, for an event that it does not know, ends the batch.
abbrev pub is_known : LocalOutbox → String → Outcome → Bool
is_known s id acknowledged = true
is_known s id (retried reason) = not (is_none (retry s id (some reason)))
is_known s id (buried reason) = not (is_none (dead_letter s id (some reason)))

-- The counters of a batch: acknowledged, retried, buried events and records that failed.
pub record Tally : Type 0 where
  pub persisted_events : ℕ
  pub retried_events : ℕ
  pub dead_lettered_events : ℕ
  pub failed_records : ℕ

abbrev pub tally_one : Plan → Written → OutboxEvent → Outcome → Tally → Tally
tally_one plan w e acknowledged t = record t { persisted_events = suc t.persisted_events }
tally_one plan w e (retried reason) t = record t {
  retried_events = suc t.retried_events;
  failed_records =
      t.failed_records + (count_of e.event_id plan.required - count_of e.event_id w.success);
}
tally_one plan w e (buried reason) t = record t {
  dead_lettered_events = suc t.dead_lettered_events;
  failed_records =
      t.failed_records + (count_of e.event_id plan.required - count_of e.event_id w.success);
}

-- The outbox and the counters after the events, and whether all of them were dealt with.
pub record Finished : Type 0 where
  pub outbox : LocalOutbox
  pub tally : Tally
  pub completed : Bool

-- The loop of `_finalize_event_outcomes`.
unfoldable pub finalize : ℕ → Plan → Written → LocalOutbox → Tally → List OutboxEvent → Finished
unfolding outcome_of outbox_step
finalize max plan w s t [] = record { outbox = s; tally = t; completed = true }
finalize max plan w s t (e ∷ es) =
    let o = outcome_of max plan w e in
    let rest =
      finalize max plan w (outbox_step (call_of e.event_id o) s) (tally_one plan w e o t) es in
    if is_known s e.event_id o then rest else record { outbox = s; tally = t; completed = false }

abbrev pub no_tally : Tally
no_tally = record {
  persisted_events = 0;
  retried_events = 0;
  dead_lettered_events = 0;
  failed_records = 0;
}

-- `_persist_batch`: the records that the repository has then, the counters of the writes, and the
-- outbox.
unfoldable pub persist_batch :
    (OutboxEvent → PayloadParts)
    → Repository
    → ℕ
    → List PlannedRecord
    → LocalOutbox
    → List OutboxEvent
    → Written × Finished
unfolding build_planned_records write_batch finalize
persist_batch parts r max saved s es =
    let plan = build_planned_records parts es in
    let w = write_batch r saved plan.planned in (w, finalize max plan w s no_tally es)
