-- ===== src/Infra/Executor/Index.antt =====
-- infra/polymarket/order_executor.py: the idempotency index of the executor. Tasks are numbers; a task
-- ends by its done callback, which comes once, and is not cancelled.
use fdv.Base.{
  ℕ, suc, String, Bool, Option, none, some, List, [], ◌∷◌, ◌++◌, length, ltb, is_none,
  if◌then◌else◌, ◌==◌, string_eq,
}
use fdv.Base.Dict.{Dict, lookup, insert, erase}
use fdv.Domain.Order.{Time, OrderResult, ManagedOrderIntent}
use fdv.Infra.Executor.{OrderExecutionRequest, request_signature}
use fdv.Infra.Executor.Results.{conflict_result, timeout_result}

pub record IdempotencyEntry : Type 0 where
  pub signature : String
  pub task : Option ℕ
  pub order_result : Option OrderResult

-- `next_task` is the number of the next task that the event loop makes.
pub record OrderExecutor : Type 0 where
  pub idempotency_index : Dict String IdempotencyEntry
  pub completed : Dict String OrderResult
  pub inflight : Dict String ℕ
  pub next_task : ℕ
  pub max_cached_results : ℕ

abbrev pub new_executor : ℕ → OrderExecutor
new_executor max_cached_results = record {
  idempotency_index = [];
  completed = [];
  inflight = [];
  next_task = 0;
  max_cached_results = max_cached_results;
}

-- A call is answered at once, or waits for a task.
pub data Reply : Type 0 where
  answers : OrderResult → Reply
  awaits : ℕ → Reply

-- What a step comes to: the operations that it starts, and the keys whose results it drops.
pub record Stepped : Type 0 where
  pub executor : OrderExecutor
  pub reply : Option Reply
  pub started : List OrderExecutionRequest
  pub dropped : List String

abbrev pub replies : OrderExecutor → Reply → Stepped
replies s r = record { executor = s; reply = some r; started = []; dropped = [] }

unfoldable pub start_operation : OrderExecutor → OrderExecutionRequest → Stepped
unfolding request_signature
start_operation s q = record {
  executor = record s {
    idempotency_index =
        insert q.idempotency_key
          (record { signature = request_signature q; task = some s.next_task; order_result = none })
          s.idempotency_index;
    inflight = insert q.idempotency_key s.next_task s.inflight;
    next_task = suc s.next_task;
  };
  reply = some (awaits s.next_task);
  started = q ∷ [];
  dropped = [];
}

unfoldable pub task_or_start : OrderExecutor → OrderExecutionRequest → Option ℕ → Stepped
unfolding start_operation
task_or_start s q none = start_operation s q
task_or_start s q (some t) = replies s (awaits t)

unfoldable pub result_or_task :
    OrderExecutor → OrderExecutionRequest → IdempotencyEntry → Option OrderResult → Stepped
unfolding task_or_start
result_or_task s q e none = task_or_start s q e.task
result_or_task s q e (some r) = replies s (answers r)

unfoldable pub entry_found :
    OrderExecutor
    → OrderExecutionRequest
    → ManagedOrderIntent
    → Time
    → Option IdempotencyEntry
    → Stepped
unfolding start_operation result_or_task conflict_result request_signature
entry_found s q intent now none = start_operation s q
entry_found s q intent now (some e) =
    if e.signature == request_signature q
    then result_or_task s q e e.order_result
    else replies s (answers (conflict_result q intent now))

-- `_execute`, up to its wait; whether the lock was acquired in time is an argument.
unfoldable pub execute :
    OrderExecutor → OrderExecutionRequest → ManagedOrderIntent → Bool → Time → Stepped
unfolding entry_found timeout_result
execute s q intent acquired now =
    let r = record q { queued_at = some now } in
    if acquired
    then entry_found s r intent now (lookup r.idempotency_key s.idempotency_index)
    else replies s (answers (timeout_result r intent (some now) (some "critical_lock_timeout") now))

-- `_await_task`: the result of the task if it came in time.
unfoldable pub await_task :
    OrderExecutionRequest → ManagedOrderIntent → Option OrderResult → Time → OrderResult
unfolding timeout_result
await_task q intent (some r) now = r
await_task q intent none now = timeout_result q intent q.queued_at none now

abbrev pub forgotten : IdempotencyEntry → IdempotencyEntry
forgotten e = record { signature = e.signature; task = none; order_result = none }

abbrev pub forget :
    String → Option IdempotencyEntry → Dict String IdempotencyEntry → Dict String IdempotencyEntry
forget key none index = index
forget key (some e) index = insert key (forgotten e) index

-- `_trim_completed_cache`: what is left of the cache and the index, and the keys that were taken out.
pub record Trimmed : Type 0 where
  pub completed : Dict String OrderResult
  pub idempotency_index : Dict String IdempotencyEntry
  pub dropped : List String

unfoldable pub trim_completed : ℕ → Dict String OrderResult → Dict String IdempotencyEntry → Trimmed
trim_completed max [] index = record { completed = []; idempotency_index = index; dropped = [] }
trim_completed max ((key, r) ∷ rest) index =
    let t = trim_completed max rest (forget key (lookup key index) index) in
    if ltb max (length ((key, r) ∷ rest))
    then record t { dropped = key ∷ t.dropped }
    else record { completed = (key, r) ∷ rest; idempotency_index = index; dropped = [] }

-- The order is that of completion: a key that is there moves to the end.
unfoldable pub store_found :
    OrderExecutor → String → OrderResult → Option IdempotencyEntry → Stepped
unfolding trim_completed
store_found s key r none = record { executor = s; reply = none; started = []; dropped = [] }
store_found s key r (some e) =
    let settled = record e { task = none; order_result = some r } in
    let t =
      trim_completed s.max_cached_results (insert key r (erase key s.completed))
        (insert key settled s.idempotency_index) in
    record {
      executor = record s {
        idempotency_index = t.idempotency_index;
        completed = t.completed;
        inflight = erase key s.inflight;
      };
      reply = none;
      started = [];
      dropped = t.dropped;
    }

-- `_store_task_result`
unfoldable pub store_task_result : OrderExecutor → String → OrderResult → Stepped
unfolding store_found
store_task_result s key r = store_found s key r (lookup key s.idempotency_index)

pub data ExecutorEvent : Type 0 where
  requesting : OrderExecutionRequest → ManagedOrderIntent → Bool → Time → ExecutorEvent
  finishing : String → OrderResult → ExecutorEvent

-- A callback comes only for a task that is in flight.
unfoldable pub executor_step : ExecutorEvent → OrderExecutor → Stepped
unfolding execute store_task_result
executor_step (requesting q intent acquired now) s = execute s q intent acquired now
executor_step (finishing key r) s =
    if is_none (lookup key s.inflight)
    then record { executor = s; reply = none; started = []; dropped = [] }
    else store_task_result s key r

-- A run, with all that it started and dropped.
unfoldable pub executor_run : List ExecutorEvent → OrderExecutor → Stepped
unfolding executor_step
executor_run [] s = record { executor = s; reply = none; started = []; dropped = [] }
executor_run (e ∷ es) s =
    let one = executor_step e s in
    let rest = executor_run es one.executor in
    record rest { started = one.started ++ rest.started; dropped = one.dropped ++ rest.dropped }
