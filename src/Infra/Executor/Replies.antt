-- ===== src/Infra/Executor/Replies.antt =====
-- infra/polymarket/order_executor.py: what a request is told, by the phase of its key, and the size of
-- the cache.
use fdv.Base.{
  arith, ◌≡◌, refl, sym, inl, inr, ℕ, ◌≤◌, String, true, false, Option, none, some, List, [], ◌∷◌,
  length, is_none, if◌then◌else◌, ◌==◌, string_eq, Bool-cases,
}
use fdv.Base.Dict.{Dict, lookup, insert, erase}
use fdv.Domain.Order.{Time, OrderResult, ManagedOrderIntent}
use fdv.Infra.Executor.{OrderExecutionRequest, request_signature}
use fdv.Infra.Executor.Results.{conflict_result}
use fdv.Infra.Executor.Index.{
  IdempotencyEntry, OrderExecutor, Stepped, Reply, answers, awaits, start_operation, task_or_start,
  result_or_task, entry_found, execute, forget, trim_completed, store_found, store_task_result,
  ExecutorEvent, requesting, finishing, executor_step, executor_run,
}
use fdv.Infra.Executor.Phases.{Phase, fresh, running, settled, faded}
use fdv.Infra.Executor.Refinement.{phase_of, entry_phase, result_phase}

-- The result that a call gives at once, if it gives one.
abbrev pub answer_of : Option Reply → Option OrderResult
answer_of none = none
answer_of (some (answers r)) = some r
answer_of (some (awaits t)) = none

-- What a key promises a request: a result at once or none, and the operations that start.
abbrev pub promised :
    Phase → OrderExecutionRequest → OrderResult → Option OrderResult × List OrderExecutionRequest
promised fresh q conflict = (none, q ∷ [])
promised (running s) q conflict =
    if s == request_signature q then (none, []) else (some conflict, [])
promised (settled s r) q conflict =
    if s == request_signature q then (some r, []) else (some conflict, [])
promised (faded s) q conflict =
    if s == request_signature q then (none, q ∷ []) else (some conflict, [])

abbrev observed : Stepped → Option OrderResult × List OrderExecutionRequest
observed t = (answer_of t.reply, t.started)

module _ (s : OrderExecutor) (q : OrderExecutionRequest) (intent : ManagedOrderIntent)
    (now : Time) where
  abbrev conflict : OrderResult
  conflict = conflict_result q intent now

  same_signature :
      (e : IdempotencyEntry) (task : Option ℕ) (r : Option OrderResult)
      → (e.signature == request_signature q) ≡ true
      → observed (result_or_task s q (record e { task = task; order_result = r }) r)
        ≡ promised (result_phase e.signature task r) q conflict
  unfolding result_or_task task_or_start start_operation
  same_signature e task (some r) same = rw same refl
  same_signature e (some t) none same = rw same refl
  same_signature e none none same = rw same refl

  other_signature :
      (e : IdempotencyEntry) (task : Option ℕ) (r : Option OrderResult)
      → (e.signature == request_signature q) ≡ false
      → promised (result_phase e.signature task r) q conflict ≡ (some conflict, [])
  other_signature e task (some r) other = rw other refl
  other_signature e (some t) none other = rw other refl
  other_signature e none none other = rw other refl

  entry_found-promised :
      (o : Option IdempotencyEntry)
      → observed (entry_found s q intent now o) ≡ promised (entry_phase o) q conflict
  unfolding entry_found start_operation
  entry_found-promised none = refl
  entry_found-promised (some e) = elim (Bool-cases (e.signature == request_signature q)) [
    | inl same ↦ rw same (same_signature e e.task e.order_result same)
    | inr other ↦ rw other (sym (other_signature e e.task e.order_result other))
  ]

-- A call of the executor that gets the lock gives at once the result that the phase of its key promises,
-- the conflict for a key with another signature, and starts the operation that it promises.
pub execute-promised :
    (s : OrderExecutor) (q : OrderExecutionRequest) (intent : ManagedOrderIntent) (now : Time)
    → let r = record q { queued_at = some now } in
      let t = execute s q intent true now in
      (answer_of t.reply, t.started)
      ≡ promised (phase_of q.idempotency_key s.idempotency_index) r (conflict_result r intent now)
unfolding execute
execute-promised s q intent now =
    entry_found-promised s (record q { queued_at = some now }) intent now
      (lookup q.idempotency_key s.idempotency_index)

trim_completed-short :
    (max : ℕ) (c : Dict String OrderResult) (index : Dict String IdempotencyEntry)
    → length (trim_completed max c index).completed ≤ max
unfolding trim_completed
trim_completed-short max [] index = omega arith
trim_completed-short max ((key, r) ∷ rest) index =
    ground (arith, trim_completed-short max rest (forget key (lookup key index) index))

-- What the executor caches is within the bound.
abbrev pub CacheFits : OrderExecutor → Type 0
CacheFits s = length s.completed ≤ s.max_cached_results

entry_found-CacheFits :
    (s : OrderExecutor) (q : OrderExecutionRequest) (intent : ManagedOrderIntent) (now : Time)
    (o : Option IdempotencyEntry)
    → CacheFits s
    → CacheFits (entry_found s q intent now o).executor
unfolding entry_found start_operation result_or_task task_or_start
entry_found-CacheFits s q intent now none h = h
entry_found-CacheFits s q intent now (some e) h =
    elim (Bool-cases (e.signature == request_signature q)) [
      | inr other ↦ rw other h
      | inl same ↦ rw same (found e.order_result)
    ]
  where
    started : (t : Option ℕ) → CacheFits (task_or_start s q t).executor
    started none = h
    started (some t) = h

    found : (r : Option OrderResult) → CacheFits (result_or_task s q e r).executor
    found none = started e.task
    found (some r) = h

store_found-CacheFits :
    (s : OrderExecutor) (key : String) (r : OrderResult) (o : Option IdempotencyEntry)
    → CacheFits s
    → CacheFits (store_found s key r o).executor
unfolding store_found
store_found-CacheFits s key r none h = h
store_found-CacheFits s key r (some e) h =
    trim_completed-short s.max_cached_results (insert key r (erase key s.completed))
      (insert key (record e { task = none; order_result = some r }) s.idempotency_index)

executor_step-CacheFits :
    (e : ExecutorEvent) (s : OrderExecutor) → CacheFits s → CacheFits (executor_step e s).executor
unfolding executor_step execute store_task_result
executor_step-CacheFits (requesting q intent false now) s h = h
executor_step-CacheFits (requesting q intent true now) s h =
    entry_found-CacheFits s (record q { queued_at = some now }) intent now
      (lookup q.idempotency_key s.idempotency_index) h
executor_step-CacheFits (finishing key r) s h =
    elim (Bool-cases (is_none (lookup key s.inflight))) [
      | inl idle ↦ rw idle h
      | inr busy ↦ rw busy (store_found-CacheFits s key r (lookup key s.idempotency_index) h)
    ]

-- The cache of results stays within its bound over any run.
pub executor_run-CacheFits :
    (es : List ExecutorEvent) (s : OrderExecutor)
    → CacheFits s
    → CacheFits (executor_run es s).executor
unfolding executor_run
executor_run-CacheFits [] s h = h
executor_run-CacheFits (e ∷ es) s h =
    executor_run-CacheFits es (executor_step e s).executor (executor_step-CacheFits e s h)
