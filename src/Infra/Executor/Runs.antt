-- ===== src/Infra/Executor/Runs.antt =====
-- infra/polymarket/order_executor.py: every run of the executor, whatever requests and ends come in
-- whatever order, moves each key as its phases allow.
use fdv.Base.{
  arith, ◌≡◌, refl, ap, ◌∙◌, inl, inr, ℕ, ◌+◌, String, Bool, true, false, Option, none, some, List,
  [], ◌∷◌, length, ◌==◌, string_eq, Bool-cases, Option-cases, All,
}
use fdv.Base.Dict.{Dict, lookup, insert, erase, lookup-insert, lookup-erase, insert-Distinct}
use fdv.Base.Entries.{erase-Distinct}
use fdv.Domain.Order.{Time, OrderResult, ManagedOrderIntent}
use fdv.Infra.Executor.{OrderExecutionRequest, request_signature}
use fdv.Infra.Executor.Index.{
  IdempotencyEntry, OrderExecutor, new_executor, task_or_start, result_or_task, entry_found,
  execute, trim_completed, store_found, store_task_result, ExecutorEvent, requesting, finishing,
  executor_step, executor_run,
}
use fdv.Infra.Executor.Phases.{
  end, Moves, stay, next, Moves-trans, Moves-quiet, Moves-alive, Moves-Keeps, alive, SignedBy,
}
use fdv.Infra.Executor.Refinement.{
  phase_of, entry_phase, result_phase, drops_for, drops_for-append, starts_for, starts_for-append,
  Awaited, Ended, ExecutorSound, new_executor-ExecutorSound, TrimmedWell,
  trim_completed-TrimmedWell, StepsWell, start_operation-StepsWell,
}

module _ (j : String) (s : OrderExecutor) (h : ExecutorSound s) where
  task_or_start-StepsWell :
      (q : OrderExecutionRequest) (e : IdempotencyEntry) (t : Option ℕ)
      → (entry_phase (lookup q.idempotency_key s.idempotency_index)
          ≡ result_phase (request_signature q) t none)
      → StepsWell j s (task_or_start s q t)
  unfolding task_or_start
  task_or_start-StepsWell q e none p = start_operation-StepsWell j s q (inr p) h
  task_or_start-StepsWell q e (some t) p = (stay, h)

  result_or_task-StepsWell :
      (q : OrderExecutionRequest) (e : IdempotencyEntry) (r : Option OrderResult)
      → entry_phase (lookup q.idempotency_key s.idempotency_index)
        ≡ result_phase (request_signature q) e.task r
      → StepsWell j s (result_or_task s q e r)
  unfolding result_or_task
  result_or_task-StepsWell q e none p = task_or_start-StepsWell q e e.task p
  result_or_task-StepsWell q e (some r) p = (stay, h)

  entry_found-StepsWell :
      (q : OrderExecutionRequest) (intent : ManagedOrderIntent) (now : Time)
      (o : Option IdempotencyEntry)
      → lookup q.idempotency_key s.idempotency_index ≡ o
      → StepsWell j s (entry_found s q intent now o)
  unfolding entry_found
  entry_found-StepsWell q intent now none p =
      start_operation-StepsWell j s q (inl (ap entry_phase p)) h
  entry_found-StepsWell q intent now (some e) p =
      elim (Bool-cases (e.signature == request_signature q)) [
        | inr other ↦ rw other (stay, h)
        | inl same ↦ rw same (
            result_or_task-StepsWell q e e.order_result (
              ap entry_phase p
              ∙ ap (λ x. result_phase x e.task e.order_result)
                  ((string_eq.same_iff e.signature (request_signature q)).0 same)))
      ]

  execute-StepsWell :
      (q : OrderExecutionRequest) (intent : ManagedOrderIntent) (acquired : Bool) (now : Time)
      → StepsWell j s (execute s q intent acquired now)
  unfolding execute
  execute-StepsWell q intent true now =
      entry_found-StepsWell (record q { queued_at = some now }) intent now
        (lookup q.idempotency_key s.idempotency_index) refl
  execute-StepsWell q intent false now = (stay, h)

  -- A task of a key ends.
  store-StepsWell :
      (key u : String) (n : ℕ) (r : OrderResult)
      → lookup key s.idempotency_index
        ≡ some (record { signature = u; task = some n; order_result = none })
      → StepsWell j s (store_task_result s key r)
  unfolding store_task_result store_found
  store-StepsWell key u n r found = rw found (
    Moves-quiet ends t.moves,
    record { awaited = λ k x. awaited k x; ended = t.ended; distinct = t.distinct },
  )
    where
      entry : IdempotencyEntry
      entry = record { signature = u; task = none; order_result = some r }

      cache : Dict String OrderResult
      cache = insert key r (erase key s.completed)

      cache-Ended : Ended cache (insert key entry s.idempotency_index)
      cache-Ended k x = elim (Bool-cases (key == k)) [
        | inl same ↦
            rw
              (
                lookup-insert key k r (erase key s.completed),
                lookup-insert key k entry s.idempotency_index,
              )
              (rw same (λ e. (u, cc)))
        | inr other ↦
            rw
              (
                lookup-insert key k r (erase key s.completed),
                lookup-insert key k entry s.idempotency_index,
                lookup-erase key k s.completed,
              )
              (rw other (h.ended k x))
      ]

      t :
          TrimmedWell j
            (insert key entry s.idempotency_index)
            (trim_completed s.max_cached_results cache (insert key entry s.idempotency_index))
      t =
          trim_completed-TrimmedWell j s.max_cached_results cache
            (insert key entry s.idempotency_index) cache-Ended
            (insert-Distinct key r (erase key s.completed)
              (erase-Distinct key s.completed h.distinct))

      ends :
          Moves
            (phase_of j s.idempotency_index)
            []
            0
            (phase_of j (insert key entry s.idempotency_index))
      ends = rw (lookup-insert key j entry s.idempotency_index) (elim (Bool-cases (key == j)) [
        | inr other ↦ rw other stay
        | inl same ↦
            rw same (rw (← (string_eq.same_iff key j).0 same) (rw found (next (end u r) stay)))
      ])

      awaited :
          Awaited
            (erase key s.inflight)
            (trim_completed s.max_cached_results cache
              (insert key entry s.idempotency_index)).idempotency_index
      awaited k x = rw (lookup-erase key k s.inflight) (elim (Bool-cases (key == k)) [
        | inl same ↦ rw same (λ e. cc)
        | inr other ↦ rw other (λ e.
            let (v, m, f) = h.awaited k x e in
            (
              v,
              m,
              t.running_kept k v m (lookup-insert key k entry s.idempotency_index ∙ rw other f),
            ))
      ])

  executor_step-StepsWell : (e : ExecutorEvent) → StepsWell j s (executor_step e s)
  unfolding executor_step
  executor_step-StepsWell (requesting q intent acquired now) =
      execute-StepsWell q intent acquired now
  executor_step-StepsWell (finishing key r) = elim (Option-cases (lookup key s.inflight)) [
    | inl idle ↦ rw idle (stay, h)
    | inr (t, busy) ↦
        let (u, n, found) = h.awaited key t busy in rw busy (store-StepsWell key u n r found)
  ]

-- The executor implements the phases: in any run from a sound executor, each key moves from its phase to
-- its phase at the end by moves that start the operations of the key and drop its results as the run
-- did, and the executor stays sound.
pub executor_run-StepsWell :
    (es : List ExecutorEvent) (key : String) (s : OrderExecutor)
    → ExecutorSound s
    → StepsWell key s (executor_run es s)
unfolding executor_run
executor_run-StepsWell [] key s h = (stay, h)
executor_run-StepsWell (e ∷ es) key s h =
    let one = executor_step e s in
    let more = executor_run es one.executor in
    let first = executor_step-StepsWell key s h e in
    let later = executor_run-StepsWell es key one.executor first.1 in
    (
      rw
          (
            starts_for-append key one.started more.started,
            drops_for-append key one.dropped more.dropped,
          )
          (Moves-trans first.0 later.0),
      later.1,
    )

-- In a run of a new executor an operation starts for a key at most once more than its result is dropped,
-- and exactly so when an operation of the key runs or its result is kept.
pub executor_run-once :
    (es : List ExecutorEvent) (key : String) (n : ℕ)
    → let t = executor_run es (new_executor n) in
      length (starts_for key t.started)
      ≡ drops_for key t.dropped + alive (phase_of key t.executor.idempotency_index)
unfolding lookup
executor_run-once es key n = omega (
  arith,
  Moves-alive (executor_run-StepsWell es key (new_executor n) (new_executor-ExecutorSound n)).0,
)

-- All operations that a run of a sound executor starts for a key are of requests with one signature, the
-- one that the index has for the key at the end.
pub executor_run-signed :
    (es : List ExecutorEvent) (key : String) (s : OrderExecutor)
    → ExecutorSound s
    → let t = executor_run es s in
      All (SignedBy (phase_of key t.executor.idempotency_index)) (starts_for key t.started)
executor_run-signed es key s h = (Moves-Keeps (executor_run-StepsWell es key s h).0).1
