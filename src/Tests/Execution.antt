-- ===== src/Tests/Execution.antt =====
-- infra/polymarket/order_executor.py: one buy, asked for three times.
use fdv.Base.{
  arith, ◌≡◌, refl, true, false, none, some, List, [], ◌∷◌, ◌+◌, length, All, if◌then◌else◌, ◌==◌,
  string_eq,
}
use fdv.Base.Dict.{lookup, insert, erase}
use fdv.Base.Integer.{pos, negsuc}
use fdv.Decimal.{hundredths, of_ℕ}
use fdv.Domain.Order.{
  OrderType, ManagedOrderIntent, trading, buying, OrderResult, OrderResultStatus,
}
use fdv.App.Trading.Results.{spelled}
use fdv.Infra.Executor.{
  OrderExecutionRequest, request_of, build_submit_request, request_idempotency_key,
  request_signature,
}
use fdv.Infra.Executor.Results.{
  OrderExecutionResponse, coerce_status, known_status, conflict_result,
}
use fdv.Infra.Executor.Building.{build_order_result}
use fdv.Infra.Executor.Operation.{
  OrderExecutionClient, Clock, returned, responded, run_operation, sign_or_send, send,
  invoke_adapter, answered, normalize_execution_response,
}
use fdv.Infra.Executor.Index.{
  ExecutorEvent, requesting, finishing, new_executor, executor_run, executor_step, execute,
  entry_found, start_operation, result_or_task, task_or_start, store_task_result, store_found,
  trim_completed,
}
use fdv.Infra.Executor.Phases.{alive, SignedBy}
use fdv.Infra.Executor.Refinement.{
  phase_of, starts_for, drops_for, StepsWell, new_executor-ExecutorSound,
}
use fdv.Infra.Executor.Runs.{executor_run-StepsWell, executor_run-once, executor_run-signed}
use fdv.Infra.Executor.Replies.{
  answer_of, promised, execute-promised, CacheFits, executor_run-CacheFits,
}
use fdv.Infra.Executor.Calls.{Orders, run_operation-Orders}
use fdv.Decimal.Text.{ℕ_text, digits_of, unsigned_text, decimal_text}

plain_text : decimal_text (record { coef = pos 1250; scale = 3 }) ≡ "1.250"
unfolding decimal_text unsigned_text digits_of ℕ_text
plain_text = refl

small_text : decimal_text (record { coef = negsuc 4; scale = 6 }) ≡ "-0.000005"
unfolding decimal_text unsigned_text digits_of ℕ_text
small_text = refl

scientific_text : decimal_text (record { coef = pos 15; scale = 9 }) ≡ "1.5E-8"
unfolding decimal_text unsigned_text digits_of ℕ_text
scientific_text = refl

abbrev intent : ManagedOrderIntent
intent = trading (
    buying (record {
      trace_id = "t1";
      condition_id = "c1";
      token_id = "yes";
      price = hundredths 50;
      amount_usdc = of_ℕ 5;
      market_slug = none;
      order_type = OrderType.fak;
      idempotency_key = some "k1";
      post_only = false;
      retry_count = pos 0;
    }))

abbrev request : OrderExecutionRequest
unfolding request_of build_submit_request request_idempotency_key
request = request_of intent

abbrev clock : Clock
clock = record { sign_started_at = 1; signed_at = 2; submitted_at = 3; over_at = 4 }

abbrev response : OrderExecutionResponse
response = record {
  status = spelled "filled";
  order_id = some "o1";
  trade_id = none;
  matched_shares = some (of_ℕ 10);
  remaining_shares = none;
  spent_usdc = none;
  notional_usdc = none;
  raw_response = none;
  reason = "";
  retryable = false;
}

-- A client that fills each order, and signs inline.
abbrev client : OrderExecutionClient
client name = if name == "submit_order" then some (λ q. returned (responded response)) else none

run_operation-Orders_example : Orders request (run_operation request intent clock (some client))
run_operation-Orders_example = run_operation-Orders request intent clock (some client)

abbrev result : OrderResult
unfolding run_operation
result = (run_operation request intent clock (some client)).order_result

buy_filled : result.status ≡ OrderResultStatus.full_fill
unfolding run_operation sign_or_send send invoke_adapter answered build_order_result coerce_status
    known_status normalize_execution_response request
buy_filled = refl

-- The same request twice before its operation ends, and once after.
abbrev repeated : List ExecutorEvent
repeated =
    requesting request intent true 10
    ∷ requesting request intent true 11
    ∷ finishing "k1" result
    ∷ requesting request intent true 20
    ∷ []

executor_run-once_example :
    length (starts_for "k1" (executor_run repeated (new_executor 8)).started)
    ≡ drops_for "k1" (executor_run repeated (new_executor 8)).dropped
      + alive (phase_of "k1" (executor_run repeated (new_executor 8)).executor.idempotency_index)
executor_run-once_example = executor_run-once repeated "k1" 8

executor_run-StepsWell_example :
    StepsWell "k1" (new_executor 8) (executor_run repeated (new_executor 8))
executor_run-StepsWell_example =
    executor_run-StepsWell repeated "k1" (new_executor 8) (new_executor-ExecutorSound 8)

executor_run-signed_example :
    let t = executor_run repeated (new_executor 8) in
    All (SignedBy (phase_of "k1" t.executor.idempotency_index)) (starts_for "k1" t.started)
executor_run-signed_example =
    executor_run-signed repeated "k1" (new_executor 8) (new_executor-ExecutorSound 8)

executor_run-CacheFits_example : CacheFits (executor_run repeated (new_executor 8)).executor
executor_run-CacheFits_example = executor_run-CacheFits repeated (new_executor 8) (omega arith)

execute-promised_example :
    let s = (executor_run repeated (new_executor 8)).executor in
    let r = record request { queued_at = some 30 } in
    let t = execute s request intent true 30 in
    (answer_of t.reply, t.started)
    ≡ promised (phase_of "k1" s.idempotency_index) r (conflict_result r intent 30)
unfolding request
execute-promised_example =
    execute-promised (executor_run repeated (new_executor 8)).executor request intent 30

started_once : length (executor_run repeated (new_executor 8)).started ≡ 1
unfolding executor_run executor_step execute entry_found start_operation result_or_task
    task_or_start store_task_result store_found trim_completed lookup insert erase request_signature
    decimal_text unsigned_text digits_of request result run_operation sign_or_send send
    invoke_adapter answered build_order_result coerce_status known_status
    normalize_execution_response
started_once = refl

-- A result that the cache has no place for is forgotten, and the request is sent again.
started_twice : length (executor_run repeated (new_executor 0)).started ≡ 2
unfolding executor_run executor_step execute entry_found start_operation result_or_task
    task_or_start store_task_result store_found trim_completed lookup insert erase request_signature
    decimal_text unsigned_text digits_of request result run_operation sign_or_send send
    invoke_adapter answered build_order_result coerce_status known_status
    normalize_execution_response
started_twice = refl
