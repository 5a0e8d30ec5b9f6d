-- ===== src/Infra/Executor/Operation.antt =====
-- infra/polymarket/order_executor.py: one operation of a request, from its first lifecycle event to its
-- result. The client and the times are arguments; what the events carry is left out.
use fdv.Base.{String, str_append, false, Option, none, some, List, [], ◌∷◌, ◌++◌, string_eq}
use fdv.Domain.Order.{Time, ExecutionTimestamps, OrderResult, OrderResultStatus, ManagedOrderIntent}
use fdv.App.Trading.Results.{unknown, member}
use fdv.Infra.Executor.{Action, submit, cancel, replace, OrderExecutionRequest}
use fdv.Infra.Executor.Results.{
  OrderExecutionResponse, failure_result, timeout_result, coerce_status,
}
use fdv.Infra.Executor.Building.{build_order_result}

-- What a method of the client returns: a response, a result, a mapping, which is taken as the response
-- that it is read as, or some other object with its `reason`.
pub data RawResponse : Type 0 where
  responded : OrderExecutionResponse → RawResponse
  resulted : OrderResult → RawResponse
  mapped : OrderExecutionResponse → RawResponse
  other : String → Option String → RawResponse

-- A call raises an exception with a text, runs into its timeout, or returns.
pub data CallEnd : Type 0 where
  raised : String → CallEnd
  timed_out : CallEnd
  returned : RawResponse → CallEnd

-- The methods of a client.
abbrev pub OrderExecutionClient : Type 0
OrderExecutionClient = String → Option (OrderExecutionRequest → CallEnd)

-- `normalize_execution_response`
unfoldable pub normalize_execution_response :
    RawResponse → Action → ManagedOrderIntent → OrderExecutionResponse
unfolding coerce_status
normalize_execution_response (responded r) action intent = r
normalize_execution_response (mapped r) action intent = r
normalize_execution_response (resulted r) action intent = record {
  status = member r.status;
  order_id = r.order_id;
  trade_id = r.trade_id;
  matched_shares = some r.matched_shares;
  remaining_shares = some r.remaining_shares;
  spent_usdc = some r.spent_usdc;
  notional_usdc = some r.notional_usdc;
  raw_response = r.raw_response_summary;
  reason = r.reason;
  retryable = r.retryable;
}
normalize_execution_response (other reason raw) action intent = record {
  status = member (coerce_status unknown action intent);
  order_id = none;
  trade_id = none;
  matched_shares = none;
  remaining_shares = none;
  spent_usdc = none;
  notional_usdc = none;
  raw_response = raw;
  reason = reason;
  retryable = false;
}

-- `_invoke_adapter`: what the call ends in, and the calls that were made.
abbrev pub method_found :
    String
    → OrderExecutionRequest
    → Option (OrderExecutionRequest → CallEnd)
    → CallEnd × List String
method_found name q none = (raised (str_append "execution client does not implement " name), [])
method_found name q (some method) = (method q, name ∷ [])

unfoldable pub invoke_adapter :
    Option OrderExecutionClient → String → OrderExecutionRequest → CallEnd × List String
invoke_adapter none name q = (raised "missing execution client", [])
invoke_adapter (some client) name q = method_found name q (client name)

-- `_adapter_method_for_action`
abbrev pub adapter_method_for_action : Action → String
adapter_method_for_action submit = "submit_order"
adapter_method_for_action cancel = "cancel_order"
adapter_method_for_action replace = "replace_order"

abbrev pub created_event : Action → String
created_event submit = "order_created"
created_event cancel = "order_cancel_requested"
created_event replace = "order_cancel_requested"

abbrev pub accepted_event : Action → String
accepted_event submit = "order_submitted"
accepted_event cancel = "order_cancelled"
accepted_event replace = "replace_order_submitted"

-- `_final_event_type`
unfoldable pub final_event_type : Action → OrderResultStatus → String
final_event_type action OrderResultStatus.rejected = "order_rejected"
final_event_type action OrderResultStatus.failed = "order_rejected"
final_event_type action OrderResultStatus.unknown_timeout = "order_rejected"
final_event_type action status = accepted_event action

-- The times that an operation reads.
pub record Clock : Type 0 where
  pub sign_started_at : Time
  pub signed_at : Time
  pub submitted_at : Time
  pub over_at : Time

-- The lifecycle events in their order, the calls of the client in theirs, and the result.
pub record Operated : Type 0 where
  pub events : List String
  pub calls : List String
  pub order_result : OrderResult

module _ (q : OrderExecutionRequest) (intent : ManagedOrderIntent) (clock : Clock) where
  abbrev pub failed_operation : List String → List String → String → ExecutionTimestamps → Operated
  failed_operation events calls reason timestamps = record {
    events = events ++ "order_rejected" ∷ "order_state_updated" ∷ [];
    calls = calls;
    order_result = failure_result q intent reason timestamps clock.over_at;
  }

  abbrev pub timed_out_operation : List String → List String → Operated
  timed_out_operation events calls = record {
    events = events ++ "order_state_updated" ∷ [];
    calls = calls;
    order_result = timeout_result q intent q.queued_at none clock.over_at;
  }

  abbrev pub queued : ExecutionTimestamps
  queued = record {
    queued_at = q.queued_at;
    sign_started_at = none;
    signed_at = none;
    submitted_at = none;
    ack_at = none;
  }

  abbrev pub signing : ExecutionTimestamps
  signing = record queued { sign_started_at = some clock.sign_started_at }

  abbrev pub submitted : ExecutionTimestamps
  submitted = record signing {
    signed_at = some clock.signed_at;
    submitted_at = some clock.submitted_at;
  }

  -- After the call of the order method.
  unfoldable pub answered : List String → List String → CallEnd → Operated
  unfolding build_order_result normalize_execution_response final_event_type failure_result
      timeout_result
  answered events calls (raised text) = failed_operation events calls text submitted
  answered events calls timed_out = timed_out_operation events calls
  answered events calls (returned raw) =
      let r =
        build_order_result q intent (normalize_execution_response raw q.action intent)
          (record submitted { ack_at = some clock.over_at }) in
      record {
        events = events ++ final_event_type q.action r.status ∷ "order_state_updated" ∷ [];
        calls = calls;
        order_result = r;
      }

  -- The signed request is sent.
  unfoldable pub send : Option OrderExecutionClient → List String → List String → Operated
  unfolding answered invoke_adapter
  send client events calls =
      let (end, made) = invoke_adapter client (adapter_method_for_action q.action) q in
      answered events (calls ++ made) end

  -- After the call of `sign_order`.
  unfoldable pub signed : Option OrderExecutionClient → CallEnd × List String → Operated
  unfolding send failure_result timeout_result
  signed client (raised text, calls) =
      failed_operation (created_event q.action ∷ []) calls text signing
  signed client (timed_out, calls) = timed_out_operation (created_event q.action ∷ []) calls
  signed client (returned raw, calls) =
      send client (created_event q.action ∷ "order_signed" ∷ []) calls

  unfoldable pub sign_or_send :
      Option OrderExecutionClient → Option (OrderExecutionRequest → CallEnd) → Operated
  unfolding send signed invoke_adapter
  sign_or_send client none = send client (created_event q.action ∷ "order_signed" ∷ []) []
  sign_or_send client (some method) = signed client (invoke_adapter client "sign_order" q)

  -- `_run_operation`: a client without `sign_order` is taken to sign inline.
  unfoldable pub run_operation : Option OrderExecutionClient → Operated
  unfolding sign_or_send
  run_operation none = sign_or_send none none
  run_operation (some client) = sign_or_send (some client) (client "sign_order")
