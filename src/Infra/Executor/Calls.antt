-- ===== src/Infra/Executor/Calls.antt =====
-- infra/polymarket/order_executor.py: the calls that one operation makes of the client.
use fdv.Base.{
  arith, ◌≡◌, refl, ◌≢◌, ◌⊎◌, inl, inr, ℕ, ◌+◌, ◌≤◌, String, Option, none, some, List, [], ◌∷◌,
  ◌++◌, if◌then◌else◌, ◌==◌, string_eq,
}
use fdv.Domain.Order.{OrderResultStatus, ManagedOrderIntent}
use fdv.Infra.Executor.{submit, cancel, replace, OrderExecutionRequest}
use fdv.Infra.Executor.Results.{failure_result, timeout_result}
use fdv.Infra.Executor.Operation.{
  RawResponse, CallEnd, raised, timed_out, returned, OrderExecutionClient, method_found,
  invoke_adapter, adapter_method_for_action, created_event, Clock, Operated, answered, send, signed,
  sign_or_send, run_operation,
}

returned≢raised : (raw : RawResponse) (text : String) → returned raw ≢ raised text
returned≢raised raw text e = cc

abbrev pub times_called : String → List String → ℕ
times_called name [] = 0
times_called name (c ∷ cs) = (if c == name then 1 else 0) + times_called name cs

abbrev pub last_of : String → List String → String
last_of d [] = d
last_of d (x ∷ xs) = last_of x xs

-- The order method is called once at most, and once for any result but a failure or a timeout.
pub record Orders (q : OrderExecutionRequest) (o : Operated) : Type 0 where
  pub once : times_called (adapter_method_for_action q.action) o.calls ≤ 1
  pub called :
      (o.order_result.status ≡ OrderResultStatus.failed)
      ⊎ (o.order_result.status ≡ OrderResultStatus.unknown_timeout)
      ⊎ (times_called (adapter_method_for_action q.action) o.calls ≡ 1)
  pub announced : last_of "" o.events ≡ "order_state_updated"

module _ (q : OrderExecutionRequest) (intent : ManagedOrderIntent) (clock : Clock) where
  signing_only : times_called (adapter_method_for_action q.action) ("sign_order" ∷ []) ≡ 0
  signing_only =
      elim q.action as (λ a. times_called (adapter_method_for_action a) ("sign_order" ∷ []) ≡ 0) [
        | submit ↦ refl
        | cancel ↦ refl
        | replace ↦ refl
      ]

  counted_append :
      (name : String) (a b : List String)
      → times_called name (a ++ b) ≡ times_called name a + times_called name b
  counted_append name [] b = omega arith
  counted_append name (x ∷ a) b = omega (arith, counted_append name a b)

  last_of-append : (d x : String) (xs : List String) → last_of d (xs ++ x ∷ []) ≡ x
  last_of-append d x [] = refl
  last_of-append d x (y ∷ ys) = last_of-append y x ys

  last_of_two : (d x y : String) (xs : List String) → last_of d (xs ++ x ∷ y ∷ []) ≡ y
  last_of_two d x y [] = refl
  last_of_two d x y (z ∷ zs) = last_of_two z x y zs

  abbrev method : String
  method = adapter_method_for_action q.action

  answered-Orders :
      (events calls : List String) (end : CallEnd)
      → times_called method calls ≤ 1
      → ((text : String) × (end ≡ raised text)) ⊎ (times_called method calls ≡ 1)
      → Orders q (answered q intent clock events calls end)
  unfolding answered failure_result timeout_result
  answered-Orders events calls (raised text) small k = record {
    once = small;
    called = inl refl;
    announced = last_of_two "" "order_rejected" "order_state_updated" events;
  }
  answered-Orders events calls timed_out small k = record {
    once = small;
    called = inr (inl refl);
    announced = last_of-append "" "order_state_updated" events;
  }
  answered-Orders events calls (returned raw) small (inl (text, e)) =
      absurd (returned≢raised raw text e)
  answered-Orders events calls (returned raw) small (inr one) = record {
    once = small;
    called = inr (inr one);
    announced = last_of_two "" _ "order_state_updated" events;
  }

  send-Orders :
      (client : Option OrderExecutionClient) (events calls : List String)
      → times_called method calls ≡ 0
      → Orders q (send q intent clock client events calls)
  unfolding send invoke_adapter
  send-Orders none events calls z =
      answered-Orders events (calls ++ []) (raised "missing execution client")
        (omega (arith, counted_append method calls [])) (inl ("missing execution client", refl))
  send-Orders (some client) events calls z = sent (client method)
    where
      sent :
          (m : Option (OrderExecutionRequest → CallEnd))
          → Orders q (
              let (end, made) = method_found method q m in
              answered q intent clock events (calls ++ made) end)
      sent none =
          answered-Orders events (calls ++ []) _ (omega (arith, counted_append method calls []))
            (inl (_, refl))
      sent (some f) =
          answered-Orders events (calls ++ method ∷ []) (f q)
            (ground
              (arith, counted_append method calls (method ∷ []), string_eq.same_iff method method))
            (inr (
              ground (
                arith,
                counted_append method calls (method ∷ []),
                string_eq.same_iff method method,
              )))

  signed-Orders :
      (client : Option OrderExecutionClient) (end : CallEnd) (calls : List String)
      → times_called method calls ≡ 0
      → Orders q (signed q intent clock client (end, calls))
  unfolding signed failure_result timeout_result
  signed-Orders client (raised text) calls z = record {
    once = omega (arith, z);
    called = inl refl;
    announced = refl;
  }
  signed-Orders client timed_out calls z = record {
    once = omega (arith, z);
    called = inr (inl refl);
    announced = refl;
  }
  signed-Orders client (returned raw) calls z =
      send-Orders client (created_event q.action ∷ "order_signed" ∷ []) calls z

  -- One operation calls the order method of its action once at most, and once if its result is other than
  -- FAILED and UNKNOWN_TIMEOUT; the last event that it publishes is the update of the order's state.
  pub run_operation-Orders :
      (client : Option OrderExecutionClient) → Orders q (run_operation q intent clock client)
  unfolding run_operation sign_or_send invoke_adapter
  run_operation-Orders none =
      send-Orders none (created_event q.action ∷ "order_signed" ∷ []) [] refl
  run_operation-Orders (some client) = signing (client "sign_order") refl
    where
      signing :
          (m : Option (OrderExecutionRequest → CallEnd))
          → client "sign_order" ≡ m
          → Orders q (sign_or_send q intent clock (some client) m)
      signing none e =
          send-Orders (some client) (created_event q.action ∷ "order_signed" ∷ []) [] refl
      signing (some f) e = rw e (signed-Orders (some client) (f q) ("sign_order" ∷ []) signing_only)
