-- ===== src/Infra/Executor.antt =====
-- infra/polymarket/order_executor.py: the requests that intents become, and their keys. An intent's own
-- `reason` is no part of a submit request.
pub mod Results
pub mod Operation
pub mod Index
pub mod Phases
pub mod Refinement
pub mod Runs
pub mod Replies
pub mod Calls
pub mod Building
use fdv.Base.{
  ℕ, String, str_append, Bool, true, false, Option, none, some, List, [], ◌∷◌, if◌then◌else◌, ◌==◌,
  string_eq, text_or,
}
use fdv.Base.Integer.{ℤ, pos}
use fdv.Decimal.{Decimal}
use fdv.Decimal.Text.{decimal_text}
use fdv.Domain.Order.{
  Time, OrderSide, OrderType, ExecutionTimestamps, TradableOrderIntent, buying, selling,
  BuyOrderIntent, SellOrderIntent, CancelOrderIntent, ReplaceOrderIntent, ManagedOrderIntent,
  trading, cancelling, replacing,
}

pub data Action : Type 0 where
  submit cancel replace : Action

abbrev pub action_text : Action → String
action_text submit = "submit"
action_text cancel = "cancel"
action_text replace = "replace"

pub record OrderExecutionRequest : Type 0 where
  pub action : Action
  pub trace_id : String
  pub idempotency_key : String
  pub condition_id : String
  pub token_id : String
  pub market_slug : Option String
  pub side : Option OrderSide
  pub order_type : Option OrderType
  pub price : Option Decimal
  pub amount_usdc : Option Decimal
  pub size_shares : Option Decimal
  pub order_id : Option String
  pub new_price : Option Decimal
  pub post_only : Bool
  pub reason : String
  pub retry_count : ℤ
  pub queued_at : Option Time

abbrev pub side_text : Option OrderSide → String
side_text none = ""
side_text (some OrderSide.buy) = "BUY"
side_text (some OrderSide.sell) = "SELL"

abbrev pub order_type_text : Option OrderType → String
order_type_text none = ""
order_type_text (some OrderType.fak) = "FAK"
order_type_text (some OrderType.gtc) = "GTC"

abbrev pub amount_text : Option Decimal → String
amount_text none = ""
amount_text (some d) = decimal_text d

abbrev pub flag_text : Bool → String
flag_text true = "1"
flag_text false = "0"

-- `separator.join(parts)`
abbrev pub joined : String → List String → String
joined separator [] = ""
joined separator (s ∷ []) = s
joined separator (s ∷ t ∷ rest) = str_append s (str_append separator (joined separator (t ∷ rest)))

-- `request_signature`
unfoldable pub request_signature : OrderExecutionRequest → String
unfolding decimal_text
request_signature q = joined "|" (
    action_text q.action
    ∷ q.trace_id
    ∷ q.idempotency_key
    ∷ q.condition_id
    ∷ q.token_id
    ∷ text_or q.market_slug ""
    ∷ side_text q.side
    ∷ order_type_text q.order_type
    ∷ amount_text q.price
    ∷ amount_text q.amount_usdc
    ∷ amount_text q.size_shares
    ∷ text_or q.order_id ""
    ∷ amount_text q.new_price
    ∷ flag_text q.post_only
    ∷ [])

-- The parts of `_request_idempotency_key` are those of the request that it is for.
unfoldable pub request_idempotency_key : OrderExecutionRequest → Option String → String
unfolding decimal_text
request_idempotency_key q key = text_or key (
    joined ":" (
      action_text q.action
      ∷ q.trace_id
      ∷ q.condition_id
      ∷ q.token_id
      ∷ text_or q.market_slug ""
      ∷ side_text q.side
      ∷ order_type_text q.order_type
      ∷ amount_text q.price
      ∷ amount_text q.amount_usdc
      ∷ amount_text q.size_shares
      ∷ text_or q.order_id ""
      ∷ amount_text q.new_price
      ∷ flag_text q.post_only
      ∷ []))

abbrev pub with_key : OrderExecutionRequest → Option String → OrderExecutionRequest
with_key q key = record q { idempotency_key = request_idempotency_key q key }

-- `_build_submit_request`
unfoldable pub build_submit_request : TradableOrderIntent → OrderExecutionRequest
unfolding request_idempotency_key
build_submit_request (buying i) =
    with_key
      (record {
        action = submit;
        trace_id = i.trace_id;
        idempotency_key = "";
        condition_id = i.condition_id;
        token_id = i.token_id;
        market_slug = i.market_slug;
        side = some OrderSide.buy;
        order_type = some i.order_type;
        price = some i.price;
        amount_usdc = some i.amount_usdc;
        size_shares = none;
        order_id = none;
        new_price = none;
        post_only = i.post_only;
        reason = "";
        retry_count = i.retry_count;
        queued_at = none;
      })
      i.idempotency_key
build_submit_request (selling i) =
    with_key
      (record {
        action = submit;
        trace_id = i.trace_id;
        idempotency_key = "";
        condition_id = i.condition_id;
        token_id = i.token_id;
        market_slug = i.market_slug;
        side = some OrderSide.sell;
        order_type = some i.order_type;
        price = some i.price;
        amount_usdc = none;
        size_shares = some i.size_shares;
        order_id = none;
        new_price = none;
        post_only = i.post_only;
        reason = "";
        retry_count = i.retry_count;
        queued_at = none;
      })
      i.idempotency_key

-- `_build_cancel_request`
unfoldable pub build_cancel_request : CancelOrderIntent → OrderExecutionRequest
unfolding request_idempotency_key
build_cancel_request i =
    with_key
      (record {
        action = cancel;
        trace_id = i.trace_id;
        idempotency_key = "";
        condition_id = i.condition_id;
        token_id = i.token_id;
        market_slug = i.market_slug;
        side = none;
        order_type = none;
        price = none;
        amount_usdc = none;
        size_shares = none;
        order_id = some i.order_id;
        new_price = none;
        post_only = false;
        reason = i.reason;
        retry_count = pos 0;
        queued_at = none;
      })
      i.idempotency_key

-- `_build_replace_request`
unfoldable pub build_replace_request : ReplaceOrderIntent → OrderExecutionRequest
unfolding request_idempotency_key
build_replace_request i =
    with_key
      (record {
        action = replace;
        trace_id = i.trace_id;
        idempotency_key = "";
        condition_id = i.condition_id;
        token_id = i.token_id;
        market_slug = i.market_slug;
        side = none;
        order_type = none;
        price = none;
        amount_usdc = none;
        size_shares = some i.size_shares;
        order_id = some i.order_id;
        new_price = some i.new_price;
        post_only = false;
        reason = i.reason;
        retry_count = pos 0;
        queued_at = none;
      })
      i.idempotency_key

-- `submit`, `cancel` and `replace`, up to the call of `_execute`.
unfoldable pub request_of : ManagedOrderIntent → OrderExecutionRequest
unfolding build_submit_request build_cancel_request build_replace_request
request_of (trading i) = build_submit_request i
request_of (cancelling i) = build_cancel_request i
request_of (replacing i) = build_replace_request i
