-- ===== src/Domain/Order.antt =====
-- src/polymarket_trader/domain/order.py: order intents, order records and execution results.
-- A `datetime` is a number of microseconds; the text of a `StrEnum` is written out where it is used.
use fdv.Base.{ℕ, String, Bool, true, false, Option}
use fdv.Base.Integer.{ℤ}
use fdv.Decimal.{Decimal}

pub data OrderSide : Type 0 where
  buy sell : OrderSide

pub data OrderType : Type 0 where
  fak gtc : OrderType

pub data OrderStatus : Type 0 where
  created signed submitted cancel_requested matched partially_filled no_fill live : OrderStatus
  cancelled rejected failed : OrderStatus

pub data OrderResultStatus : Type 0 where
  full_fill partial_fill no_fill live rejected failed cancelled unknown_timeout : OrderResultStatus

abbrev pub Time : Type 0
Time = ℕ

pub record ExecutionTimestamps : Type 0 where
  pub queued_at : Option Time
  pub sign_started_at : Option Time
  pub signed_at : Option Time
  pub submitted_at : Option Time
  pub ack_at : Option Time

pub record BuyOrderIntent : Type 0 where
  pub trace_id : String
  pub condition_id : String
  pub token_id : String
  pub price : Decimal
  pub amount_usdc : Decimal
  pub market_slug : Option String
  pub order_type : OrderType
  pub idempotency_key : Option String
  pub post_only : Bool
  pub retry_count : ℤ

pub record SellOrderIntent : Type 0 where
  pub trace_id : String
  pub condition_id : String
  pub token_id : String
  pub price : Decimal
  pub size_shares : Decimal
  pub market_slug : Option String
  pub order_type : OrderType
  pub idempotency_key : Option String
  pub post_only : Bool
  pub retry_count : ℤ

pub record CancelOrderIntent : Type 0 where
  pub trace_id : String
  pub condition_id : String
  pub token_id : String
  pub order_id : String
  pub market_slug : Option String
  pub idempotency_key : Option String
  pub reason : String

pub record ReplaceOrderIntent : Type 0 where
  pub trace_id : String
  pub condition_id : String
  pub token_id : String
  pub order_id : String
  pub new_price : Decimal
  pub size_shares : Decimal
  pub market_slug : Option String
  pub idempotency_key : Option String
  pub reason : String

pub data TradableOrderIntent : Type 0 where
  buying : BuyOrderIntent → TradableOrderIntent
  selling : SellOrderIntent → TradableOrderIntent

pub data ManagedOrderIntent : Type 0 where
  trading : TradableOrderIntent → ManagedOrderIntent
  cancelling : CancelOrderIntent → ManagedOrderIntent
  replacing : ReplaceOrderIntent → ManagedOrderIntent

pub record OrderRecord : Type 0 where
  pub condition_id : String
  pub token_id : String
  pub side : OrderSide
  pub order_type : OrderType
  pub price : Decimal
  pub trace_id : String
  pub market_slug : Option String
  pub amount_usdc : Option Decimal
  pub size_shares : Option Decimal
  pub filled_shares : Decimal
  pub remaining_shares : Option Decimal
  pub notional_usdc : Option Decimal
  pub order_id : Option String
  pub trade_id : Option String
  pub status : OrderStatus
  pub idempotency_key : Option String
  pub reason : String
  pub post_only : Bool
  pub created_at : Option Time
  pub updated_at : Option Time

-- The statuses that the property `open` counts as open.
abbrev pub is_open_status : OrderStatus → Bool
is_open_status OrderStatus.created = true
is_open_status OrderStatus.signed = true
is_open_status OrderStatus.submitted = true
is_open_status OrderStatus.cancel_requested = true
is_open_status OrderStatus.live = true
is_open_status OrderStatus.matched = true
is_open_status OrderStatus.partially_filled = true
is_open_status _ = false

abbrev pub is_open : OrderRecord → Bool
is_open o = is_open_status o.status

abbrev pub is_buy : OrderSide → Bool
is_buy OrderSide.buy = true
is_buy OrderSide.sell = false

abbrev pub is_fak : OrderType → Bool
is_fak OrderType.fak = true
is_fak OrderType.gtc = false

pub record OrderResult : Type 0 where
  pub trace_id : String
  pub condition_id : String
  pub token_id : String
  pub status : OrderResultStatus
  pub intent : Option ManagedOrderIntent
  pub market_slug : Option String
  pub order_id : Option String
  pub trade_id : Option String
  pub side : Option OrderSide
  pub order_type : Option OrderType
  pub price : Option Decimal
  pub requested_amount_usdc : Option Decimal
  pub requested_size_shares : Option Decimal
  pub matched_shares : Decimal
  pub remaining_shares : Decimal
  pub spent_usdc : Decimal
  pub notional_usdc : Decimal
  pub reason : String
  pub retryable : Bool
  pub raw_response_summary : Option String
  pub timestamps : ExecutionTimestamps

abbrev pub is_filled : OrderResult → Bool
is_filled r = elim r.status [
  | OrderResultStatus.full_fill ↦ true
  | OrderResultStatus.partial_fill ↦ true
  | _ ↦ false
]

abbrev pub has_resting_order : OrderResult → Bool
has_resting_order r = elim r.status [ OrderResultStatus.live ↦ true | _ ↦ false ]
