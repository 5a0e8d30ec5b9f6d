-- ===== src/Tests/Data.antt =====
-- The inputs of the tests.
use fdv.Base.{String, true, false, none, some, [], ◌∷◌}
use fdv.Base.Integer.{pos}
use fdv.Decimal.{Decimal, of_ℕ, hundredths}
use fdv.Domain.Order.{OrderSide, OrderType, OrderStatus, TradableOrderIntent, buying, OrderRecord}
use fdv.Domain.Market.{Market, TradingStatus}
use fdv.Domain.Orderbook.{OrderbookSnapshot}
use fdv.Domain.Position.{Position}
use fdv.Domain.Risk.Types.{RiskRequest}
use fdv.Runtime.EventBus.{BusEvent}

abbrev pub election : Market
election = record {
  condition_id = "c1";
  market_slug = "election";
  outcomes =
      record { token_id = "yes"; outcome = "Yes" }
      ∷ record { token_id = "no"; outcome = "No" }
      ∷ [];
  market_name = none;
  market_question = none;
  event_id = none;
  event_title = none;
  event_slug = some "vote";
  icon_url = none;
  end_date = none;
  tick_size = hundredths 1;
  min_order_size = of_ℕ 5;
  neg_risk = false;
  fees_enabled = some true;
  maker_base_fee_bps = none;
  taker_base_fee_bps = some (pos 20);
  fee_rate_bps = none;
  fee_rate_updated_at = none;
  category = none;
  tags = [];
  matched_keywords = [];
  trading_status = TradingStatus.eligible;
  reject_reason = none;
}

abbrev pub book : OrderbookSnapshot
book = record {
  token_id = "yes";
  best_bid = some (hundredths 40);
  best_ask = some (hundredths 41);
  bids = record { price = hundredths 40; size = of_ℕ 100 } ∷ [];
  asks =
      record { price = hundredths 41; size = of_ℕ 50 }
      ∷ record { price = hundredths 45; size = of_ℕ 80 }
      ∷ [];
  received_at = 7;
  market_slug = none;
  condition_id = some "c1";
  best_bid_size = none;
  best_ask_size = none;
  last_trade_price = none;
  tick_size = none;
}

abbrev pub buy_yes : TradableOrderIntent
buy_yes = buying (record {
  trace_id = "t1";
  condition_id = "c1";
  token_id = "yes";
  price = hundredths 42;
  amount_usdc = of_ℕ 10;
  market_slug = none;
  order_type = OrderType.gtc;
  idempotency_key = none;
  post_only = false;
  retry_count = pos 0;
})

abbrev pub request : RiskRequest
request = record {
  market = some election;
  orderbook = some book;
  position = none;
  open_orders = [];
  allocation_plan = none;
  classification_passed = some true;
  classification_reason = none;
  market_active = none;
  market_open = none;
  clob_enabled = none;
  resolved = none;
  cancelled = none;
  archived = none;
  geoblocked = false;
  balance_usdc = some (of_ℕ 50);
  allowance_usdc = some (of_ℕ 50);
  portfolio_total_invested_usdc = none;
  open_orders_count = none;
  retry_count = pos 0;
  order_retry_limit = some (pos 3);
  max_order_usdc = some (of_ℕ 20);
  max_market_usdc = some (of_ℕ 30);
  max_total_usdc = some (of_ℕ 100);
  max_open_orders = some (pos 5);
  min_order_size = none;
}

abbrev pub order_of : OrderSide → OrderType → Decimal → OrderRecord
order_of side order_type amount = record {
  condition_id = "c1";
  token_id = "yes";
  side = side;
  order_type = order_type;
  price = hundredths 42;
  trace_id = "t1";
  market_slug = none;
  amount_usdc = some amount;
  size_shares = none;
  filled_shares = of_ℕ 0;
  remaining_shares = none;
  notional_usdc = none;
  order_id = some "o1";
  trade_id = none;
  status = OrderStatus.live;
  idempotency_key = none;
  reason = "";
  post_only = false;
  created_at = none;
  updated_at = none;
}

abbrev pub holding : Position
holding = record {
  condition_id = "c1";
  token_id = "yes";
  shares = of_ℕ 20;
  cost_usdc = of_ℕ 8;
  market_slug = none;
  open_buy_shares = of_ℕ 0;
  open_sell_shares = of_ℕ 5;
  pending_buy_shares = of_ℕ 0;
  confirmed_shares = of_ℕ 20;
  last_order_id = none;
  last_trade_id = none;
  confirmation_status = "confirmed";
  updated_at = none;
}

-- An event that is known by its merge key.
abbrev pub event : String → BusEvent
event key = record {
  merge_key = some key;
  dedupe_key = none;
  idempotency_key = none;
  event_id = none;
  trace_id = none;
  object_name = "event:1";
}
