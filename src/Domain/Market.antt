-- ===== src/Domain/Market.antt =====
-- src/polymarket_trader/domain/market.py: a market, its outcomes and its trading status.
use fdv.Base.{
  String, Bool, true, false, Option, none, List, map, find_by, get_or, or_else, ◌==◌, if◌then◌else◌,
  is_none, string_eq,
}
use fdv.Base.Integer.{ℤ}
use fdv.Decimal.{Decimal}
use fdv.Domain.Order.{Time}

pub data TradingStatus : Type 0 where
  candidate eligible paused closed resolved rejected : TradingStatus

abbrev pub is_eligible : TradingStatus → Bool
is_eligible TradingStatus.eligible = true
is_eligible _ = false

abbrev pub is_resolved : TradingStatus → Bool
is_resolved TradingStatus.resolved = true
is_resolved _ = false

pub record MarketOutcome : Type 0 where
  pub token_id : String
  pub outcome : String

pub record Market : Type 0 where
  pub condition_id : String
  pub market_slug : String
  pub outcomes : List MarketOutcome
  pub market_name : Option String
  pub market_question : Option String
  pub event_id : Option String
  pub event_title : Option String
  pub event_slug : Option String
  pub icon_url : Option String
  pub end_date : Option Time
  pub tick_size : Decimal
  pub min_order_size : Decimal
  pub neg_risk : Bool
  pub fees_enabled : Option Bool
  pub maker_base_fee_bps : Option ℤ
  pub taker_base_fee_bps : Option ℤ
  pub fee_rate_bps : Option ℤ
  pub fee_rate_updated_at : Option Time
  pub category : Option String
  pub tags : List String
  pub matched_keywords : List String
  pub trading_status : TradingStatus
  pub reject_reason : Option String

abbrev pub token_ids : Market → List String
token_ids m = map (λ o. o.token_id) m.outcomes

abbrev pub get_outcome_by_token_id : Market → String → Option MarketOutcome
get_outcome_by_token_id m token_id = find_by (λ o. o.token_id == token_id) m.outcomes

abbrev pub with_trading_status : Market → TradingStatus → Option String → Market
with_trading_status m trading_status reject_reason = record m {
  trading_status = trading_status;
  reject_reason = reject_reason;
}

abbrev pub with_tick_size : Market → Decimal → Market
with_tick_size m tick_size = record m { tick_size = tick_size }

abbrev pub with_min_order_size : Market → Decimal → Market
with_min_order_size m min_order_size = record m { min_order_size = min_order_size }

-- A new taker fee also replaces the fee rate and forgets when that rate was read.
abbrev pub with_fee_schedule : Market → Option Bool → Option ℤ → Option ℤ → Market
with_fee_schedule m fees_enabled maker_base_fee_bps taker_base_fee_bps =
    let resolved = or_else taker_base_fee_bps m.taker_base_fee_bps in
    record m {
      fees_enabled = or_else fees_enabled m.fees_enabled;
      maker_base_fee_bps = or_else maker_base_fee_bps m.maker_base_fee_bps;
      taker_base_fee_bps = resolved;
      fee_rate_bps = if is_none taker_base_fee_bps then m.fee_rate_bps else resolved;
      fee_rate_updated_at = if is_none taker_base_fee_bps then m.fee_rate_updated_at else none;
    }

abbrev pub with_fee_rate : Market → Option ℤ → Option Time → Market
with_fee_rate m fee_rate_bps fee_rate_updated_at = record m {
  fee_rate_bps = fee_rate_bps;
  fee_rate_updated_at = or_else fee_rate_updated_at m.fee_rate_updated_at;
}

-- The keyword arguments of `with_metadata`; what is absent stays as it is.
pub record Metadata : Type 0 where
  pub market_name : Option String
  pub market_question : Option String
  pub event_id : Option String
  pub event_title : Option String
  pub event_slug : Option String
  pub icon_url : Option String
  pub end_date : Option Time
  pub category : Option String
  pub tags : Option (List String)
  pub matched_keywords : Option (List String)
  pub outcomes : Option (List MarketOutcome)
  pub neg_risk : Option Bool

abbrev pub with_metadata : Market → Metadata → Market
with_metadata m d = record m {
  market_name = or_else d.market_name m.market_name;
  market_question = or_else d.market_question m.market_question;
  event_id = or_else d.event_id m.event_id;
  event_title = or_else d.event_title m.event_title;
  event_slug = or_else d.event_slug m.event_slug;
  icon_url = or_else d.icon_url m.icon_url;
  end_date = or_else d.end_date m.end_date;
  category = or_else d.category m.category;
  tags = get_or d.tags m.tags;
  matched_keywords = get_or d.matched_keywords m.matched_keywords;
  outcomes = get_or d.outcomes m.outcomes;
  neg_risk = get_or d.neg_risk m.neg_risk;
}
