-- ===== src/Domain/Account.antt =====
-- src/polymarket_trader/domain/account.py and the `Fill` of domain/events.py: the account as the
-- trading path reads it, and the pauses of single markets.
pub mod Pauses
use fdv.Base.{
  String, Bool, true, false, not, ◌&&◌, ◌||◌, Option, none, some, List, [], ◌∷◌, filter_by, find_by,
  is_none, ◌==◌, ◌!=◌, if◌then◌else◌, string_eq, get_or,
}
use fdv.Decimal.{Decimal, of_ℕ, add, min_of}
use fdv.Domain.Order.{OrderRecord, Time, is_buy, is_open}
use fdv.Domain.Position.{Position}

pub record Fill : Type 0 where
  pub trace_id : String
  pub event_type : String
  pub event_id : String
  pub market_slug : Option String
  pub condition_id : Option String
  pub token_id : Option String
  pub reason : String
  pub created_at : Time
  pub order_id : Option String
  pub trade_id : Option String
  pub side : Option String
  pub price : Option Decimal
  pub size : Option Decimal
  pub notional_usdc : Option Decimal
  pub status : String
  pub confirmed_at : Option Time

pub data MarketPauseSource : Type 0 where
  manual reconcile risk strategy : MarketPauseSource

abbrev pub is_reconcile : MarketPauseSource → Bool
is_reconcile MarketPauseSource.reconcile = true
is_reconcile _ = false

-- The reasons that `_RECOVERABLE_PAUSE_REASONS` lists.
abbrev pub recoverable_reason : String → Bool
recoverable_reason reason = reason == "market_not_tradable" || reason == "missing_primary_outcome"

abbrev pub default_pause_source : String → MarketPauseSource
default_pause_source reason =
    if reason == "manual_pause"
    then MarketPauseSource.manual
    else if reason == "unexpected_resting_order"
    then MarketPauseSource.risk
    else MarketPauseSource.reconcile

pub record MarketPause : Type 0 where
  pub condition_id : String
  pub reason : String
  pub source : MarketPauseSource
  pub recoverable : Bool

-- `MarketPause.build`
unfoldable pub build_pause : String → String → Option MarketPauseSource → Option Bool → MarketPause
build_pause condition_id reason source recoverable =
    let pause_source = get_or source (default_pause_source reason) in
    record {
      condition_id = condition_id;
      reason = reason;
      source = pause_source;
      recoverable = get_or recoverable (is_reconcile pause_source && recoverable_reason reason);
    }

pub record AccountSnapshot : Type 0 where
  pub balance_usdc : Decimal
  pub allowance_usdc : Decimal
  pub positions : List Position
  pub open_orders : List OrderRecord
  pub fills : List Fill
  pub user_ws_connected : Bool
  pub allow_new_entries : Bool
  pub market_pauses : List MarketPause
  pub last_reconcile_at : Option Time

abbrev pub empty_snapshot : AccountSnapshot
empty_snapshot = record {
  balance_usdc = of_ℕ 0;
  allowance_usdc = of_ℕ 0;
  positions = [];
  open_orders = [];
  fills = [];
  user_ws_connected = false;
  allow_new_entries = false;
  market_pauses = [];
  last_reconcile_at = none;
}

abbrev pub available_usdc : AccountSnapshot → Decimal
available_usdc s = min_of s.balance_usdc s.allowance_usdc

abbrev pub position_of : String → String → List Position → Option Position
position_of condition_id token_id =
    find_by (λ p. p.condition_id == condition_id && p.token_id == token_id)

unfoldable pub get_position : AccountSnapshot → String → String → Option Position
get_position s condition_id token_id = position_of condition_id token_id s.positions

unfoldable pub pause_for_market : AccountSnapshot → String → Option MarketPause
pause_for_market s condition_id = find_by (λ p. p.condition_id == condition_id) s.market_pauses

unfoldable pub is_market_paused : AccountSnapshot → String → Bool
unfolding pause_for_market
is_market_paused s condition_id = not (is_none (pause_for_market s condition_id))

unfoldable pub without_market_pause : AccountSnapshot → String → AccountSnapshot
without_market_pause s condition_id = record s {
  market_pauses = filter_by (λ p. p.condition_id != condition_id) s.market_pauses;
}

unfoldable pub open_orders_for_market : AccountSnapshot → String → String → List OrderRecord
open_orders_for_market s condition_id token_id =
    filter_by (λ o. o.condition_id == condition_id && o.token_id == token_id) s.open_orders

unfoldable pub open_buy_orders_for_market : AccountSnapshot → String → String → List OrderRecord
unfolding open_orders_for_market
open_buy_orders_for_market s condition_id token_id =
    filter_by (λ o. is_buy o.side && is_open o) (open_orders_for_market s condition_id token_id)

unfoldable pub open_sell_orders_for_market : AccountSnapshot → String → String → List OrderRecord
unfolding open_orders_for_market
open_sell_orders_for_market s condition_id token_id =
    filter_by (λ o. not (is_buy o.side) && is_open o)
      (open_orders_for_market s condition_id token_id)

-- The loop of `open_sell_shares_for_market`.
unfoldable pub open_shares_from : Decimal → List OrderRecord → Decimal
open_shares_from total [] = total
open_shares_from total (o ∷ rest) =
    open_shares_from
      (elim o.remaining_shares [
        | some remaining ↦ add total remaining
        | none ↦ elim o.size_shares [ some size ↦ add total size | none ↦ total ]
      ])
      rest

unfoldable pub open_sell_shares_for_market : AccountSnapshot → String → String → Decimal
unfolding open_sell_orders_for_market open_shares_from
open_sell_shares_for_market s condition_id token_id =
    open_shares_from (of_ℕ 0) (open_sell_orders_for_market s condition_id token_id)
