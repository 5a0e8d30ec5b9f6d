-- ===== src/App/Projection/Apply.antt =====
-- app/order_projection.py: `AccountStateProjector`, whose state is the account store that it writes.
use fdv.Base.{
  String, str_append, Bool, true, false, ◌&&◌, Option, none, some, text_or, text_or?, get_or,
  if◌then◌else◌,
}
use fdv.Decimal.{Decimal, of_ℕ, add, sub, lt, le, max_of}
use fdv.Domain.Order.{Time, OrderResult, OrderResultStatus, OrderRecord, OrderSide, SellOrderIntent}
use fdv.Domain.Position.{Position}
use fdv.Domain.Account.{AccountSnapshot, get_position, MarketPauseSource}
use fdv.Runtime.AccountStore.{
  AccountStore, update_balances, upsert_position, upsert_order, remove_order, set_allow_new_entries,
  pause_market,
}
use fdv.App.Projection.Amounts.{
  amount_or, order_result_to_order_status, order_status_to_text, filled_shares, spent_usdc,
  has_unexpected_resting_order, existing_order_size, rests,
}

-- `_snapshot_position`
abbrev pub snapshot_position : Option AccountSnapshot → String → String → Option Position
snapshot_position none condition_id token_id = none
snapshot_position (some s) condition_id token_id = get_position s condition_id token_id

-- `refresh_balances_from`
unfoldable pub refresh_balances_from : AccountStore → Option AccountSnapshot → AccountStore
refresh_balances_from s none = s
refresh_balances_from s (some a) = update_balances s (some a.balance_usdc) (some a.allowance_usdc)

-- A position with the fields that a call leaves to their defaults.
abbrev pub new_position : String → String → Decimal → Decimal → Option String → Position
new_position condition_id token_id shares cost_usdc market_slug = record {
  condition_id = condition_id;
  token_id = token_id;
  shares = shares;
  cost_usdc = cost_usdc;
  market_slug = market_slug;
  open_buy_shares = of_ℕ 0;
  open_sell_shares = of_ℕ 0;
  pending_buy_shares = of_ℕ 0;
  confirmed_shares = of_ℕ 0;
  last_order_id = none;
  last_trade_id = none;
  confirmation_status = "unknown";
  updated_at = none;
}

-- The statuses on which a buy changes the position.
abbrev pub settles_buy : OrderResultStatus → Bool
settles_buy OrderResultStatus.full_fill = true
settles_buy OrderResultStatus.partial_fill = true
settles_buy OrderResultStatus.no_fill = true
settles_buy _ = false

-- The position after a buy, if one is written.
unfoldable pub bought : OrderResult → Time → Option Position → Option Position
bought r now none =
    if le (filled_shares r) (of_ℕ 0)
    then none
    else some
        (record (new_position r.condition_id r.token_id (filled_shares r) (spent_usdc r)
          r.market_slug) {
            confirmation_status = order_status_to_text r.status;
            last_order_id = r.order_id;
            last_trade_id = r.trade_id;
            updated_at = some now;
          })
bought r now (some p) = some (record {
  condition_id = p.condition_id;
  token_id = p.token_id;
  shares = add p.shares (filled_shares r);
  cost_usdc = add p.cost_usdc (spent_usdc r);
  market_slug = text_or? p.market_slug r.market_slug;
  open_buy_shares = of_ℕ 0;
  open_sell_shares = p.open_sell_shares;
  pending_buy_shares = of_ℕ 0;
  confirmed_shares = add p.confirmed_shares (filled_shares r);
  last_order_id = text_or? r.order_id p.last_order_id;
  last_trade_id = text_or? r.trade_id p.last_trade_id;
  confirmation_status = order_status_to_text r.status;
  updated_at = some now;
})

abbrev pub write_bought : AccountStore → Option AccountSnapshot → Option Position → AccountStore
write_bought s snapshot none = s
write_bought s snapshot (some p) = refresh_balances_from (upsert_position s p) snapshot

unfoldable pub apply_buy_result :
    AccountStore → OrderResult → Option AccountSnapshot → Time → AccountStore
unfolding bought refresh_balances_from
apply_buy_result s r snapshot now =
    if settles_buy r.status
    then write_bought s snapshot
        (bought r now (snapshot_position snapshot r.condition_id r.token_id))
    else s

-- The statuses on which a sell changes the account.
abbrev pub settles_sell : OrderResultStatus → Bool
settles_sell OrderResultStatus.full_fill = true
settles_sell OrderResultStatus.partial_fill = true
settles_sell OrderResultStatus.live = true
settles_sell _ = false

-- The shares of a sell that stay on offer.
unfoldable pub sell_remaining : OrderResult → SellOrderIntent → Decimal
sell_remaining r intent =
    let remaining =
      if rests r.status && le r.remaining_shares (of_ℕ 0)
      then sub intent.size_shares (filled_shares r)
      else r.remaining_shares in
    if lt remaining (of_ℕ 0) then of_ℕ 0 else remaining

unfoldable pub open_sell_after : AccountSnapshot → OrderResult → Decimal → Position → Decimal
open_sell_after current r remaining p =
    let open_sell =
      add (max_of (sub p.open_sell_shares (existing_order_size current r)) (of_ℕ 0)) remaining in
    if lt open_sell (of_ℕ 0) then of_ℕ 0 else open_sell

unfoldable pub sell_order_id : OrderResult → SellOrderIntent → String
sell_order_id r intent = text_or (text_or? r.order_id intent.idempotency_key) (
    str_append r.trace_id
      (str_append ":" (str_append r.condition_id (str_append ":" (str_append r.token_id ":sell")))))

abbrev pub sell_order : OrderResult → SellOrderIntent → Position → Decimal → OrderRecord
sell_order r intent p remaining = record {
  condition_id = r.condition_id;
  token_id = r.token_id;
  side = OrderSide.sell;
  order_type = get_or r.order_type intent.order_type;
  price = amount_or r.price intent.price;
  trace_id = r.trace_id;
  market_slug = text_or? p.market_slug r.market_slug;
  amount_usdc = none;
  size_shares = some (amount_or r.requested_size_shares intent.size_shares);
  filled_shares = r.matched_shares;
  remaining_shares = some remaining;
  notional_usdc = some r.notional_usdc;
  order_id = some (sell_order_id r intent);
  trade_id = r.trade_id;
  status = order_result_to_order_status r.status;
  idempotency_key = some (text_or intent.idempotency_key (sell_order_id r intent));
  reason = r.reason;
  post_only = intent.post_only;
  created_at = r.timestamps.queued_at;
  updated_at = r.timestamps.ack_at;
}

abbrev pub sold : OrderResult → Position → Decimal → Time → Position
sold r p open_sell now = record p {
  market_slug = text_or? p.market_slug r.market_slug;
  open_sell_shares = open_sell;
  last_order_id = text_or? r.order_id p.last_order_id;
  last_trade_id = text_or? r.trade_id p.last_trade_id;
  confirmation_status = order_status_to_text r.status;
  updated_at = some now;
}

unfoldable pub write_sold :
    AccountStore → OrderResult → SellOrderIntent → Time → Option Position → AccountStore
unfolding sell_remaining open_sell_after sell_order_id
write_sold s r intent now none = s
write_sold s r intent now (some p) =
    let remaining = sell_remaining r intent in
    let open_sell = open_sell_after s.snapshot r remaining p in
    upsert_position
      (if rests r.status
        then upsert_order s (sell_order r intent p remaining)
        else remove_order s (sell_order_id r intent))
      (sold r p open_sell now)

-- The position of the store, or else of the snapshot that the caller has.
abbrev pub or_snapshot : Option Position → Option AccountSnapshot → OrderResult → Option Position
or_snapshot none snapshot r = snapshot_position snapshot r.condition_id r.token_id
or_snapshot (some p) snapshot r = some p

unfoldable pub apply_sell_result :
    AccountStore → OrderResult → Option AccountSnapshot → SellOrderIntent → Time → AccountStore
unfolding write_sold
apply_sell_result s r snapshot intent now =
    if settles_sell r.status
    then write_sold s r intent now
        (or_snapshot (get_position s.snapshot r.condition_id r.token_id) snapshot r)
    else s

-- The statuses after which new entries are let in again.
abbrev pub is_refused : OrderResultStatus → Bool
is_refused OrderResultStatus.rejected = true
is_refused OrderResultStatus.failed = true
is_refused OrderResultStatus.unknown_timeout = true
is_refused _ = false

unfoldable pub flag_resting : AccountStore → OrderResult → AccountStore
flag_resting s r =
    if has_unexpected_resting_order r
    then pause_market (set_allow_new_entries s false) r.condition_id "unexpected_resting_order"
        (some MarketPauseSource.risk) none
    else s

unfoldable pub flag_refused : AccountStore → OrderResult → AccountStore
flag_refused s r = if is_refused r.status then set_allow_new_entries s true else s

unfoldable pub apply_result_flags :
    AccountStore → OrderResult → Option AccountSnapshot → AccountStore
unfolding flag_resting flag_refused refresh_balances_from
apply_result_flags s r snapshot = refresh_balances_from (flag_refused (flag_resting s r) r) snapshot
