-- ===== src/App/Projection/Manage.antt =====
-- app/order_projection.py: submitted intents and the coverage of positions.
use fdv.Base.{
  String, str_append, Bool, ◌&&◌, Option, none, some, List, [], ◌∷◌, text_or, text_or?, get_or,
  is_none, if◌then◌else◌,
}
use fdv.Decimal.{Decimal, of_ℕ, add, div, lt, le}
use fdv.Domain.Order.{Time, OrderStatus, OrderRecord, TradableOrderIntent, buying, selling, trading}
use fdv.Domain.Intent
use fdv.Domain.Position.{
  Position, with_open_buy_shares, with_open_sell_shares, with_pending_buy_shares,
}
use fdv.Domain.Account.{
  AccountSnapshot, get_position, open_buy_orders_for_market, open_sell_shares_for_market,
}
use fdv.Runtime.AccountStore.{AccountStore, upsert_position, upsert_order}
use fdv.App.Projection.Amounts.{amount_or, order_open_shares, intent_key}
use fdv.App.Projection.Apply.{new_position}

-- `intent.side.value.lower()`
abbrev pub side_name : TradableOrderIntent → String
side_name (buying i) = "buy"
side_name (selling i) = "sell"

abbrev pub tradable_key : TradableOrderIntent → Option String
tradable_key i = intent_key (trading i)

unfoldable pub submitted_id : TradableOrderIntent → String
submitted_id i = text_or (tradable_key i) (
    str_append (Intent.trace_id i) (
      str_append ":" (
        str_append (Intent.condition_id i)
          (str_append ":" (str_append (Intent.token_id i) (str_append ":" (side_name i)))))))

-- The shares that a buy would get at its price.
unfoldable pub buy_open_shares : TradableOrderIntent → Decimal
buy_open_shares (selling i) = of_ℕ 0
buy_open_shares (buying i) = if lt (of_ℕ 0) i.price then div i.amount_usdc i.price else of_ℕ 0

-- The position with what the intent puts on offer.
unfoldable pub submitted_position :
    TradableOrderIntent → Option String → AccountSnapshot → Option Position → Position
unfolding buy_open_shares
submitted_position i market_slug a none =
    record (new_position (Intent.condition_id i) (Intent.token_id i) (of_ℕ 0) (of_ℕ 0)
      market_slug) {
        open_buy_shares = buy_open_shares i;
        open_sell_shares = get_or (Intent.size_shares i) (of_ℕ 0);
        pending_buy_shares = buy_open_shares i;
      }
submitted_position (selling i) market_slug a (some p) =
    with_open_sell_shares p
      (add (open_sell_shares_for_market a i.condition_id i.token_id) i.size_shares)
submitted_position (buying i) market_slug a (some p) =
    with_pending_buy_shares
      (with_open_buy_shares p (add p.open_buy_shares (buy_open_shares (buying i))))
      (add p.pending_buy_shares (buy_open_shares (buying i)))

abbrev pub intent_slug : TradableOrderIntent → Option String
intent_slug (buying i) = i.market_slug
intent_slug (selling i) = i.market_slug

abbrev pub intent_post_only : TradableOrderIntent → Bool
intent_post_only (buying i) = i.post_only
intent_post_only (selling i) = i.post_only

-- `created` and `updated` are the two readings of the clock.
abbrev pub submitted_order : TradableOrderIntent → String → Time → Time → OrderRecord
submitted_order i reason created updated = record {
  condition_id = Intent.condition_id i;
  token_id = Intent.token_id i;
  side = Intent.side i;
  order_type = elim i [ buying b ↦ b.order_type | selling s ↦ s.order_type ];
  price = Intent.price i;
  trace_id = Intent.trace_id i;
  market_slug = intent_slug i;
  amount_usdc = Intent.amount_usdc i;
  size_shares = Intent.size_shares i;
  filled_shares = of_ℕ 0;
  remaining_shares = Intent.size_shares i;
  notional_usdc = some (Intent.notional_usdc i);
  order_id = some (submitted_id i);
  trade_id = none;
  status = OrderStatus.submitted;
  idempotency_key = some (text_or (tradable_key i) (submitted_id i));
  reason = reason;
  post_only = intent_post_only i;
  created_at = some created;
  updated_at = some updated;
}

unfoldable pub apply_submitted_intent :
    AccountStore
    → TradableOrderIntent
    → Option String
    → AccountSnapshot
    → String
    → Time
    → Time
    → AccountStore
unfolding submitted_position submitted_id
apply_submitted_intent s i market_slug a reason created updated =
    upsert_position (upsert_order s (submitted_order i reason created updated)) (
      submitted_position i market_slug a
        (get_position a (Intent.condition_id i) (Intent.token_id i)))

-- `sum(order_open_shares(order) or Decimal("0") for order in orders)`
unfoldable pub sum_open_shares : Decimal → List OrderRecord → Decimal
sum_open_shares total [] = total
sum_open_shares total (o ∷ rest) =
    sum_open_shares (add total (amount_or (order_open_shares o) (of_ℕ 0))) rest

-- What the position becomes, if one is written.
unfoldable pub covered :
    AccountSnapshot
    → String
    → String
    → Option String
    → Option String
    → Option String
    → String
    → Option Time
    → Option Position
    → Option Position
unfolding sum_open_shares
covered a condition_id token_id market_slug order_id trade_id status at held =
    let open_buy = sum_open_shares (of_ℕ 0) (open_buy_orders_for_market a condition_id token_id) in
    let open_sell = open_sell_shares_for_market a condition_id token_id in
    let p = get_or held (new_position condition_id token_id (of_ℕ 0) (of_ℕ 0) market_slug) in
    if is_none held && (le open_buy (of_ℕ 0) && le open_sell (of_ℕ 0))
    then none
    else some (record p {
      market_slug = text_or? p.market_slug market_slug;
      open_buy_shares = open_buy;
      open_sell_shares = open_sell;
      pending_buy_shares = open_buy;
      last_order_id = order_id;
      last_trade_id = trade_id;
      confirmation_status = status;
      updated_at = at;
    })

abbrev pub write_covered : AccountStore → Option Position → AccountStore
write_covered s none = s
write_covered s (some p) = upsert_position s p

unfoldable pub refresh_position_coverage :
    AccountStore
    → String
    → String
    → Option String
    → Option String
    → Option String
    → String
    → Option Time
    → AccountStore
unfolding covered
refresh_position_coverage s condition_id token_id market_slug order_id trade_id status at =
    write_covered s (
      covered s.snapshot condition_id token_id market_slug order_id trade_id status at
        (get_position s.snapshot condition_id token_id))
