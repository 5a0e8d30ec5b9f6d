-- ===== src/Domain/Intent.antt =====
-- src/polymarket_trader/domain/order.py: the attributes that both kinds of tradable intent have, as
-- fields or as properties.
use fdv.Base.{String, Option, none, some}
use fdv.Decimal.{Decimal, mul}
use fdv.Domain.Order.{OrderSide, TradableOrderIntent, buying, selling}

abbrev pub trace_id : TradableOrderIntent → String
trace_id (buying i) = i.trace_id
trace_id (selling i) = i.trace_id

abbrev pub condition_id : TradableOrderIntent → String
condition_id (buying i) = i.condition_id
condition_id (selling i) = i.condition_id

abbrev pub token_id : TradableOrderIntent → String
token_id (buying i) = i.token_id
token_id (selling i) = i.token_id

abbrev pub price : TradableOrderIntent → Decimal
price (buying i) = i.price
price (selling i) = i.price

abbrev pub side : TradableOrderIntent → OrderSide
side (buying i) = OrderSide.buy
side (selling i) = OrderSide.sell

abbrev pub amount_usdc : TradableOrderIntent → Option Decimal
amount_usdc (buying i) = some i.amount_usdc
amount_usdc (selling i) = none

abbrev pub size_shares : TradableOrderIntent → Option Decimal
size_shares (buying i) = none
size_shares (selling i) = some i.size_shares

abbrev pub notional_usdc : TradableOrderIntent → Decimal
notional_usdc (buying i) = i.amount_usdc
notional_usdc (selling i) = mul i.price i.size_shares
