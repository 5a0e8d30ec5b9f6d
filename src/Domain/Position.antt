-- ===== src/Domain/Position.antt =====
-- src/polymarket_trader/domain/position.py: a holding and what is open against it.
use fdv.Base.{String, Option, or_else}
use fdv.Decimal.{Decimal}
use fdv.Domain.Order.{Time}

pub record Position : Type 0 where
  pub condition_id : String
  pub token_id : String
  pub shares : Decimal
  pub cost_usdc : Decimal
  pub market_slug : Option String
  pub open_buy_shares : Decimal
  pub open_sell_shares : Decimal
  pub pending_buy_shares : Decimal
  pub confirmed_shares : Decimal
  pub last_order_id : Option String
  pub last_trade_id : Option String
  pub confirmation_status : String
  pub updated_at : Option Time

abbrev pub with_open_buy_shares : Position → Decimal → Position
with_open_buy_shares p shares = record p { open_buy_shares = shares }

abbrev pub with_open_sell_shares : Position → Decimal → Position
with_open_sell_shares p shares = record p { open_sell_shares = shares }

abbrev pub with_pending_buy_shares : Position → Decimal → Position
with_pending_buy_shares p shares = record p { pending_buy_shares = shares }

unfoldable pub with_confirmation :
    Position → Decimal → String → Option String → Option String → Option Time → Position
with_confirmation p confirmed_shares confirmation_status last_order_id last_trade_id updated_at =
    record p {
      confirmed_shares = confirmed_shares;
      confirmation_status = confirmation_status;
      last_order_id = or_else last_order_id p.last_order_id;
      last_trade_id = or_else last_trade_id p.last_trade_id;
      updated_at = or_else updated_at p.updated_at;
    }
