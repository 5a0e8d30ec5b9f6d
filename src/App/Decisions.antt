-- ===== src/App/Decisions.antt =====
-- extension_api/decisions.py and app/extension_intent_builder.py: the decisions of a strategy, and the
-- intents that they become. The metadata of a decision is left out.
use fdv.Base.{
  String, Bool, false, Option, none, some, List, get_or, text_or?, if◌then◌else◌, string_eq, ◌==◌,
}
use fdv.Decimal.{Decimal, of_ℕ, le}
use fdv.Base.Integer.{pos}
use fdv.Domain.Order.{
  OrderType, TradableOrderIntent, buying, selling, ManagedOrderIntent, trading, cancelling,
  replacing,
}
use fdv.Domain.Market.{Market}

pub data ExtensionAction : Type 0 where
  skip buy sell cancel replace : ExtensionAction

pub record ExtensionDecision : Type 0 where
  pub action : ExtensionAction
  pub reason : String
  pub token_id : Option String
  pub price : Option Decimal
  pub amount_usdc : Option Decimal
  pub size_shares : Option Decimal
  pub order_id : Option String
  pub order_type : Option OrderType
  pub market_slug : Option String

pub record RecoveryDecision : Type 0 where
  pub reason : String
  pub actions : List ExtensionDecision
  pub pause_trading : Bool
  pub pause_reason : String

-- An amount that a decision names, if it is positive.
abbrev pub positive : Option Decimal → Option Decimal
positive none = none
positive (some d) = if le d (of_ℕ 0) then none else some d

-- What the four kinds of intent share.
pub record IntentHead : Type 0 where
  pub trace_id : String
  pub condition_id : String
  pub token_id : String
  pub market_slug : Option String

abbrev pub buy_intent :
    IntentHead → Option OrderType → Option Decimal → Option Decimal → Option ManagedOrderIntent
buy_intent h order_type (some price) (some amount) = some (
    trading (
      buying (record {
        trace_id = h.trace_id;
        condition_id = h.condition_id;
        token_id = h.token_id;
        price = price;
        amount_usdc = amount;
        market_slug = h.market_slug;
        order_type = get_or order_type OrderType.fak;
        idempotency_key = none;
        post_only = false;
        retry_count = pos 0;
      })))
buy_intent h order_type (some price) none = none
buy_intent h order_type none amount = none

abbrev pub sell_intent :
    IntentHead → Option OrderType → Option Decimal → Option Decimal → Option ManagedOrderIntent
sell_intent h order_type (some price) (some size) = some (
    trading (
      selling (record {
        trace_id = h.trace_id;
        condition_id = h.condition_id;
        token_id = h.token_id;
        price = price;
        size_shares = size;
        market_slug = h.market_slug;
        order_type = get_or order_type OrderType.gtc;
        idempotency_key = none;
        post_only = false;
        retry_count = pos 0;
      })))
sell_intent h order_type (some price) none = none
sell_intent h order_type none size = none

abbrev pub cancel_intent : IntentHead → String → Option String → Option ManagedOrderIntent
cancel_intent h reason none = none
cancel_intent h reason (some order_id) =
    if order_id == ""
    then none
    else some (
        cancelling (record {
          trace_id = h.trace_id;
          condition_id = h.condition_id;
          token_id = h.token_id;
          order_id = order_id;
          market_slug = h.market_slug;
          idempotency_key = none;
          reason = reason;
        }))

abbrev pub replacement : IntentHead → String → String → Decimal → Decimal → ManagedOrderIntent
replacement h reason order_id price size = replacing (record {
  trace_id = h.trace_id;
  condition_id = h.condition_id;
  token_id = h.token_id;
  order_id = order_id;
  new_price = price;
  size_shares = size;
  market_slug = h.market_slug;
  idempotency_key = none;
  reason = reason;
})

abbrev pub replace_intent :
    IntentHead
    → String
    → Option String
    → Option Decimal
    → Option Decimal
    → Option ManagedOrderIntent
replace_intent h reason (some order_id) (some price) (some size) =
    if order_id == "" then none else some (replacement h reason order_id price size)
replace_intent h reason (some order_id) (some price) none = none
replace_intent h reason (some order_id) none size = none
replace_intent h reason none price size = none

abbrev pub intent_for : IntentHead → ExtensionDecision → ExtensionAction → Option ManagedOrderIntent
intent_for h d ExtensionAction.buy = buy_intent h d.order_type d.price (positive d.amount_usdc)
intent_for h d ExtensionAction.sell = sell_intent h d.order_type d.price (positive d.size_shares)
intent_for h d ExtensionAction.cancel = cancel_intent h d.reason d.order_id
intent_for h d ExtensionAction.replace =
    replace_intent h d.reason d.order_id d.price (positive d.size_shares)
intent_for h d ExtensionAction.skip = none

abbrev pub intent_with_token :
    String → String → Option String → ExtensionDecision → Option String → Option ManagedOrderIntent
intent_with_token trace_id condition_id market_slug d none = none
intent_with_token trace_id condition_id market_slug d (some token_id) =
    intent_for
      (record {
        trace_id = trace_id;
        condition_id = condition_id;
        token_id = token_id;
        market_slug = text_or? d.market_slug market_slug;
      })
      d d.action

-- `decision_to_managed_intent`
unfoldable pub decision_to_managed_intent :
    String → String → Option String → Option String → ExtensionDecision → Option ManagedOrderIntent
decision_to_managed_intent trace_id condition_id market_slug default_token_id d =
    intent_with_token trace_id condition_id market_slug d (text_or? d.token_id default_token_id)

abbrev pub tradable : Option ManagedOrderIntent → Option TradableOrderIntent
tradable none = none
tradable (some (trading i)) = some i
tradable (some (cancelling i)) = none
tradable (some (replacing i)) = none

-- `decision_to_trade_intent`
unfoldable pub decision_to_trade_intent :
    String → Market → Option String → ExtensionDecision → Option TradableOrderIntent
unfolding decision_to_managed_intent
decision_to_trade_intent trace_id m default_token_id d =
    tradable
      (decision_to_managed_intent trace_id m.condition_id (some m.market_slug) default_token_id d)
