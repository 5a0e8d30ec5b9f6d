-- ===== src/App/Projection/Amounts.antt =====
-- app/order_projection.py: the amounts and texts that are read off a result or an order.
use fdv.Base.{
  String, Bool, true, false, ◌&&◌, Option, none, some, find_by, nat_beq, if◌then◌else◌, same_text?,
  is_none, text_or?,
}
use fdv.Base.Integer.{magnitude}
use fdv.Decimal.{Decimal, of_ℕ, sub, mul, div, lt, le, max_of}
use fdv.Domain.Order.{
  OrderResult, OrderResultStatus, OrderStatus, OrderRecord, ManagedOrderIntent, buying, selling,
  trading, cancelling, replacing, is_fak,
}
use fdv.Domain.Account.{AccountSnapshot, open_orders_for_market}

-- `a or b` for amounts: an amount of zero gives way.
abbrev pub is_zero : Decimal → Bool
is_zero d = nat_beq (magnitude d.coef) 0

abbrev pub amount_or : Option Decimal → Decimal → Decimal
amount_or none d = d
amount_or (some a) d = if is_zero a then d else a

abbrev pub amount_or? : Option Decimal → Option Decimal → Option Decimal
amount_or? none d = d
amount_or? (some a) d = if is_zero a then d else some a

unfoldable pub order_result_to_order_status : OrderResultStatus → OrderStatus
order_result_to_order_status OrderResultStatus.full_fill = OrderStatus.matched
order_result_to_order_status OrderResultStatus.partial_fill = OrderStatus.partially_filled
order_result_to_order_status OrderResultStatus.no_fill = OrderStatus.no_fill
order_result_to_order_status OrderResultStatus.live = OrderStatus.live
order_result_to_order_status OrderResultStatus.rejected = OrderStatus.rejected
order_result_to_order_status OrderResultStatus.failed = OrderStatus.failed
order_result_to_order_status OrderResultStatus.cancelled = OrderStatus.cancelled
order_result_to_order_status OrderResultStatus.unknown_timeout = OrderStatus.failed

-- `order_status_to_text`, which is also `str` of the status.
abbrev pub order_status_to_text : OrderResultStatus → String
order_status_to_text OrderResultStatus.full_fill = "full_fill"
order_status_to_text OrderResultStatus.partial_fill = "partial_fill"
order_status_to_text OrderResultStatus.no_fill = "no_fill"
order_status_to_text OrderResultStatus.live = "live"
order_status_to_text OrderResultStatus.rejected = "rejected"
order_status_to_text OrderResultStatus.failed = "failed"
order_status_to_text OrderResultStatus.cancelled = "cancelled"
order_status_to_text OrderResultStatus.unknown_timeout = "unknown_timeout"

-- `max(x, Decimal("0"))`
abbrev pub at_least_zero : Decimal → Decimal
at_least_zero d = max_of d (of_ℕ 0)

unfoldable pub order_open_shares : OrderRecord → Option Decimal
order_open_shares o = elim o.remaining_shares [
  | some remaining ↦ some (at_least_zero remaining)
  | none ↦ elim o.size_shares [ some size ↦ some (at_least_zero size) | none ↦ none ]
]

unfoldable pub order_open_size : OrderRecord → Decimal
unfolding order_open_shares
order_open_size o = elim (order_open_shares o) [
  | some shares ↦ shares
  | none ↦ elim o.amount_usdc [ some amount ↦ at_least_zero amount | none ↦ of_ℕ 0 ]
]

-- The notional over the price, where both are positive.
abbrev pub shares_for : Decimal → Option Decimal → Decimal
shares_for notional none = of_ℕ 0
shares_for notional (some price) =
    if lt (of_ℕ 0) notional && lt (of_ℕ 0) price then div notional price else of_ℕ 0

unfoldable pub filled_shares : OrderResult → Decimal
filled_shares r =
    if lt (of_ℕ 0) r.matched_shares then r.matched_shares else elim r.requested_size_shares [
      | some size ↦ sub size r.remaining_shares
      | none ↦ shares_for r.notional_usdc r.price
    ]

abbrev pub cost_at : Option Decimal → Decimal → Decimal
cost_at none matched = of_ℕ 0
cost_at (some price) matched = if lt (of_ℕ 0) matched then mul price matched else of_ℕ 0

unfoldable pub spent_usdc : OrderResult → Decimal
spent_usdc r = if lt (of_ℕ 0) r.spent_usdc then r.spent_usdc else cost_at r.price r.matched_shares

unfoldable pub released_budget : OrderResult → Decimal
released_budget r =
    let released = sub (amount_or r.requested_amount_usdc r.notional_usdc) r.spent_usdc in
    if lt released (of_ℕ 0) then of_ℕ 0 else released

abbrev pub is_live : OrderResultStatus → Bool
is_live OrderResultStatus.live = true
is_live _ = false

-- `has_resting_order` is `status == LIVE` as well.
unfoldable pub has_unexpected_resting_order : OrderResult → Bool
has_unexpected_resting_order r = elim r.order_type [
  | none ↦ false
  | some t ↦ is_fak t && is_live r.status
]

abbrev pub find_open_order :
    Option AccountSnapshot → String → String → Option String → Option OrderRecord
find_open_order none condition_id token_id order_id = none
find_open_order (some s) condition_id token_id none = none
find_open_order (some s) condition_id token_id (some order_id) =
    find_by (λ o. same_text? (text_or? o.order_id o.idempotency_key) (some order_id))
      (open_orders_for_market s condition_id token_id)

abbrev pub intent_key : ManagedOrderIntent → Option String
intent_key (trading (buying i)) = i.idempotency_key
intent_key (trading (selling i)) = i.idempotency_key
intent_key (cancelling i) = i.idempotency_key
intent_key (replacing i) = i.idempotency_key

-- `getattr(result.intent, "idempotency_key", None)`
abbrev pub key_of_intent : Option ManagedOrderIntent → Option String
key_of_intent none = none
key_of_intent (some i) = intent_key i

abbrev pub is_order_of : OrderResult → OrderRecord → Bool
is_order_of r o =
    if same_text? o.order_id r.order_id
    then true
    else is_none r.order_id && same_text? o.idempotency_key (key_of_intent r.intent)

abbrev pub size_of_found : Option OrderRecord → Decimal
size_of_found none = of_ℕ 0
size_of_found (some o) = amount_or o.remaining_shares (amount_or o.size_shares (of_ℕ 0))

-- `_existing_order_size`, whose caller always has a snapshot.
unfoldable pub existing_order_size : AccountSnapshot → OrderResult → Decimal
existing_order_size s r =
    size_of_found (find_by (is_order_of r) (open_orders_for_market s r.condition_id r.token_id))

-- `_replacement_remaining`
abbrev pub rests : OrderResultStatus → Bool
rests OrderResultStatus.live = true
rests OrderResultStatus.partial_fill = true
rests _ = false

abbrev pub remaining_of_size : Option Decimal → OrderResult → Decimal
remaining_of_size none r = r.remaining_shares
remaining_of_size (some size) r =
    if rests r.status && le r.remaining_shares (of_ℕ 0)
    then at_least_zero (sub size r.matched_shares)
    else r.remaining_shares

unfoldable pub replacement_remaining : OrderResult → Option Decimal → Decimal
replacement_remaining r size =
    let remaining = remaining_of_size size r in if lt remaining (of_ℕ 0) then of_ℕ 0 else remaining
