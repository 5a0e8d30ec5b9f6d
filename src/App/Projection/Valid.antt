-- ===== src/App/Projection/Valid.antt =====
-- Every projection leaves the account store valid.
use fdv.Base.{String, Bool, true, false, Option, none, some, inl, inr, Bool-cases, if◌then◌else◌}
use fdv.Domain.Order.{Time, OrderResult, OrderRecord, SellOrderIntent, TradableOrderIntent}
use fdv.Domain.Market.{Market}
use fdv.Domain.Position.{Position}
use fdv.Domain.Account.{AccountSnapshot, MarketPauseSource}
use fdv.Runtime.AccountStore.{
  AccountStore, order_key, balances, position, order, drop_order, entries, pause, store_step,
  upsert_position, upsert_order, remove_order, set_allow_new_entries,
}
use fdv.Runtime.AccountStore.Invariant.{StoreValid, store_step-StoreValid}
use fdv.App.Projection.Amounts.{has_unexpected_resting_order, rests, order_result_to_order_status}
use fdv.App.Projection.Apply.{
  refresh_balances_from, settles_buy, write_bought, apply_buy_result, settles_sell, sell_remaining,
  sell_order_id, sell_order, write_sold, apply_sell_result, is_refused, flag_resting, flag_refused,
  apply_result_flags,
}
use fdv.App.Projection.Manage.{apply_submitted_intent, write_covered, refresh_position_coverage}
use fdv.App.Projection.Replace.{
  is_replacement, replacement_order, write_replacement, apply_replace_result,
}

pub data ProjectorCall : Type 0 where
  buy_result : OrderResult → Option AccountSnapshot → Time → ProjectorCall
  sell_result : OrderResult → Option AccountSnapshot → SellOrderIntent → Time → ProjectorCall
  result_flags : OrderResult → Option AccountSnapshot → ProjectorCall
  submitted :
      TradableOrderIntent → Option String → AccountSnapshot → String → Time → Time → ProjectorCall
  replaced : Market → OrderRecord → OrderResult → String → String → ProjectorCall

unfoldable pub projector_step : ProjectorCall → AccountStore → AccountStore
unfolding apply_buy_result apply_sell_result apply_result_flags apply_submitted_intent
    apply_replace_result
projector_step (buy_result r a now) s = apply_buy_result s r a now
projector_step (sell_result r a intent now) s = apply_sell_result s r a intent now
projector_step (result_flags r a) s = apply_result_flags s r a
projector_step (submitted i slug a reason created updated) s =
    apply_submitted_intent s i slug a reason created updated
projector_step (replaced m source r operator reason) s =
    apply_replace_result s m source r operator reason

pub position-StoreValid :
    (s : AccountStore) (p : Position) → StoreValid s → StoreValid (upsert_position s p)
unfolding store_step
position-StoreValid s p v = store_step-StoreValid s (position p) v

pub order-StoreValid :
    (s : AccountStore) (o : OrderRecord) → StoreValid s → StoreValid (upsert_order s o)
unfolding store_step
order-StoreValid s o v = store_step-StoreValid s (order o) v

pub remove-StoreValid :
    (s : AccountStore) (k : String) → StoreValid s → StoreValid (remove_order s k)
unfolding store_step
remove-StoreValid s k v = store_step-StoreValid s (drop_order k) v

entries-StoreValid :
    (s : AccountStore) (b : Bool) → StoreValid s → StoreValid (set_allow_new_entries s b)
unfolding store_step
entries-StoreValid s b v = store_step-StoreValid s (entries b) v

pub refresh-StoreValid :
    (s : AccountStore) (a : Option AccountSnapshot)
    → StoreValid s
    → StoreValid (refresh_balances_from s a)
unfolding refresh_balances_from store_step
refresh-StoreValid s none v = v
refresh-StoreValid s (some a) v =
    store_step-StoreValid s (balances (some a.balance_usdc) (some a.allowance_usdc)) v

pub write_bought-StoreValid :
    (s : AccountStore) (a : Option AccountSnapshot) (p : Option Position)
    → StoreValid s
    → StoreValid (write_bought s a p)
write_bought-StoreValid s a none v = v
write_bought-StoreValid s a (some p) v =
    refresh-StoreValid (upsert_position s p) a (position-StoreValid s p v)

write_sold-StoreValid :
    (s : AccountStore) (r : OrderResult) (i : SellOrderIntent) (now : Time) (p : Option Position)
    → StoreValid s
    → StoreValid (write_sold s r i now p)
unfolding write_sold
write_sold-StoreValid s r i now none v = v
write_sold-StoreValid s r i now (some p) v =
    position-StoreValid _ _
      (elim (rests r.status)
        as (λ b. StoreValid (
          if b
          then upsert_order s (sell_order r i p (sell_remaining r i))
          else remove_order s (sell_order_id r i))) [
            | true ↦ order-StoreValid s _ v
            | false ↦ remove-StoreValid s _ v
          ])

pub flag_resting-StoreValid :
    (s : AccountStore) (r : OrderResult) → StoreValid s → StoreValid (flag_resting s r)
unfolding flag_resting store_step
flag_resting-StoreValid s r v = elim (Bool-cases (has_unexpected_resting_order r)) [
  | inr k ↦ rw k v
  | inl k ↦ rw k (
      store_step-StoreValid (set_allow_new_entries s false)
        (pause r.condition_id "unexpected_resting_order" (some MarketPauseSource.risk) none)
        (entries-StoreValid s false v))
]

flag_refused-StoreValid :
    (s : AccountStore) (r : OrderResult) → StoreValid s → StoreValid (flag_refused s r)
unfolding flag_refused
flag_refused-StoreValid s r v = elim (Bool-cases (is_refused r.status)) [
  | inl k ↦ rw k (entries-StoreValid s true v)
  | inr k ↦ rw k v
]

write_covered-StoreValid :
    (s : AccountStore) (p : Option Position) → StoreValid s → StoreValid (write_covered s p)
write_covered-StoreValid s none v = v
write_covered-StoreValid s (some p) v = position-StoreValid s p v

pub write_replacement-StoreValid :
    (s : AccountStore) (m : Market) (source : OrderRecord) (r : OrderResult)
    (operator reason : String)
    → StoreValid s
    → StoreValid (write_replacement s m source r operator reason)
unfolding write_replacement
write_replacement-StoreValid s m source r operator reason v =
    elim (is_replacement (order_result_to_order_status r.status))
      as (λ b.
        StoreValid
          (if b then upsert_order s (replacement_order m source r operator reason) else s)) [
            | true ↦ order-StoreValid s _ v
            | false ↦ v
          ]

pub projector_step-StoreValid :
    (c : ProjectorCall) (s : AccountStore) → StoreValid s → StoreValid (projector_step c s)
unfolding projector_step apply_buy_result apply_sell_result apply_result_flags
    apply_submitted_intent apply_replace_result refresh_position_coverage
projector_step-StoreValid (buy_result r a now) s v = elim (Bool-cases (settles_buy r.status)) [
  | inl k ↦ rw k (write_bought-StoreValid s a _ v)
  | inr k ↦ rw k v
]
projector_step-StoreValid (sell_result r a i now) s v = elim (Bool-cases (settles_sell r.status)) [
  | inl k ↦ rw k (write_sold-StoreValid s r i now _ v)
  | inr k ↦ rw k v
]
projector_step-StoreValid (result_flags r a) s v =
    refresh-StoreValid _ a (flag_refused-StoreValid _ r (flag_resting-StoreValid s r v))
projector_step-StoreValid (submitted i slug a reason created updated) s v =
    position-StoreValid _ _ (order-StoreValid s _ v)
projector_step-StoreValid (replaced m source r operator reason) s v = write_covered-StoreValid _ _ (
    write_replacement-StoreValid (remove_order s (order_key source)) m source r operator reason
      (remove-StoreValid s _ v))
