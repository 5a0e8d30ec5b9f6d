-- ===== src/Runtime/AccountStore.antt =====
-- src/polymarket_trader/runtime/account_state.py: `AccountStateStore`. Each method runs under the
-- store's lock, so it is one step; it returns the store, which holds the published snapshot.
pub mod Invariant
pub mod Reads
use fdv.Base.{
  String, str_append, Bool, true, false, ◌&&◌, not, Option, none, some, List, [], ◌∷◌, get_or,
  or_else, is_none, text_or, text_or?, string_eq, pair_eq, if◌then◌else◌,
}
use fdv.Base.Dict.{Dict, insert, erase, values, index_by}
use fdv.Decimal.{Decimal, of_ℕ}
use fdv.Domain.Order.{OrderRecord, OrderSide, OrderStatus, Time}
use fdv.Domain.Position.{Position}
use fdv.Domain.Account.{
  AccountSnapshot, empty_snapshot, Fill, MarketPause, MarketPauseSource, build_pause,
}

pub record AccountStore : Type 0 where
  pub positions : Dict (String × String) Position
  pub open_orders : Dict String OrderRecord
  pub fills : Dict String Fill
  pub balance_usdc : Decimal
  pub allowance_usdc : Decimal
  pub user_ws_connected : Bool
  pub allow_new_entries : Bool
  pub market_pauses : Dict String MarketPause
  pub last_reconcile_at : Option Time
  pub snapshot : AccountSnapshot

-- The snapshot that the fields give.
abbrev pub view : AccountStore → AccountSnapshot
view s = record {
  balance_usdc = s.balance_usdc;
  allowance_usdc = s.allowance_usdc;
  positions = values s.positions;
  open_orders = values s.open_orders;
  fills = values s.fills;
  user_ws_connected = s.user_ws_connected;
  allow_new_entries = s.allow_new_entries;
  market_pauses = values s.market_pauses;
  last_reconcile_at = s.last_reconcile_at;
}

-- `_publish_snapshot_locked`
abbrev pub publish : AccountStore → AccountStore
publish s = record s { snapshot = view s }

abbrev pub position_key : Position → String × String
position_key p = (p.condition_id, p.token_id)

-- The text of the enumerations, as f-strings print it.
abbrev pub side_text : OrderSide → String
side_text OrderSide.buy = "BUY"
side_text OrderSide.sell = "SELL"

abbrev pub status_text : OrderStatus → String
status_text OrderStatus.created = "created"
status_text OrderStatus.signed = "signed"
status_text OrderStatus.submitted = "submitted"
status_text OrderStatus.cancel_requested = "cancel_requested"
status_text OrderStatus.matched = "matched"
status_text OrderStatus.partially_filled = "partially_filled"
status_text OrderStatus.no_fill = "no_fill"
status_text OrderStatus.live = "live"
status_text OrderStatus.cancelled = "cancelled"
status_text OrderStatus.rejected = "rejected"
status_text OrderStatus.failed = "failed"

-- The key of an order: its id, or its idempotency key, or a text made of what it is about.
unfoldable pub order_key : OrderRecord → String
order_key o = text_or (text_or? o.order_id o.idempotency_key) (
    str_append o.condition_id (
      str_append ":" (
        str_append o.token_id (
          str_append ":" (str_append (side_text o.side) (str_append ":" (status_text o.status)))))))

abbrev pub new_store : AccountStore
new_store = record {
  positions = [];
  open_orders = [];
  fills = [];
  balance_usdc = of_ℕ 0;
  allowance_usdc = of_ℕ 0;
  user_ws_connected = false;
  allow_new_entries = false;
  market_pauses = [];
  last_reconcile_at = none;
  snapshot = empty_snapshot;
}

unfoldable pub update_balances : AccountStore → Option Decimal → Option Decimal → AccountStore
update_balances s balance_usdc allowance_usdc = publish (record s {
  balance_usdc = get_or balance_usdc s.balance_usdc;
  allowance_usdc = get_or allowance_usdc s.allowance_usdc;
})

unfoldable pub upsert_position : AccountStore → Position → AccountStore
upsert_position s p = publish (record s { positions = insert (position_key p) p s.positions })

unfoldable pub replace_positions : AccountStore → List Position → AccountStore
replace_positions s ps = publish (record s { positions = index_by position_key [] ps })

unfoldable pub upsert_order : AccountStore → OrderRecord → AccountStore
upsert_order s o = publish (record s { open_orders = insert (order_key o) o s.open_orders })

unfoldable pub remove_order : AccountStore → String → AccountStore
remove_order s order_id = publish (record s { open_orders = erase order_id s.open_orders })

unfoldable pub replace_open_orders : AccountStore → List OrderRecord → AccountStore
replace_open_orders s orders = publish (record s { open_orders = index_by order_key [] orders })

unfoldable pub record_fill : AccountStore → Fill → AccountStore
record_fill s f = publish (record s { fills = insert f.event_id f s.fills })

unfoldable pub replace_fills : AccountStore → List Fill → AccountStore
replace_fills s fs = publish (record s { fills = index_by (λ f. f.event_id) [] fs })

-- `_entry_gate_can_open_locked`
abbrev pub entry_gate_can_open : AccountStore → Bool
entry_gate_can_open s = s.user_ws_connected && not (is_none s.last_reconcile_at)

unfoldable pub mark_user_ws_connected : AccountStore → Bool → AccountStore
mark_user_ws_connected s connected =
    if connected
    then publish (record s {
      user_ws_connected = true;
      allow_new_entries = not (is_none s.last_reconcile_at);
    })
    else publish (record s {
      user_ws_connected = false;
      last_reconcile_at = none;
      allow_new_entries = false;
    })

unfoldable pub set_allow_new_entries : AccountStore → Bool → AccountStore
set_allow_new_entries s allowed =
    publish (record s { allow_new_entries = allowed && entry_gate_can_open s })

unfoldable pub pause_market :
    AccountStore → String → String → Option MarketPauseSource → Option Bool → AccountStore
pause_market s condition_id reason source recoverable = publish (record s {
  market_pauses =
      insert condition_id (build_pause condition_id reason source recoverable) s.market_pauses;
})

unfoldable pub resume_market : AccountStore → String → AccountStore
resume_market s condition_id =
    publish (record s { market_pauses = erase condition_id s.market_pauses })

-- `now` is what `_utc_now()` reads.
unfoldable pub mark_reconciled : AccountStore → Option Time → Time → AccountStore
mark_reconciled s reconciled_at now = publish (record s {
  last_reconcile_at = some (get_or reconciled_at now);
  allow_new_entries = s.user_ws_connected;
})

-- The calls that workers make, in any order.
pub data StoreCall : Type 0 where
  balances : Option Decimal → Option Decimal → StoreCall
  position : Position → StoreCall
  all_positions : List Position → StoreCall
  order : OrderRecord → StoreCall
  drop_order : String → StoreCall
  all_orders : List OrderRecord → StoreCall
  fill : Fill → StoreCall
  all_fills : List Fill → StoreCall
  connection : Bool → StoreCall
  entries : Bool → StoreCall
  pause : String → String → Option MarketPauseSource → Option Bool → StoreCall
  resume : String → StoreCall
  reconciled : Option Time → Time → StoreCall

unfoldable pub store_step : AccountStore → StoreCall → AccountStore
store_step s (balances b a) = update_balances s b a
store_step s (position p) = upsert_position s p
store_step s (all_positions ps) = replace_positions s ps
store_step s (order o) = upsert_order s o
store_step s (drop_order k) = remove_order s k
store_step s (all_orders os) = replace_open_orders s os
store_step s (fill f) = record_fill s f
store_step s (all_fills fs) = replace_fills s fs
store_step s (connection b) = mark_user_ws_connected s b
store_step s (entries b) = set_allow_new_entries s b
store_step s (pause c reason source r) = pause_market s c reason source r
store_step s (resume c) = resume_market s c
store_step s (reconciled at now) = mark_reconciled s at now

unfoldable pub store_run : AccountStore → List StoreCall → AccountStore
store_run s [] = s
store_run s (c ∷ cs) = store_run (store_step s c) cs
