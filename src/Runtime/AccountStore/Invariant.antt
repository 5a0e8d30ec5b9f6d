-- ===== src/Runtime/AccountStore/Invariant.antt =====
-- What holds of the store after any sequence of calls.
use fdv.Base.{
  String, Bool, true, false, ◌≡◌, refl, ◌≢◌, Option, none, List, [], ◌∷◌, arith, string_eq, pair_eq,
}
use fdv.Base.Dict.{KeyedBy, insert-KeyedBy, erase-KeyedBy, index_by-KeyedBy}
use fdv.Domain.Account.{MarketPauseSource, build_pause}
use fdv.Runtime.AccountStore.{
  AccountStore, view, position_key, order_key, new_store, update_balances, upsert_position,
  replace_positions, upsert_order, remove_order, replace_open_orders, record_fill, replace_fills,
  mark_user_ws_connected, set_allow_new_entries, pause_market, resume_market, mark_reconciled,
  StoreCall, balances, position, all_positions, order, drop_order, all_orders, fill, all_fills,
  connection, entries, pause, resume, reconciled, store_step, store_run,
}

-- New entries are let in only with the user channel up and a reconcile noted.
abbrev pub GateHolds : AccountStore → Type 0
GateHolds s =
    s.allow_new_entries ≡ true → (s.user_ws_connected ≡ true) × (s.last_reconcile_at ≢ none)

pub record StoreValid (s : AccountStore) : Type 0 where
  pub gate : GateHolds s
  pub published : s.snapshot ≡ view s
  pub positions_keyed : KeyedBy position_key s.positions
  pub orders_keyed : KeyedBy order_key s.open_orders
  pub fills_keyed : KeyedBy (λ f. f.event_id) s.fills
  pub pauses_keyed : KeyedBy (λ p. p.condition_id) s.market_pauses

pub new_store-StoreValid : StoreValid new_store
new_store-StoreValid = record {
  gate = λ e. cc;
  published = refl;
  positions_keyed = tt;
  orders_keyed = tt;
  fills_keyed = tt;
  pauses_keyed = tt;
}

build_pause-condition :
    (c reason : String) (source : Option MarketPauseSource) (r : Option Bool)
    → c ≡ (build_pause c reason source r).condition_id
unfolding build_pause
build_pause-condition c reason source r = refl

connection-StoreValid :
    (s : AccountStore) (b : Bool) → StoreValid s → StoreValid (mark_user_ws_connected s b)
unfolding mark_user_ws_connected
connection-StoreValid s true v = ground arith
connection-StoreValid s false v = ground arith

-- Every call of the store keeps it valid: the entry gate is closed unless the user channel is up and
-- a reconcile has been noted, the published snapshot shows the fields, and each dict is keyed by what
-- its values say.
pub store_step-StoreValid :
    (s : AccountStore) (c : StoreCall) → StoreValid s → StoreValid (store_step s c)
unfolding store_step update_balances upsert_position replace_positions upsert_order remove_order
    replace_open_orders record_fill replace_fills set_allow_new_entries pause_market resume_market
    mark_reconciled
store_step-StoreValid s (balances b a) v = record {
  gate = v.gate;
  published = refl;
  positions_keyed = v.positions_keyed;
  orders_keyed = v.orders_keyed;
  fills_keyed = v.fills_keyed;
  pauses_keyed = v.pauses_keyed;
}
store_step-StoreValid s (position p) v = record {
  gate = v.gate;
  published = refl;
  positions_keyed = insert-KeyedBy position_key _ p s.positions refl v.positions_keyed;
  orders_keyed = v.orders_keyed;
  fills_keyed = v.fills_keyed;
  pauses_keyed = v.pauses_keyed;
}
store_step-StoreValid s (all_positions ps) v = record {
  gate = v.gate;
  published = refl;
  positions_keyed = index_by-KeyedBy position_key [] ps tt;
  orders_keyed = v.orders_keyed;
  fills_keyed = v.fills_keyed;
  pauses_keyed = v.pauses_keyed;
}
store_step-StoreValid s (order o) v = record {
  gate = v.gate;
  published = refl;
  positions_keyed = v.positions_keyed;
  orders_keyed = insert-KeyedBy order_key _ o s.open_orders refl v.orders_keyed;
  fills_keyed = v.fills_keyed;
  pauses_keyed = v.pauses_keyed;
}
store_step-StoreValid s (drop_order k) v = record {
  gate = v.gate;
  published = refl;
  positions_keyed = v.positions_keyed;
  orders_keyed = erase-KeyedBy order_key k s.open_orders v.orders_keyed;
  fills_keyed = v.fills_keyed;
  pauses_keyed = v.pauses_keyed;
}
store_step-StoreValid s (all_orders os) v = record {
  gate = v.gate;
  published = refl;
  positions_keyed = v.positions_keyed;
  orders_keyed = index_by-KeyedBy order_key [] os tt;
  fills_keyed = v.fills_keyed;
  pauses_keyed = v.pauses_keyed;
}
store_step-StoreValid s (fill f) v = record {
  gate = v.gate;
  published = refl;
  positions_keyed = v.positions_keyed;
  orders_keyed = v.orders_keyed;
  fills_keyed = insert-KeyedBy (λ x. x.event_id) _ f s.fills refl v.fills_keyed;
  pauses_keyed = v.pauses_keyed;
}
store_step-StoreValid s (all_fills fs) v = record {
  gate = v.gate;
  published = refl;
  positions_keyed = v.positions_keyed;
  orders_keyed = v.orders_keyed;
  fills_keyed = index_by-KeyedBy (λ x. x.event_id) [] fs tt;
  pauses_keyed = v.pauses_keyed;
}
store_step-StoreValid s (connection b) v = connection-StoreValid s b v
store_step-StoreValid s (entries b) v = ground arith
store_step-StoreValid s (pause c reason source r) v = record {
  gate = v.gate;
  published = refl;
  positions_keyed = v.positions_keyed;
  orders_keyed = v.orders_keyed;
  fills_keyed = v.fills_keyed;
  pauses_keyed =
      insert-KeyedBy (λ x. x.condition_id) _ _ s.market_pauses
        (build_pause-condition c reason source r) v.pauses_keyed;
}
store_step-StoreValid s (resume c) v = record {
  gate = v.gate;
  published = refl;
  positions_keyed = v.positions_keyed;
  orders_keyed = v.orders_keyed;
  fills_keyed = v.fills_keyed;
  pauses_keyed = erase-KeyedBy (λ x. x.condition_id) c s.market_pauses v.pauses_keyed;
}
store_step-StoreValid s (reconciled at now) v = ground arith

-- After any calls on a new store it is valid.
pub store_run-StoreValid :
    (s : AccountStore) (cs : List StoreCall) → StoreValid s → StoreValid (store_run s cs)
unfolding store_run
store_run-StoreValid s [] v = v
store_run-StoreValid s (c ∷ cs) v =
    store_run-StoreValid (store_step s c) cs (store_step-StoreValid s c v)
