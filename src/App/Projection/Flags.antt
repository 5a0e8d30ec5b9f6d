-- ===== src/App/Projection/Flags.antt =====
-- What a result's flags and fills show to readers of the account.
use fdv.Base.{
  String, true, false, ◌≡◌, refl, ap, Option, none, some, is_none, string_eq, pair_eq, arith,
}
use fdv.Base.Dict.{lookup, lookup-insert_self}
use fdv.Domain.Order.{OrderResult, OrderResultStatus}
use fdv.Domain.Account.{AccountSnapshot, is_market_paused}
use fdv.Runtime.AccountStore.{AccountStore, update_balances, set_allow_new_entries, pause_market}
use fdv.Runtime.AccountStore.Invariant.{StoreValid}
use fdv.Runtime.AccountStore.Reads.{pause_for_market-lookup}
use fdv.App.Projection.Amounts.{is_live, has_unexpected_resting_order}
use fdv.App.Projection.Apply.{
  refresh_balances_from, is_refused, flag_resting, flag_refused, apply_result_flags,
}
use fdv.App.Projection.Valid.{flag_resting-StoreValid, refresh-StoreValid}

refused_of_live : (s : OrderResultStatus) → is_live s ≡ true → is_refused s ≡ false
refused_of_live OrderResultStatus.live h = refl
refused_of_live OrderResultStatus.full_fill h = refl
refused_of_live OrderResultStatus.partial_fill h = refl
refused_of_live OrderResultStatus.no_fill h = refl
refused_of_live OrderResultStatus.rejected h = cc
refused_of_live OrderResultStatus.failed h = cc
refused_of_live OrderResultStatus.cancelled h = refl
refused_of_live OrderResultStatus.unknown_timeout h = cc

unexpected_live :
    (r : OrderResult) → has_unexpected_resting_order r ≡ true → is_live r.status ≡ true
unfolding has_unexpected_resting_order
unexpected_live r h = ground arith

-- A store in which a market is paused and the entry gate is shut.
abbrev Halted : String → AccountStore → Type 0
Halted c s = (s.allow_new_entries ≡ false) × (is_none (lookup c s.market_pauses) ≡ false)

refresh-Halted :
    (c : String) (s : AccountStore) (a : Option AccountSnapshot)
    → Halted c s
    → Halted c (refresh_balances_from s a)
unfolding refresh_balances_from update_balances
refresh-Halted c s none h = h
refresh-Halted c s (some a) h = h

flag_resting-Halted :
    (s : AccountStore) (r : OrderResult)
    → has_unexpected_resting_order r ≡ true
    → Halted r.condition_id (flag_resting s r)
unfolding flag_resting pause_market set_allow_new_entries
flag_resting-Halted s r h =
    rw h (refl, ap is_none (lookup-insert_self r.condition_id _ s.market_pauses))

paused_of_pauses :
    (s : AccountStore) (c : String)
    → StoreValid s
    → is_none (lookup c s.market_pauses) ≡ false
    → is_market_paused s.snapshot c ≡ true
unfolding is_market_paused
paused_of_pauses s c v h = rw (pause_for_market-lookup s c v, h) refl

-- When a FAK order rests on the book although it may not, the flags of its result shut the entry gate
-- and pause its market for all readers of the account.
pub apply_result_flags-resting :
    (s : AccountStore) (r : OrderResult) (a : Option AccountSnapshot)
    → StoreValid s
    → has_unexpected_resting_order r ≡ true
    → ((apply_result_flags s r a).allow_new_entries ≡ false)
      × (is_market_paused (apply_result_flags s r a).snapshot r.condition_id ≡ true)
unfolding apply_result_flags flag_refused
apply_result_flags-resting s r a v h = rw (refused_of_live r.status (unexpected_live r h)) (
  (refresh-Halted r.condition_id (flag_resting s r) a (flag_resting-Halted s r h)).0,
  paused_of_pauses (refresh_balances_from (flag_resting s r) a) r.condition_id
      (refresh-StoreValid (flag_resting s r) a (flag_resting-StoreValid s r v))
      (refresh-Halted r.condition_id (flag_resting s r) a (flag_resting-Halted s r h)).1,
)
