-- ===== src/Runtime/Registry.antt =====
-- src/polymarket_trader/runtime/registry.py: `MarketRegistry`, its indexes and its copy-on-write
-- snapshot. A writer that does not get the market's lock in time (`acquired` is false) does nothing;
-- with it, the commit lock makes each write one step.
pub mod Indexes
pub mod Sound
pub mod Lookups
use fdv.Base.{
  String, Bool, true, false, ◌||◌, Option, none, some, List, [], ◌∷◌, map, find_by, any_by, ◌==◌,
  string_eq, same_text?, truthy, if◌then◌else◌,
}
use fdv.Base.Dict.{Dict, lookup, insert, erase, values}
use fdv.Base.Integer.{ℤ}
use fdv.Decimal.{Decimal}
use fdv.Domain.Order.{Time}
use fdv.Domain.Market.{
  Market, TradingStatus, token_ids, with_trading_status, with_tick_size, with_min_order_size,
  with_fee_schedule, with_fee_rate,
}

-- `name in names`
abbrev pub contains : String → List String → Bool
contains name = any_by (λ x. x == name)

-- The names under which `_condition_id_by_slug` holds a market; an empty event slug is none.
abbrev pub event_slugs : Option String → List String
event_slugs none = []
event_slugs (some s) = if s == "" then [] else s ∷ []

abbrev pub slugs : Market → List String
slugs m = m.market_slug ∷ event_slugs m.event_slug

pub record MarketRegistry : Type 0 where
  pub markets : Dict String Market
  pub by_token : Dict String String
  pub by_slug : Dict String String
  pub snapshot : List Market

abbrev pub new_registry : MarketRegistry
new_registry = record { markets = []; by_token = []; by_slug = []; snapshot = [] }

-- `MarketRegistrySnapshot`
module _ (snapshot : List Market) where
  unfoldable pub snapshot_by_condition_id : String → Option Market
  snapshot_by_condition_id c = find_by (λ m. m.condition_id == c) snapshot

  unfoldable pub snapshot_by_token_id : String → Option Market
  snapshot_by_token_id t = find_by (λ m. contains t (token_ids m)) snapshot

  unfoldable pub snapshot_by_slug : String → Option Market
  snapshot_by_slug s =
      find_by (λ m. m.market_slug == s || same_text? m.event_slug (some s)) snapshot

unfoldable pub get_by_condition_id : MarketRegistry → String → Option Market
get_by_condition_id r c = lookup c r.markets

-- A lookup through one of the two indexes.
abbrev pub through : Dict String String → MarketRegistry → String → Option Market
through index r name = elim (lookup name index) [ none ↦ none | some c ↦ lookup c r.markets ]

unfoldable pub get_by_token_id : MarketRegistry → String → Option Market
get_by_token_id r t = through r.by_token r t

unfoldable pub get_by_slug : MarketRegistry → String → Option Market
get_by_slug r s = through r.by_slug r s

-- `_detach_indexes`, over one index and a market's names in it: a name is freed if it is this
-- market's.
unfoldable pub detach : String → List String → Dict String String → Dict String String
detach c [] index = index
detach c (name ∷ names) index =
    detach c names (if same_text? (lookup name index) (some c) then erase name index else index)

-- The writes of a market's names into an index.
unfoldable pub attach : String → List String → Dict String String → Dict String String
attach c [] index = index
attach c (name ∷ names) index = attach c names (insert name c index)

-- `_publish_state`
abbrev pub publish : Dict String Market → Dict String String → Dict String String → MarketRegistry
publish markets by_token by_slug = record {
  markets = markets;
  by_token = by_token;
  by_slug = by_slug;
  snapshot = values markets;
}

-- `_detach_indexes` of the market that was there, if there was one.
unfoldable pub detach_previous :
    (Market → List String) → Option Market → Dict String String → Dict String String
detach_previous names none index = index
detach_previous names (some m) index = detach m.condition_id (names m) index

-- `_upsert_locked`
unfoldable pub upsert_locked : MarketRegistry → Market → MarketRegistry × Option Market
unfolding detach_previous attach
upsert_locked r m =
    let previous = lookup m.condition_id r.markets in
    (
      publish (insert m.condition_id m r.markets)
          (attach m.condition_id (token_ids m) (detach_previous token_ids previous r.by_token))
          (attach m.condition_id (slugs m) (detach_previous slugs previous r.by_slug)),
      some m,
    )

unfoldable pub update_found :
    MarketRegistry → String → (Market → Market) → Option Market → MarketRegistry × Option Market
unfolding detach attach
update_found r c updater none = (r, none)
update_found r c updater (some current) =
    let updated = updater current in
    (
      publish (insert c updated r.markets)
          (attach updated.condition_id (token_ids updated)
            (detach current.condition_id (token_ids current) r.by_token))
          (attach updated.condition_id (slugs updated)
            (detach current.condition_id (slugs current) r.by_slug)),
      some updated,
    )

-- `_update_market_locked`
unfoldable pub update_market_locked :
    MarketRegistry → String → (Market → Market) → MarketRegistry × Option Market
unfolding update_found
update_market_locked r c updater = update_found r c updater (lookup c r.markets)

unfoldable pub remove_found :
    MarketRegistry → String → Option Market → MarketRegistry × Option Market
unfolding detach
remove_found r c none = (r, none)
remove_found r c (some current) = (
  publish (erase c r.markets) (detach current.condition_id (token_ids current) r.by_token)
      (detach current.condition_id (slugs current) r.by_slug),
  some current,
)

-- `_remove_market_locked`
unfoldable pub remove_market_locked : MarketRegistry → String → MarketRegistry × Option Market
unfolding remove_found
remove_market_locked r c = remove_found r c (lookup c r.markets)

-- `_with_condition_lock`
abbrev pub with_condition_lock :
    Bool → MarketRegistry → MarketRegistry × Option Market → MarketRegistry × Option Market
with_condition_lock acquired r done = if acquired then done else (r, none)

-- `upsert` and `reconcile`
unfoldable pub upsert : Bool → MarketRegistry → Market → MarketRegistry × Option Market
upsert acquired r m = with_condition_lock acquired r (upsert_locked r m)

unfoldable pub remove_market : Bool → MarketRegistry → String → MarketRegistry × Option Market
remove_market acquired r c = with_condition_lock acquired r (remove_market_locked r c)

-- The updates of one market.
pub data Update : Type 0 where
  trading_status : TradingStatus → Option String → Update
  tick_size : Decimal → Update
  min_order_size : Decimal → Update
  fee_schedule : Option Bool → Option ℤ → Option ℤ → Update
  fee_rate : Option ℤ → Option Time → Update

abbrev pub updater_of : Update → Market → Market
updater_of (trading_status s reason) m = with_trading_status m s reason
updater_of (tick_size t) m = with_tick_size m t
updater_of (min_order_size x) m = with_min_order_size m x
updater_of (fee_schedule on maker taker) m = with_fee_schedule m on maker taker
updater_of (fee_rate rate at) m = with_fee_rate m rate at

-- `set_trading_status`, `change_tick_size`, `change_min_order_size`, `update_fee_schedule` and
-- `update_fee_rate`
unfoldable pub update_market :
    Bool → MarketRegistry → String → Update → MarketRegistry × Option Market
update_market acquired r c u =
    with_condition_lock acquired r (update_market_locked r c (updater_of u))

abbrev pub mark_resolved : Bool → MarketRegistry → String → MarketRegistry × Option Market
mark_resolved acquired r c = update_market acquired r c (trading_status TradingStatus.resolved none)

abbrev pub mark_closed : Bool → MarketRegistry → String → MarketRegistry × Option Market
mark_closed acquired r c = update_market acquired r c (trading_status TradingStatus.closed none)

-- `disable_orderbook` and `pause_market`
abbrev pub pause_market : Bool → MarketRegistry → String → String → MarketRegistry × Option Market
pause_market acquired r c reason =
    update_market acquired r c (trading_status TradingStatus.paused (some reason))

abbrev pub reject_market : Bool → MarketRegistry → String → String → MarketRegistry × Option Market
reject_market acquired r c reason =
    update_market acquired r c (trading_status TradingStatus.rejected (some reason))

abbrev pub can_resume : TradingStatus → Bool
can_resume TradingStatus.paused = true
can_resume TradingStatus.candidate = true
can_resume _ = false

unfoldable pub resume_found :
    Bool → MarketRegistry → String → Option Market → MarketRegistry × Option Market
resume_found acquired r c none = (r, none)
resume_found acquired r c (some m) =
    if can_resume m.trading_status
    then update_market acquired r c (trading_status TradingStatus.eligible none)
    else (r, some m)

-- `resume_market`
unfoldable pub resume_market : Bool → MarketRegistry → String → MarketRegistry × Option Market
unfolding resume_found
resume_market acquired r c = resume_found acquired r c (get_by_condition_id r c)

-- The writes of the registry, and whether each got the market's lock in time. `resume_market` reads
-- the market before it takes the lock, so its write comes with what it read, which may be old by then.
pub data Command : Type 0 where
  upserts : Market → Command
  removes : String → Command
  updates : String → Update → Command
  resumes : String → Option Market → Command

unfoldable pub registry_step : MarketRegistry → Bool × Command → MarketRegistry
registry_step r (acquired, upserts m) = (upsert acquired r m).0
registry_step r (acquired, removes c) = (remove_market acquired r c).0
registry_step r (acquired, updates c u) = (update_market acquired r c u).0
registry_step r (acquired, resumes c read) = (resume_found acquired r c read).0

unfoldable pub registry_run : MarketRegistry → List (Bool × Command) → MarketRegistry
registry_run r [] = r
registry_run r (c ∷ cs) = registry_run (registry_step r c) cs
