-- ===== src/Tests/Stores.antt =====
-- The account store and the market registry after a few writes.
use fdv.Base.{true, ◌≡◌, refl, none, some, [], ◌∷◌, string_eq, pair_eq}
use fdv.Runtime.AccountStore.{
  AccountStore, new_store, position, pause, connection, store_step, store_run,
}
use fdv.Runtime.AccountStore.Invariant.{
  StoreValid, new_store-StoreValid, store_step-StoreValid, store_run-StoreValid,
}
use fdv.Runtime.Registry.{
  MarketRegistry, new_registry, get_by_condition_id, get_by_token_id, get_by_slug, upsert, upserts,
  removes, registry_step, registry_run,
}
use fdv.Runtime.Registry.Sound.{
  RegistryValid, new_registry-RegistryValid, registry_step-RegistryValid,
  registry_run-RegistryValid,
}
use fdv.Runtime.Registry.Lookups.{upsert-finds}
use fdv.Tests.Data.{election, holding}

-- A store with a holding and a paused market.
abbrev account : AccountStore
account = store_run new_store (position holding ∷ pause "c1" "manual_pause" none none ∷ [])

account-StoreValid : StoreValid account
account-StoreValid = store_run-StoreValid new_store _ new_store-StoreValid

store_step-StoreValid_example : StoreValid (store_step account (connection true))
store_step-StoreValid_example = store_step-StoreValid account (connection true) account-StoreValid

-- A registry with one market.
abbrev registry : MarketRegistry
registry = registry_run new_registry ((true, upserts election) ∷ [])

registry-RegistryValid : RegistryValid registry
registry-RegistryValid = registry_run-RegistryValid new_registry _ new_registry-RegistryValid

registry_step-RegistryValid_example : RegistryValid (registry_step registry (true, removes "c1"))
registry_step-RegistryValid_example =
    registry_step-RegistryValid registry (true, removes "c1") registry-RegistryValid

upsert-finds_example :
    let r' = (upsert true new_registry election).0 in
    (get_by_condition_id r' "c1" ≡ some election)
    × (get_by_token_id r' "no" ≡ some election)
    × (get_by_slug r' "vote" ≡ some election)
upsert-finds_example = upsert-finds new_registry election "no" "vote" refl refl
