-- ===== src/Runtime/Registry/Sound.antt =====
-- The indexes of the registry lead only to markets that bear the name.
use fdv.Base.{
  String, Bool, true, false, ◌≡◌, refl, sym, ◌∙◌, ◌≢◌, inl, inr, Option, none, some, List, [], ◌∷◌,
  string_eq, Bool-cases,
}
use fdv.Base.Dict.{
  Dict, lookup, insert, erase, values, KeyedBy, insert-KeyedBy, erase-KeyedBy, lookup-KeyedBy,
  lookup-insert_self, lookup-insert_ne, lookup-erase_ne,
}
use fdv.Domain.Market.{Market, TradingStatus, token_ids}
use fdv.Runtime.Registry.{
  MarketRegistry, contains, slugs, new_registry, detach, attach, detach_previous, upsert_locked,
  update_found, update_market_locked, remove_found, remove_market_locked, upsert, remove_market,
  Update, updater_of, trading_status, tick_size, min_order_size, fee_schedule, fee_rate,
  update_market, can_resume, resume_found, Command, upserts, removes, updates, resumes,
  registry_step, registry_run,
}
use fdv.Runtime.Registry.Indexes.{detach-some, attach-some}

abbrev pub IndexSound : (Market → List String) → Dict String Market → Dict String String → Type 0
IndexSound names markets index =
    (t c : String)
    → lookup t index ≡ some c
    → (m : Market) × (lookup c markets ≡ some m) × (contains t (names m) ≡ true)

abbrev pub Keyed : Dict String Market → Type 0
Keyed = KeyedBy (λ m. m.condition_id)

module _ (names : Market → List String) (markets : Dict String Market) (index : Dict String String)
    (keyed : Keyed markets) (sound : IndexSound names markets index) where
  -- Once the market under `c` is detached, no name leads to `c`.
  previous_some :
      (c t : String) {d : String} (previous : Option Market)
      → lookup c markets ≡ previous
      → lookup t (detach_previous names previous index) ≡ some d
      → (lookup t index ≡ some d) × (d ≢ c)
  unfolding detach_previous
  previous_some c t {d} none e h = (h, λ q. let (m, found, _) = sound t d h in cc)
  previous_some c t {d} (some p) e h =
      let key : p.condition_id ≡ c = lookup-KeyedBy (λ m. m.condition_id) c markets keyed e in
      let (old, apart) = detach-some p.condition_id (names p) t index h in
      let (m, found, bears) = sound t d old in
      (
        old,
        λ q.
            let same : some m ≡ some p = cc in
            let eq : m ≡ p = cc in apart (rw eq at bears) (q ∙ sym key),
      )

  pub insert-IndexSound :
      (m : Market) (previous : Option Market)
      → lookup m.condition_id markets ≡ previous
      → IndexSound names
          (insert m.condition_id m markets)
          (attach m.condition_id (names m) (detach_previous names previous index))
  insert-IndexSound m previous e t d h =
      elim (attach-some m.condition_id (names m) t (detach_previous names previous index) h) [
        | inl (bears, q) ↦ (m, rw q (lookup-insert_self m.condition_id m markets), bears)
        | inr kept ↦
            let (old, apart) = previous_some m.condition_id t previous e kept in
            let (x, found, bears) = sound t d old in
            (x, lookup-insert_ne m.condition_id d m markets (λ q. apart (sym q)) ∙ found, bears)
      ]

  pub erase-IndexSound :
      (c : String) (p : Market)
      → lookup c markets ≡ some p
      → IndexSound names (erase c markets) (detach p.condition_id (names p) index)
  unfolding detach_previous
  erase-IndexSound c p e t d h =
      let (old, apart) = previous_some c t (some p) e h in
      let (x, found, bears) = sound t d old in
      (x, lookup-erase_ne c d markets (λ q. apart (sym q)) ∙ found, bears)

pub record RegistryValid (r : MarketRegistry) : Type 0 where
  pub keyed : Keyed r.markets
  pub tokens : IndexSound token_ids r.markets r.by_token
  pub slugs_sound : IndexSound slugs r.markets r.by_slug
  pub published : r.snapshot ≡ values r.markets

pub new_registry-RegistryValid : RegistryValid new_registry
unfolding lookup
new_registry-RegistryValid = record {
  keyed = tt;
  tokens = λ t c e. cc;
  slugs_sound = λ t c e. cc;
  published = refl;
}

updater-condition_id : (u : Update) (m : Market) → (updater_of u m).condition_id ≡ m.condition_id
updater-condition_id (trading_status s reason) m = refl
updater-condition_id (tick_size t) m = refl
updater-condition_id (min_order_size x) m = refl
updater-condition_id (fee_schedule on maker taker) m = refl
updater-condition_id (fee_rate rate at) m = refl

pub upsert-RegistryValid :
    (acquired : Bool) (r : MarketRegistry) (m : Market)
    → RegistryValid r
    → RegistryValid (upsert acquired r m).0
unfolding upsert upsert_locked
upsert-RegistryValid false r m v = v
upsert-RegistryValid true r m v = record {
  keyed = insert-KeyedBy (λ x. x.condition_id) m.condition_id m r.markets refl v.keyed;
  tokens = insert-IndexSound token_ids r.markets r.by_token v.keyed v.tokens m _ refl;
  slugs_sound = insert-IndexSound slugs r.markets r.by_slug v.keyed v.slugs_sound m _ refl;
  published = refl;
}

update_found-RegistryValid :
    (r : MarketRegistry) (c : String) (u : Update) (found : Option Market)
    → lookup c r.markets ≡ found
    → RegistryValid r
    → RegistryValid (update_found r c (updater_of u) found).0
unfolding update_found detach_previous
update_found-RegistryValid r c u none e v = v
update_found-RegistryValid r c u (some current) e v =
    let key : c ≡ (updater_of u current).condition_id = sym (
      updater-condition_id u current
      ∙ lookup-KeyedBy (λ x. x.condition_id) c r.markets v.keyed e) in
    let there : lookup (updater_of u current).condition_id r.markets ≡ some current =
      rw (← key) e in
    rw key (record {
      keyed = insert-KeyedBy (λ x. x.condition_id) _ (updater_of u current) r.markets refl v.keyed;
      tokens =
          insert-IndexSound token_ids r.markets r.by_token v.keyed v.tokens (updater_of u current)
            (some current) there;
      slugs_sound =
          insert-IndexSound slugs r.markets r.by_slug v.keyed v.slugs_sound (updater_of u current)
            (some current) there;
      published = refl;
    })

pub update_market-RegistryValid :
    (acquired : Bool) (r : MarketRegistry) (c : String) (u : Update)
    → RegistryValid r
    → RegistryValid (update_market acquired r c u).0
unfolding update_market update_market_locked
update_market-RegistryValid false r c u v = v
update_market-RegistryValid true r c u v = update_found-RegistryValid r c u _ refl v

remove_found-RegistryValid :
    (r : MarketRegistry) (c : String) (found : Option Market)
    → lookup c r.markets ≡ found
    → RegistryValid r
    → RegistryValid (remove_found r c found).0
unfolding remove_found
remove_found-RegistryValid r c none e v = v
remove_found-RegistryValid r c (some p) e v = record {
  keyed = erase-KeyedBy (λ x. x.condition_id) c r.markets v.keyed;
  tokens = erase-IndexSound token_ids r.markets r.by_token v.keyed v.tokens c p e;
  slugs_sound = erase-IndexSound slugs r.markets r.by_slug v.keyed v.slugs_sound c p e;
  published = refl;
}

pub remove_market-RegistryValid :
    (acquired : Bool) (r : MarketRegistry) (c : String)
    → RegistryValid r
    → RegistryValid (remove_market acquired r c).0
unfolding remove_market remove_market_locked
remove_market-RegistryValid false r c v = v
remove_market-RegistryValid true r c v = remove_found-RegistryValid r c _ refl v

resume_found-RegistryValid :
    (acquired : Bool) (r : MarketRegistry) (c : String) (found : Option Market)
    → RegistryValid r
    → RegistryValid (resume_found acquired r c found).0
unfolding resume_found
resume_found-RegistryValid acquired r c none v = v
resume_found-RegistryValid acquired r c (some m) v =
    elim (Bool-cases (can_resume m.trading_status)) [
      | inl yes_resume ↦
          rw yes_resume (
            update_market-RegistryValid acquired r c (trading_status TradingStatus.eligible none) v)
      | inr no_resume ↦ rw no_resume v
    ]

-- Every write of the registry keeps it valid, with its lock or without, and a resumption also when
-- the market was changed after it was read: markets stand under their
-- condition ids, each indexed token and slug leads to a market that has it, and the snapshot shows
-- the markets.
pub registry_step-RegistryValid :
    (r : MarketRegistry) (c : Bool × Command) → RegistryValid r → RegistryValid (registry_step r c)
unfolding registry_step
registry_step-RegistryValid r (acquired, upserts m) v = upsert-RegistryValid acquired r m v
registry_step-RegistryValid r (acquired, removes c) v = remove_market-RegistryValid acquired r c v
registry_step-RegistryValid r (acquired, updates c u) v =
    update_market-RegistryValid acquired r c u v
registry_step-RegistryValid r (acquired, resumes c read) v =
    resume_found-RegistryValid acquired r c read v

pub registry_run-RegistryValid :
    (r : MarketRegistry) (cs : List (Bool × Command))
    → RegistryValid r
    → RegistryValid (registry_run r cs)
unfolding registry_run
registry_run-RegistryValid r [] v = v
registry_run-RegistryValid r (c ∷ cs) v =
    registry_run-RegistryValid (registry_step r c) cs (registry_step-RegistryValid r c v)
