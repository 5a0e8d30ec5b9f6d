-- ===== src/Runtime/Registry/Lookups.antt =====
-- What lookups find after the writes of the registry.
use mathlib.Core.Path.{subst}
use fdv.Base.{
  String, true, false, ◌≡◌, refl, sym, ap, ◌∙◌, ◌≢◌, inl, inr, Option, none, some, List, arith,
  ◌==◌, string_eq, if◌then◌else◌, Option-cases, Bool-cases,
}
use fdv.Base.Dict.{
  Dict, lookup, lookup-KeyedBy, lookup-insert_self, lookup-insert, lookup-erase_self,
  find_by-values,
}
use fdv.Domain.Market.{Market, TradingStatus, token_ids, with_trading_status}
use fdv.Runtime.Registry.{
  MarketRegistry, contains, slugs, attach, snapshot_by_condition_id, get_by_condition_id, through,
  get_by_token_id, get_by_slug, upsert_locked, update_found, update_market_locked, remove_found,
  remove_market_locked, upsert, remove_market, Update, updater_of, trading_status, update_market,
  can_resume, resume_found, resume_market,
}
use fdv.Runtime.Registry.Indexes.{attach_self}
use fdv.Runtime.Registry.Sound.{IndexSound, RegistryValid, remove_market-RegistryValid}

-- A lookup through a sound index finds a market that bears the name and stands under its own id.
through-some :
    (names : Market → List String) (index : Dict String String) (r : MarketRegistry) (t : String)
    {m : Market}
    → RegistryValid r
    → IndexSound names r.markets index
    → through index r t ≡ some m
    → (contains t (names m) ≡ true) × (lookup m.condition_id r.markets ≡ some m)
through-some names index r t {m} v sound h = elim (Option-cases (lookup t index)) [
  | inl e ↦ let bad : ◌≡◌ {A = Option Market} none (some m) = rw (e, through) at h in cc
  | inr (c, e) ↦
      let found : lookup c r.markets ≡ some m = rw (e, through) at h in
      let (x, there, bears) = sound t c e in
      let same : x ≡ m = cc in
      let key : m.condition_id ≡ c =
        lookup-KeyedBy (λ y. y.condition_id) c r.markets v.keyed found in
      (rw same at bears, ap (λ x. lookup x r.markets) key ∙ found)
]

-- A market that a lookup by name returns bears the name, and is the one that stands under its
-- condition id.
abbrev pub Bears : (Market → List String) → MarketRegistry → String → Option Market → Type 0
Bears names r t none = Unit {0}
Bears names r t (some m) =
    (contains t (names m) ≡ true) × (get_by_condition_id r m.condition_id ≡ some m)

through-Bears :
    (names : Market → List String) (index : Dict String String) (r : MarketRegistry) (t : String)
    → RegistryValid r
    → IndexSound names r.markets index
    → Bears names r t (through index r t)
unfolding get_by_condition_id
through-Bears names index r t v sound = elim (Option-cases (through index r t)) [
  | inl e ↦ subst (Bears names r t) (sym e) tt
  | inr (m, e) ↦ subst (Bears names r t) (sym e) (through-some names index r t v sound e)
]

-- On a valid registry a lookup by token or by slug returns only a market that has that token or
-- slug, and returns the very market that stands under its condition id.
pub get_by_name-Bears :
    (r : MarketRegistry) (t : String)
    → RegistryValid r
    → Bears token_ids r t (get_by_token_id r t) × Bears slugs r t (get_by_slug r t)
unfolding get_by_token_id get_by_slug
get_by_name-Bears r t v = (
  through-Bears token_ids r.by_token r t v v.tokens,
  through-Bears slugs r.by_slug r t v v.slugs_sound,
)

-- The snapshot that lock-free readers scan agrees with the registry's own lookup by condition id.
pub snapshot-get_by_condition_id :
    (r : MarketRegistry) (c : String)
    → RegistryValid r
    → snapshot_by_condition_id r.snapshot c ≡ get_by_condition_id r c
unfolding snapshot_by_condition_id get_by_condition_id
snapshot-get_by_condition_id r c v =
    rw v.published (find_by-values (λ m. m.condition_id) c r.markets v.keyed)

through-attach :
    (r : MarketRegistry) (m : Market) (names : List String) (index : Dict String String)
    (t : String)
    → contains t names ≡ true
    → lookup m.condition_id r.markets ≡ some m
    → through (attach m.condition_id names index) r t ≡ some m
through-attach r m names index t h e = rw (attach_self m.condition_id names t index h, through) e

-- After `upsert` with its lock, the market is found under its condition id, each of its tokens and
-- each of its slugs.
pub upsert-finds :
    (r : MarketRegistry) (m : Market) (t s : String)
    → contains t (token_ids m) ≡ true
    → contains s (slugs m) ≡ true
    → let r' = (upsert true r m).0 in
      (get_by_condition_id r' m.condition_id ≡ some m)
      × (get_by_token_id r' t ≡ some m)
      × (get_by_slug r' s ≡ some m)
unfolding upsert upsert_locked get_by_condition_id get_by_token_id get_by_slug
upsert-finds r m t s h k =
    let e = lookup-insert_self m.condition_id m r.markets in
    (
      e,
      through-attach (upsert true r m).0 m (token_ids m) _ t h e,
      through-attach (upsert true r m).0 m (slugs m) _ s k e,
    )

remove_market-gone :
    (r : MarketRegistry) (c : String) (found : Option Market)
    → lookup c r.markets ≡ found
    → lookup c (remove_found r c found).0.markets ≡ none
unfolding remove_found
remove_market-gone r c none e = e
remove_market-gone r c (some m) e = lookup-erase_self c r.markets

-- A lookup does not return the market with a given id.
abbrev pub Forgets : String → Option Market → Type 0
Forgets c none = Unit {0}
Forgets c (some m) = m.condition_id ≢ c

Forgets-of_Bears :
    (names : Market → List String) (r : MarketRegistry) (c t : String) (found : Option Market)
    → get_by_condition_id r c ≡ none
    → Bears names r t found
    → Forgets c found
Forgets-of_Bears names r c t none gone bears = tt
Forgets-of_Bears names r c t (some m) gone bears = λ q. let there = bears.1 in cc

-- After `remove_market` with its lock on a valid registry, nothing is found under the condition id,
-- and no token and no slug leads to a market with that id.
pub remove_market-Forgets :
    (r : MarketRegistry) (c t : String)
    → RegistryValid r
    → let r' = (remove_market true r c).0 in
      (get_by_condition_id r' c ≡ none)
      × Forgets c (get_by_token_id r' t)
      × Forgets c (get_by_slug r' t)
unfolding get_by_condition_id remove_market remove_market_locked
remove_market-Forgets r c t v =
    let r' = (remove_market true r c).0 in
    let gone = remove_market-gone r c (lookup c r.markets) refl in
    let bears = get_by_name-Bears r' t (remove_market-RegistryValid true r c v) in
    (
      gone,
      Forgets-of_Bears token_ids r' c t (get_by_token_id r' t) gone bears.0,
      Forgets-of_Bears slugs r' c t (get_by_slug r' t) gone bears.1,
    )

-- A market after an update, if there is one.
abbrev pub updated : (Market → Market) → Option Market → Option Market
updated f none = none
updated f (some m) = some (f m)

update_found-lookup :
    (r : MarketRegistry) (c d : String) (f : Market → Market) (found : Option Market)
    → lookup c r.markets ≡ found
    → lookup d (update_found r c f found).0.markets
      ≡ (if c == d then updated f found else lookup d r.markets)
unfolding update_found
update_found-lookup r c d f none e = elim (Bool-cases (c == d)) [
  | inl hit ↦ rw hit (ap (λ x. lookup x r.markets) (sym ((string_eq.same_iff c d).0 hit)) ∙ e)
  | inr miss ↦ rw miss
]
update_found-lookup r c d f (some m) e = lookup-insert c d (f m) r.markets

-- Each update of a market, with its lock, changes that market as the update says and no other; it
-- adds none. Without the lock the registry stays as it is.
pub update_market-lookup :
    (r : MarketRegistry) (c d : String) (u : Update)
    → (get_by_condition_id (update_market true r c u).0 d ≡ (
        if c == d
        then updated (updater_of u) (get_by_condition_id r c)
        else get_by_condition_id r d))
      × ((update_market false r c u).0 ≡ r)
unfolding get_by_condition_id update_market update_market_locked
update_market-lookup r c d u =
    (update_found-lookup r c d (updater_of u) (lookup c r.markets) refl, refl)

-- What `resume_market` makes of a market: a paused or a candidate one becomes eligible, with no
-- reject reason, and any other stays.
abbrev pub resumed : Market → Market
resumed m =
    if can_resume m.trading_status then with_trading_status m TradingStatus.eligible none else m

resume_found-lookup :
    (r : MarketRegistry) (c : String) (found : Option Market)
    → get_by_condition_id r c ≡ found
    → get_by_condition_id (resume_found true r c found).0 c ≡ updated resumed found
unfolding resume_found
resume_found-lookup r c none e = e
resume_found-lookup r c (some m) e = elim (Bool-cases (can_resume m.trading_status)) [
  | inl ok_resume ↦ rw ok_resume (
      ground (
        arith,
        (update_market-lookup r c c (trading_status TradingStatus.eligible none)).0,
        string_eq.same_iff c c,
      ))
  | inr no_resume ↦ rw no_resume e
]

-- `resume_market`, with its lock, makes a paused or a candidate market eligible and clears its
-- reject reason; a market that is closed, resolved, rejected or eligible stays as it is.
pub resume_market-lookup :
    (r : MarketRegistry) (c : String)
    → get_by_condition_id (resume_market true r c).0 c ≡ updated resumed (get_by_condition_id r c)
unfolding resume_market
resume_market-lookup r c = resume_found-lookup r c (get_by_condition_id r c) refl
