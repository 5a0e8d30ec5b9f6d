-- ===== src/App/Projection/Holdings.antt =====
-- app/order_projection.py: what the projections leave of the shares that are held.
use mathlib.Core.Path.{subst}
use fdv.Base.{
  String, Bool, true, false, ◌≡◌, refl, sym, ◌∙◌, ◌&&◌, Option, none, some, inl, inr, Bool-cases,
  string_eq, pair_eq, if◌then◌else◌,
}
use fdv.Decimal.{of_ℕ, le}
use fdv.Domain.Order.{
  Time, OrderResult, OrderRecord, SellOrderIntent, TradableOrderIntent, buying, selling,
}
use fdv.Domain.Intent
use fdv.Domain.Market.{Market}
use fdv.Domain.Position.{Position}
use fdv.Domain.Account.{
  AccountSnapshot, get_position, open_buy_orders_for_market, open_sell_shares_for_market,
}
use fdv.Runtime.AccountStore.{AccountStore, position_key, upsert_order, remove_order, order_key}
use fdv.Runtime.AccountStore.Invariant.{StoreValid}
use fdv.App.Projection.Amounts.{rests, order_result_to_order_status}
use fdv.App.Projection.Apply.{
  settles_sell, sell_remaining, open_sell_after, sell_order_id, sell_order, sold, write_sold,
  or_snapshot, apply_sell_result, apply_result_flags,
}
use fdv.App.Projection.Manage.{
  submitted_order, submitted_position, apply_submitted_intent, sum_open_shares, covered,
  write_covered, refresh_position_coverage,
}
use fdv.App.Projection.Replace.{is_replacement, write_replacement, apply_replace_result}
use fdv.App.Projection.Valid.{
  ProjectorCall, buy_result, sell_result, result_flags, submitted, replaced, projector_step,
  projector_step-StoreValid, order-StoreValid, remove-StoreValid, write_replacement-StoreValid,
}
use fdv.App.Projection.Fills.{KeyOf, snapshot_position-KeyOf}
use fdv.App.Projection.Kept.{
  Kept, KeepsHoldings, same_position, same-KeepsHoldings, upsert-KeepsHoldings, flags-positions,
  order-positions, remove-positions,
}

-- The store after the order of a sell was written or taken out.
module _ (s : AccountStore) (r : OrderResult) (i : SellOrderIntent) (now : Time)
    (v : StoreValid s) where
  sold_order : Position → AccountStore
  sold_order p =
      if rests r.status
      then upsert_order s (sell_order r i p (sell_remaining r i))
      else remove_order s (sell_order_id r i)

  sold_order-same :
      (p : Position) → StoreValid (sold_order p) × ((sold_order p).positions ≡ s.positions)
  unfolding sold_order
  sold_order-same p = elim (Bool-cases (rests r.status)) [
    | inl h ↦ rw h (order-StoreValid s _ v, order-positions s _)
    | inr h ↦ rw h (remove-StoreValid s _ v, remove-positions s _)
  ]

  write_sold-KeepsHoldings :
      (held : Option Position)
      → KeyOf r.condition_id r.token_id held
      → get_position s.snapshot r.condition_id r.token_id ≡ held
      → KeepsHoldings s (write_sold s r i now held)
  unfolding write_sold sold_order
  write_sold-KeepsHoldings none k h = same-KeepsHoldings s s v v refl
  write_sold-KeepsHoldings (some p) k h =
      let same = sold_order-same p in
      upsert-KeepsHoldings s (sold_order p) v same.0 same.1
        (sold r p (open_sell_after s.snapshot r (sell_remaining r i) p) now)
        (subst
          (λ x.
            Kept (get_position s.snapshot x.0 x.1)
              (some (sold r p (open_sell_after s.snapshot r (sell_remaining r i) p) now)))
          (sym k) (rw h (refl, refl, refl)))

  held_in_store :
      (o : Option Position)
      → get_position s.snapshot r.condition_id r.token_id ≡ o
      → or_snapshot o (some s.snapshot) r ≡ o
  held_in_store none h = h
  held_in_store (some p) h = refl

  sell-KeepsHoldings : KeepsHoldings s (apply_sell_result s r (some s.snapshot) i now)
  unfolding apply_sell_result
  sell-KeepsHoldings =
      let held = get_position s.snapshot r.condition_id r.token_id in
      elim (Bool-cases (settles_sell r.status)) [
        | inr h ↦ rw h (same-KeepsHoldings s s v v refl)
        | inl h ↦ rw h (
            rw (held_in_store held refl) (
              write_sold-KeepsHoldings held
                (snapshot_position-KeyOf (some s.snapshot) r.condition_id r.token_id) refl))
      ]

submitted-Kept :
    (i : TradableOrderIntent) (slug : Option String) (a : AccountSnapshot) (held : Option Position)
    → KeyOf (Intent.condition_id i) (Intent.token_id i) held
    → (position_key (submitted_position i slug a held) ≡ (Intent.condition_id i, Intent.token_id i))
      × Kept held (some (submitted_position i slug a held))
unfolding submitted_position
submitted-Kept (buying i) slug a none k = (refl, (refl, refl))
submitted-Kept (selling i) slug a none k = (refl, (refl, refl))
submitted-Kept (buying i) slug a (some p) k = (k, (refl, refl, refl))
submitted-Kept (selling i) slug a (some p) k = (k, (refl, refl, refl))

submitted-KeepsHoldings :
    (s : AccountStore) (i : TradableOrderIntent) (slug : Option String) (reason : String)
    (created updated : Time)
    → StoreValid s
    → KeepsHoldings s (apply_submitted_intent s i slug s.snapshot reason created updated)
unfolding apply_submitted_intent
submitted-KeepsHoldings s i slug reason created updated v =
    let c = Intent.condition_id i in
    let u = Intent.token_id i in
    let held = get_position s.snapshot c u in
    let q = submitted_position i slug s.snapshot held in
    let k = submitted-Kept i slug s.snapshot held (snapshot_position-KeyOf (some s.snapshot) c u) in
    upsert-KeepsHoldings s (upsert_order s (submitted_order i reason created updated)) v
      (order-StoreValid s _ v) (order-positions s _) q
      (subst (λ x. Kept (get_position s.snapshot x.0 x.1) (some q)) (sym k.0) k.1)

-- What the coverage writes for a market and token, if anything.
abbrev Covers : String → String → Option Position → Option Position → Type 0
Covers c u held none = Unit {0}
Covers c u held (some q) = (position_key q ≡ (c, u)) × Kept held (some q)

Covers-if :
    (b : Bool) (c u : String) (held o q : Option Position)
    → Covers c u held o
    → Covers c u held q
    → Covers c u held (if b then o else q)
Covers-if true c u held o q h k = h
Covers-if false c u held o q h k = k

module _ (a : AccountSnapshot) (c u : String) (slug order_id trade_id : Option String)
    (status : String) (at : Option Time) where
  covered-Covers :
      (held : Option Position)
      → KeyOf c u held
      → Covers c u held (covered a c u slug order_id trade_id status at held)
  unfolding covered
  covered-Covers (some p) k = (k, (refl, refl, refl))
  covered-Covers none k =
      let open_buy = sum_open_shares (of_ℕ 0) (open_buy_orders_for_market a c u) in
      Covers-if (le open_buy (of_ℕ 0) && le (open_sell_shares_for_market a c u) (of_ℕ 0)) c u none
        none _ tt (refl, (refl, refl))

module _ (c u : String) where
  covered-KeepsHoldings :
      (s t : AccountStore) (held o : Option Position)
      → StoreValid s
      → StoreValid t
      → t.positions ≡ s.positions
      → get_position s.snapshot c u ≡ held
      → Covers c u held o
      → KeepsHoldings s (write_covered t o)
  covered-KeepsHoldings s t held none v w same h k = same-KeepsHoldings s t v w same
  covered-KeepsHoldings s t held (some q) v w same h (key, k) =
      upsert-KeepsHoldings s t v w same q
        (subst (λ x. Kept (get_position s.snapshot x.0 x.1) (some q)) (sym key) (rw h k))

module _ (s : AccountStore) (m : Market) (source : OrderRecord) (r : OrderResult)
    (operator reason : String) where
  replacement-positions : (write_replacement s m source r operator reason).positions ≡ s.positions
  unfolding write_replacement upsert_order
  replacement-positions =
      elim (Bool-cases (is_replacement (order_result_to_order_status r.status))) [
        | inl h ↦ rw h refl
        | inr h ↦ rw h refl
      ]

replace-KeepsHoldings :
    (s : AccountStore) (m : Market) (source : OrderRecord) (r : OrderResult)
    (operator reason : String)
    → StoreValid s
    → KeepsHoldings s (apply_replace_result s m source r operator reason)
unfolding apply_replace_result refresh_position_coverage
replace-KeepsHoldings s m source r operator reason v =
    let removed = remove_order s (order_key source) in
    let t = write_replacement removed m source r operator reason in
    let w =
      write_replacement-StoreValid removed m source r operator reason
        (remove-StoreValid s (order_key source) v) in
    let same =
      replacement-positions removed m source r operator reason
      ∙ remove-positions s (order_key source) in
    let c = source.condition_id in
    let u = source.token_id in
    let held = get_position t.snapshot c u in
    covered-KeepsHoldings c u s t held _ v w same (sym (same_position s t v w same c u))
      (covered-Covers t.snapshot c u _ _ _ _ _ held (snapshot_position-KeyOf (some t.snapshot) c u))

-- A call that is not the result of a buy and that is given the account of the store.
abbrev pub NoBuy : AccountStore → ProjectorCall → Type 0
NoBuy s (buy_result r a now) = ⊥
NoBuy s (sell_result r a i now) = a ≡ some s.snapshot
NoBuy s (result_flags r a) = Unit {0}
NoBuy s (submitted i slug a reason created updated) = a ≡ s.snapshot
NoBuy s (replaced m source r operator reason) = Unit {0}

-- After every projection but that of a buy onto a valid store, with the account of that store where
-- the call takes one, readers find each position that there was with the same shares, cost and
-- confirmed shares, and a position that is new has no shares and no cost.
pub projector_step-KeepsHoldings :
    (c : ProjectorCall) (s : AccountStore)
    → StoreValid s
    → NoBuy s c
    → KeepsHoldings s (projector_step c s)
unfolding projector_step
projector_step-KeepsHoldings (buy_result r a now) s v h = elim h [ ]
projector_step-KeepsHoldings (sell_result r a i now) s v h =
    subst (λ b. KeepsHoldings s (apply_sell_result s r b i now)) (sym h)
      (sell-KeepsHoldings s r i now v)
projector_step-KeepsHoldings (result_flags r a) s v h =
    same-KeepsHoldings s (apply_result_flags s r a) v
      (projector_step-StoreValid (result_flags r a) s v) (flags-positions s r a)
projector_step-KeepsHoldings (submitted i slug a reason created updated) s v h =
    subst (λ b. KeepsHoldings s (apply_submitted_intent s i slug b reason created updated)) (sym h)
      (submitted-KeepsHoldings s i slug reason created updated v)
projector_step-KeepsHoldings (replaced m source r operator reason) s v h =
    replace-KeepsHoldings s m source r operator reason v
