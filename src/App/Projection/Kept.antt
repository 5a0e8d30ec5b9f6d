-- ===== src/App/Projection/Kept.antt =====
-- app/order_projection.py: positions that keep what they hold, and writes that leave them alone.
use mathlib.Core.Path.{subst}
use fdv.Base.{
  String, ◌≡◌, refl, sym, ap, ◌∙◌, Option, none, some, inl, inr, Bool-cases, ◌==◌, string_eq,
  pair_eq,
}
use fdv.Base.Dict.{lookup}
use fdv.Decimal.{of_ℕ}
use fdv.Domain.Order.{OrderResult, OrderRecord}
use fdv.Domain.Position.{Position}
use fdv.Domain.Account.{AccountSnapshot, get_position}
use fdv.Runtime.AccountStore.{
  AccountStore, position_key, update_balances, upsert_position, upsert_order, remove_order,
  set_allow_new_entries, pause_market,
}
use fdv.Runtime.AccountStore.Invariant.{StoreValid}
use fdv.Runtime.AccountStore.Reads.{get_position-lookup, get_position-upsert_position}
use fdv.App.Projection.Amounts.{has_unexpected_resting_order}
use fdv.App.Projection.Apply.{
  refresh_balances_from, is_refused, flag_resting, flag_refused, apply_result_flags,
}

-- The position holds what it held, or is new and holds nothing.
abbrev pub Kept : Option Position → Option Position → Type 0
Kept none none = Unit {0}
Kept none (some q) = (q.shares ≡ of_ℕ 0) × (q.cost_usdc ≡ of_ℕ 0)
Kept (some p) none = ⊥
Kept (some p) (some q) =
    (q.shares ≡ p.shares) × (q.cost_usdc ≡ p.cost_usdc) × (q.confirmed_shares ≡ p.confirmed_shares)

Kept-refl : (o : Option Position) → Kept o o
Kept-refl none = tt
Kept-refl (some p) = (refl, refl, refl)

-- Every position of the first store is kept in the second, which has no other that holds shares.
abbrev pub KeepsHoldings : AccountStore → AccountStore → Type 0
KeepsHoldings s t =
    (c u : String) → Kept (get_position s.snapshot c u) (get_position t.snapshot c u)

module _ (s t : AccountStore) (v : StoreValid s) (w : StoreValid t)
    (same : t.positions ≡ s.positions) where
  pub same_position : (c u : String) → get_position t.snapshot c u ≡ get_position s.snapshot c u
  same_position c u =
      get_position-lookup t c u w
      ∙ ap (λ d. lookup (c, u) d) same
      ∙ sym (get_position-lookup s c u v)

  pub same-KeepsHoldings : KeepsHoldings s t
  same-KeepsHoldings c u = rw (same_position c u) (Kept-refl (get_position s.snapshot c u))

  pub upsert-KeepsHoldings :
      (q : Position)
      → Kept (get_position s.snapshot q.condition_id q.token_id) (some q)
      → KeepsHoldings s (upsert_position t q)
  upsert-KeepsHoldings q k c u = elim (Bool-cases (position_key q == (c, u))) [
    | inr other ↦ rw (get_position-upsert_position t q c u w) (rw other (same-KeepsHoldings c u))
    | inl hit ↦
        let e = (pair_eq.same_iff (position_key q) (c, u)).0 hit in
        rw (get_position-upsert_position t q c u w)
          (rw hit (subst (λ x. Kept (get_position s.snapshot x.0 x.1) (some q)) e k))
  ]

refresh-positions :
    (s : AccountStore) (a : Option AccountSnapshot)
    → (refresh_balances_from s a).positions ≡ s.positions
unfolding refresh_balances_from update_balances
refresh-positions s none = refl
refresh-positions s (some a) = refl

flag_refused-positions :
    (s : AccountStore) (r : OrderResult) → (flag_refused s r).positions ≡ s.positions
unfolding flag_refused set_allow_new_entries
flag_refused-positions s r = elim (Bool-cases (is_refused r.status)) [
  | inl h ↦ rw h refl
  | inr h ↦ rw h refl
]

flag_resting-positions :
    (s : AccountStore) (r : OrderResult) → (flag_resting s r).positions ≡ s.positions
unfolding flag_resting set_allow_new_entries pause_market
flag_resting-positions s r = elim (Bool-cases (has_unexpected_resting_order r)) [
  | inl h ↦ rw h refl
  | inr h ↦ rw h refl
]

pub flags-positions :
    (s : AccountStore) (r : OrderResult) (a : Option AccountSnapshot)
    → (apply_result_flags s r a).positions ≡ s.positions
unfolding apply_result_flags
flags-positions s r a =
    refresh-positions (flag_refused (flag_resting s r) r) a
    ∙ flag_refused-positions (flag_resting s r) r
    ∙ flag_resting-positions s r

pub order-positions :
    (s : AccountStore) (o : OrderRecord) → (upsert_order s o).positions ≡ s.positions
unfolding upsert_order
order-positions s o = refl

pub remove-positions : (s : AccountStore) (k : String) → (remove_order s k).positions ≡ s.positions
unfolding remove_order
remove-positions s k = refl
