-- ===== src/App/Projection/Fills.antt =====
-- The position that readers find after buys.
use fdv.Base.{
  String, true, ◌&&◌, ◌≡◌, refl, sym, ap, ◌∙◌, Option, none, some, List, [], ◌∷◌, inl, inr, All,
  ◌⊎◌, false, Bool-cases, find_by, or_else, ◌==◌, string_eq, pair_eq, arith,
}
use fdv.Base.Dict.{lookup, insert, lookup-insert_self}
use fdv.Decimal.{Decimal, of_ℕ, add, le, lt}
use fdv.Domain.Order.{Time, OrderResult, OrderResultStatus}
use fdv.Domain.Position.{Position}
use fdv.Domain.Account.{AccountSnapshot, get_position}
use fdv.Runtime.AccountStore.{AccountStore, position_key, update_balances, upsert_position}
use fdv.Runtime.AccountStore.Invariant.{StoreValid}
use fdv.Runtime.AccountStore.Reads.{get_position-lookup}
use fdv.App.Projection.Amounts.{filled_shares, spent_usdc}
use fdv.App.Projection.Apply.{
  snapshot_position, refresh_balances_from, settles_buy, bought, write_bought, apply_buy_result,
}
use fdv.App.Projection.Valid.{
  write_bought-StoreValid, buy_result, projector_step, projector_step-StoreValid,
}

-- The position is the one of the market and token.
abbrev pub KeyOf : String → String → Option Position → Type 0
KeyOf c t none = Unit {0}
KeyOf c t (some p) = position_key p ≡ (c, t)

find_by-KeyOf :
    (c t : String) (ps : List Position)
    → KeyOf c t (find_by (λ p. p.condition_id == c && p.token_id == t) ps)
find_by-KeyOf c t [] = tt
find_by-KeyOf c t (p ∷ ps) = elim (Bool-cases (p.condition_id == c && p.token_id == t)) [
  | inl hit ↦
      rw hit
        (ground (arith, hit, string_eq.same_iff p.condition_id c, string_eq.same_iff p.token_id t))
  | inr miss ↦ rw miss (find_by-KeyOf c t ps)
]

pub snapshot_position-KeyOf :
    (a : Option AccountSnapshot) (c t : String) → KeyOf c t (snapshot_position a c t)
unfolding get_position
snapshot_position-KeyOf none c t = tt
snapshot_position-KeyOf (some a) c t = find_by-KeyOf c t a.positions

bought-KeyOf :
    (r : OrderResult) (now : Time) (held : Option Position)
    → KeyOf r.condition_id r.token_id held
    → KeyOf r.condition_id r.token_id (bought r now held)
unfolding bought
bought-KeyOf r now (some p) h = h
bought-KeyOf r now none h = elim (Bool-cases (le (filled_shares r) (of_ℕ 0))) [
  | inl k ↦ rw k tt
  | inr k ↦ rw k refl
]

positions-refresh :
    (s : AccountStore) (p : Position) (a : Option AccountSnapshot)
    → (refresh_balances_from (upsert_position s p) a).positions
      ≡ insert (position_key p) p s.positions
unfolding refresh_balances_from update_balances upsert_position
positions-refresh s p none = refl
positions-refresh s p (some a) = refl

module _ (s : AccountStore) (r : OrderResult) (a : Option AccountSnapshot) where
  written :
      (p : Option Position)
      → KeyOf r.condition_id r.token_id p
      → StoreValid s
      → StoreValid (write_bought s a p)
      → get_position (write_bought s a p).snapshot r.condition_id r.token_id
        ≡ or_else p (get_position s.snapshot r.condition_id r.token_id)
  written none h v w = refl
  written (some p) h v w =
      get_position-lookup (refresh_balances_from (upsert_position s p) a) r.condition_id r.token_id
        w
      ∙ ap (lookup (r.condition_id, r.token_id)) (positions-refresh s p a)
      ∙ ap (λ k. lookup k (insert (position_key p) p s.positions)) (sym h)
      ∙ lookup-insert_self (position_key p) p s.positions

apply_buy_result-get_position :
    (s : AccountStore) (r : OrderResult) (a : Option AccountSnapshot) (now : Time)
    → StoreValid s
    → settles_buy r.status ≡ true
    → get_position (apply_buy_result s r a now).snapshot r.condition_id r.token_id
      ≡ or_else
          (bought r now (snapshot_position a r.condition_id r.token_id))
          (get_position s.snapshot r.condition_id r.token_id)
unfolding apply_buy_result
apply_buy_result-get_position s r a now v h =
    let held = snapshot_position a r.condition_id r.token_id in
    rw h (
      written s r a (bought r now held)
        (bought-KeyOf r now held (snapshot_position-KeyOf a r.condition_id r.token_id)) v
        (write_bought-StoreValid s a (bought r now held) v))

-- A buy of the market and token that filled, whole or in part, with the shares and the amount that the
-- exchange names.
pub record IsFill (c t : String) (r : OrderResult) : Type 0 where
  pub market : r.condition_id ≡ c
  pub token : r.token_id ≡ t
  pub status :
      (r.status ≡ OrderResultStatus.full_fill) ⊎ (r.status ≡ OrderResultStatus.partial_fill)
  pub filled : lt (of_ℕ 0) r.matched_shares ≡ true
  pub paid : lt (of_ℕ 0) r.spent_usdc ≡ true

-- The results one after the other, each with the time of its call and the account as it is then.
abbrev pub buy_all : AccountStore → List (OrderResult × Time) → AccountStore
buy_all s [] = s
buy_all s ((r, now) ∷ rest) = buy_all (apply_buy_result s r (some s.snapshot) now) rest

-- An amount that each result adds to, or that the first one sets.
abbrev pub grown :
    (OrderResult → Decimal) → Option Decimal → List (OrderResult × Time) → Option Decimal
grown f o [] = o
grown f none ((r, now) ∷ rest) = grown f (some (f r)) rest
grown f (some d) ((r, now) ∷ rest) = grown f (some (add d (f r))) rest

abbrev pub held_of : (Position → Decimal) → Option Position → Option Decimal
held_of f none = none
held_of f (some p) = some (f p)

apply_buy_result-StoreValid :
    (s : AccountStore) (r : OrderResult) (a : Option AccountSnapshot) (now : Time)
    → StoreValid s
    → StoreValid (apply_buy_result s r a now)
unfolding projector_step
apply_buy_result-StoreValid s r a now v = projector_step-StoreValid (buy_result r a now) s v

module _ (c t : String) (r : OrderResult) (now : Time) (h : IsFill c t r) where
  settles : settles_buy r.status ≡ true
  settles = elim h.status [ inl e ↦ rw e refl | inr e ↦ rw e refl ]

  filled_lem : filled_shares r ≡ r.matched_shares
  unfolding filled_shares
  filled_lem = rw h.filled refl

  spent_lem : spent_usdc r ≡ r.spent_usdc
  unfolding spent_usdc
  spent_lem = rw h.paid refl

  some_filled : le (filled_shares r) (of_ℕ 0) ≡ false
  some_filled = rw filled_lem (let k = h.filled in ground arith)

  bought-grown :
      (held : Option Position)
      → (held_of (λ p. p.shares) (or_else (bought r now held) held)
          ≡ grown (λ q. q.matched_shares) (held_of (λ p. p.shares) held) ((r, now) ∷ []))
        × (held_of (λ p. p.cost_usdc) (or_else (bought r now held) held)
            ≡ grown (λ q. q.spent_usdc) (held_of (λ p. p.cost_usdc) held) ((r, now) ∷ []))
  unfolding bought
  bought-grown none = rw some_filled (ap some filled_lem, ap some spent_lem)
  bought-grown (some p) =
      (ap (λ x. some (add p.shares x)) filled_lem, ap (λ x. some (add p.cost_usdc x)) spent_lem)

  found_at : (a : AccountSnapshot) → get_position a r.condition_id r.token_id ≡ get_position a c t
  found_at a = ap (λ d. get_position a d r.token_id) h.market ∙ ap (λ u. get_position a c u) h.token

  bought_by :
      (s : AccountStore)
      → StoreValid s
      → get_position (apply_buy_result s r (some s.snapshot) now).snapshot c t
        ≡ or_else (bought r now (get_position s.snapshot c t)) (get_position s.snapshot c t)
  bought_by s v =
      sym (found_at (apply_buy_result s r (some s.snapshot) now).snapshot)
      ∙ apply_buy_result-get_position s r (some s.snapshot) now v settles
      ∙ ap (λ o. or_else (bought r now o) o) (found_at s.snapshot)

grown_next :
    (f : OrderResult → Decimal) (o : Option Decimal) (x : OrderResult × Time)
    (rest : List (OrderResult × Time))
    → grown f (grown f o (x ∷ [])) rest ≡ grown f o (x ∷ rest)
grown_next f none (r, now) rest = refl
grown_next f (some d) (r, now) rest = refl

-- Over any results of one market and token with the status full_fill or partial_fill, matched shares
-- and a spent amount above zero, each applied as a buy with the account as it is then to a store that
-- is valid at the start, the shares of the position that readers find grow by the matched shares of
-- each result, and its cost by the amount that each spent; where there was no position the first
-- result makes one with its own.
pub buy_all-grown :
    (c t : String) (s : AccountStore) (fills : List (OrderResult × Time))
    → StoreValid s
    → All (λ x. IsFill c t x.0) fills
    → (held_of (λ p. p.shares) (get_position (buy_all s fills).snapshot c t)
        ≡ grown
            (λ r. r.matched_shares)
            (held_of (λ p. p.shares) (get_position s.snapshot c t))
            fills)
      × (held_of (λ p. p.cost_usdc) (get_position (buy_all s fills).snapshot c t)
          ≡ grown
              (λ r. r.spent_usdc)
              (held_of (λ p. p.cost_usdc) (get_position s.snapshot c t))
              fills)
buy_all-grown c t s [] v h = (refl, refl)
buy_all-grown c t s ((r, now) ∷ rest) v (h, hs) =
    let held = get_position s.snapshot c t in
    let step = bought-grown c t r now h held in
    let there = bought_by c t r now h s v in
    let u = apply_buy_result s r (some s.snapshot) now in
    let more =
      buy_all-grown c t u rest (apply_buy_result-StoreValid s r (some s.snapshot) now v) hs in
    (
      more.0
          ∙ ap (λ o. grown (λ q. q.matched_shares) o rest)
              (ap (held_of (λ p. p.shares)) there ∙ step.0)
          ∙ grown_next (λ q. q.matched_shares) (held_of (λ p. p.shares) held) (r, now) rest,
      more.1
          ∙ ap (λ o. grown (λ q. q.spent_usdc) o rest)
              (ap (held_of (λ p. p.cost_usdc)) there ∙ step.1)
          ∙ grown_next (λ q. q.spent_usdc) (held_of (λ p. p.cost_usdc) held) (r, now) rest,
    )
