-- ===== src/Domain/Orderbook/Depth.antt =====
-- The depth that a price cap leaves.
use fdv.Base.{not, ◌≡◌, refl, inl, inr, none, some, List, [], ◌∷◌, filter_by, Bool-cases}
use fdv.Decimal.{Decimal, of_ℕ, add, lt}
use fdv.Domain.Orderbook.{PriceLevel, OrderbookSnapshot, ask_depth_from, buyable_ask_depth}

-- The asks at or below a price.
abbrev pub asks_within : Decimal → List PriceLevel → List PriceLevel
asks_within cap = filter_by (λ level. not (lt cap level.price))

ask_depth_from-within :
    (cap total : Decimal) (levels : List PriceLevel)
    → ask_depth_from (some cap) total levels ≡ ask_depth_from none total (asks_within cap levels)
unfolding ask_depth_from
ask_depth_from-within cap total [] = refl
ask_depth_from-within cap total (level ∷ levels) = elim (Bool-cases (lt cap level.price)) [
  | inl above ↦ rw above (ask_depth_from-within cap total levels)
  | inr within ↦ rw within (ask_depth_from-within cap (add total level.size) levels)
]

-- The buyable depth under a price cap is the whole ask depth of the book without the levels above
-- the cap.
pub buyable_ask_depth-within :
    (b : OrderbookSnapshot) (cap : Decimal)
    → buyable_ask_depth b (some cap)
      ≡ buyable_ask_depth (record b { asks = asks_within cap b.asks }) none
unfolding buyable_ask_depth
buyable_ask_depth-within b cap = ask_depth_from-within cap (of_ℕ 0) b.asks
