-- ===== src/Domain/Fees.antt =====
-- src/polymarket_trader/domain/fees.py: the fee of a trade and the preview of taker fees.
-- Sides and roles are the literal values that the type hints name, so stripping and lowering their
-- text changes nothing. The quantized values are taken to fit the context's 28 digits.
pub mod Laws
use fdv.Base.{
  ℕ, zero, suc, Bool, true, false, not, ◌&&◌, Option, none, some, get_or, or_else, is_none,
  if◌then◌else◌,
}
use fdv.Base.Integer.{ℤ, pos, negsuc}
use fdv.Decimal.{Decimal, of_ℕ, sub, mul, div, quantize, lt, same_value}
use fdv.Domain.Market.{Market}
use fdv.Domain.Orderbook.{OrderbookSnapshot}

pub data TradeSide : Type 0 where
  buy sell : TradeSide

pub data LiquidityRole : Type 0 where
  maker taker : LiquidityRole

pub data ChargedIn : Type 0 where
  shares usdc : ChargedIn

pub data PriceSource : Type 0 where
  best_ask best_bid : PriceSource

-- The `ValueError`s of `_normalize_price` and `_normalize_size`.
pub data FeeError : Type 0 where
  bad_price bad_size : Decimal → FeeError

pub data Result (A : Type 0) : Type 0 where
  ok : A → Result A
  err : FeeError → Result A

infixl 5 ◌>>=◌
abbrev pub ◌>>=◌ : {A B : Type 0} → Result A → (A → Result B) → Result B
ok a >>= f = f a
err e >>= f = err e

pub record FeeQuote : Type 0 where
  pub price : Decimal
  pub size_shares : Decimal
  pub fee_rate_bps : ℤ
  pub fee_usdc : Decimal
  pub fee_shares : Option Decimal
  pub charged_in : ChargedIn
  pub side : TradeSide
  pub liquidity_role : LiquidityRole
  pub price_source : Option PriceSource

pub record TakerFeePreview : Type 0 where
  pub basis_size_shares : Decimal
  pub fee_rate_bps : ℤ
  pub buy : Option FeeQuote
  pub sell : Option FeeQuote

unfoldable pub normalize_price : Decimal → Result Decimal
normalize_price p =
    if lt p (of_ℕ 0) then err (bad_price p) else if lt (of_ℕ 1) p then err (bad_price p) else ok p

unfoldable pub normalize_size : Decimal → Result Decimal
normalize_size s = if lt s (of_ℕ 0) then err (bad_size s) else ok s

unfoldable pub bps_to_rate : ℤ → Decimal
bps_to_rate (pos zero) = of_ℕ 0
bps_to_rate (pos (suc n)) = div (of_ℕ (suc n)) (of_ℕ 1000)
bps_to_rate (negsuc n) = of_ℕ 0

-- `_round_fee_usdc` and `_round_fee_shares`: five digits after the point.
abbrev pub round_fee : Decimal → Decimal
round_fee = quantize 5

abbrev pub is_taker : LiquidityRole → Bool
is_taker LiquidityRole.taker = true
is_taker LiquidityRole.maker = false

abbrev pub charged_in_of : TradeSide → ChargedIn
charged_in_of TradeSide.buy = shares
charged_in_of TradeSide.sell = usdc

abbrev pub positive_rate : Option ℤ → ℤ
positive_rate none = pos 0
positive_rate (some (pos n)) = pos n
positive_rate (some (negsuc n)) = pos 0

-- The rate that applies: none for makers, where fees are off, and where it is not positive.
unfoldable pub effective_rate : Option Bool → LiquidityRole → Option ℤ → ℤ
effective_rate fees_enabled role rate =
    if get_or fees_enabled true && is_taker role then positive_rate rate else pos 0

unfoldable pub trade_fee_usdc : Decimal → Decimal → ℤ → Decimal
unfolding bps_to_rate
trade_fee_usdc price size rate =
    round_fee (mul (mul (mul size (bps_to_rate rate)) price) (sub (of_ℕ 1) price))

unfoldable pub trade_fee_shares : TradeSide → Decimal → Decimal → Option Decimal
trade_fee_shares TradeSide.sell price fee = none
trade_fee_shares TradeSide.buy price fee =
    some (if same_value price (of_ℕ 0) then of_ℕ 0 else round_fee (div fee price))

unfoldable pub quote_of :
    Decimal
    → Decimal
    → TradeSide
    → Option ℤ
    → Option Bool
    → LiquidityRole
    → Option PriceSource
    → FeeQuote
unfolding effective_rate trade_fee_usdc trade_fee_shares
quote_of price size side fee_rate_bps fees_enabled role source =
    let rate = effective_rate fees_enabled role fee_rate_bps in
    let fee = trade_fee_usdc price size rate in
    record {
      price = price;
      size_shares = size;
      fee_rate_bps = rate;
      fee_usdc = fee;
      fee_shares = trade_fee_shares side price fee;
      charged_in = charged_in_of side;
      side = side;
      liquidity_role = role;
      price_source = source;
    }

unfoldable pub calculate_trade_fee :
    Decimal
    → Decimal
    → TradeSide
    → Option ℤ
    → Option Bool
    → LiquidityRole
    → Option PriceSource
    → Result FeeQuote
unfolding normalize_price normalize_size
calculate_trade_fee price size side fee_rate_bps fees_enabled role source = do
  p ← normalize_price price
  s ← normalize_size size
  ok (quote_of p s side fee_rate_bps fees_enabled role source)

unfoldable pub resolve_effective_taker_fee_rate_bps : Market → Option ℤ
resolve_effective_taker_fee_rate_bps m =
    if get_or m.fees_enabled true then or_else m.fee_rate_bps m.taker_base_fee_bps else some (pos 0)

-- One side of the preview: a quote at the best price, if the book has one.
unfoldable pub preview_side :
    Market → Option Decimal → Decimal → TradeSide → ℤ → PriceSource → Result (Option FeeQuote)
preview_side m none basis side rate source = ok none
preview_side m (some price) basis side rate source = do
  q ←
      calculate_trade_fee price basis side (some rate) m.fees_enabled LiquidityRole.taker
        (some source)
  ok (some q)

unfoldable pub preview_of :
    Market → Decimal → ℤ → Option FeeQuote → Option FeeQuote → Option TakerFeePreview
preview_of m basis rate buy_quote sell_quote =
    if is_none buy_quote && is_none sell_quote
    then none
    else some (record {
      basis_size_shares = basis;
      fee_rate_bps = if get_or m.fees_enabled true then rate else pos 0;
      buy = buy_quote;
      sell = sell_quote;
    })

unfoldable pub preview_at :
    Market → OrderbookSnapshot → Decimal → Option ℤ → Result (Option TakerFeePreview)
unfolding preview_side preview_of
preview_at m book basis none = ok none
preview_at m book basis (some rate) = do
  buy_quote ← preview_side m book.best_ask basis TradeSide.buy rate PriceSource.best_ask
  sell_quote ← preview_side m book.best_bid basis TradeSide.sell rate PriceSource.best_bid
  ok (preview_of m basis rate buy_quote sell_quote)

unfoldable pub build_taker_fee_preview :
    Market → Option OrderbookSnapshot → Decimal → Result (Option TakerFeePreview)
unfolding preview_at
build_taker_fee_preview m none basis_size_shares = ok none
build_taker_fee_preview m (some book) basis_size_shares = do
  basis ← normalize_size basis_size_shares
  preview_at m book basis (resolve_effective_taker_fee_rate_bps m)
