-- ===== src/Decimal.antt =====
-- Python's `decimal.Decimal`, as far as the program uses it: finite numbers under the default
-- context, 28 significant digits and ROUND_HALF_EVEN. `coef` over ten to the `scale`.
-- Equality and order compare values; signed zeros, NaN, infinities and the exponent limits are
-- left out.
pub mod Order
pub mod Sign
pub mod Zero
pub mod Text
use fdv.Base.{
  ℕ, zero, suc, ◌+◌, ◌-◌, ◌*◌, ◌/◌, ◌%◌, ◌^◌, ◌≡◌, refl, Bool, true, false, ◌&&◌, ltb, leb, nat_beq,
  if◌then◌else◌, Option, none, some,
}
use fdv.Base.Integer.{
  ℤ, pos, negsuc, pos_part, neg_part, ◌+ℤ◌, ◌-ℤ◌, ◌*ℤ◌, leb_ℤ, magnitude, with_sign,
}

pub record Decimal : Type 0 where
  pub coef : ℤ
  pub scale : ℕ

-- `Decimal(n)` for a natural number, and a literal with two digits after the point.
abbrev pub of_ℕ : ℕ → Decimal
of_ℕ n = record { coef = pos n; scale = 0 }

abbrev pub hundredths : ℕ → Decimal
hundredths n = record { coef = pos n; scale = 2 }

-- How many of the last digits of `n` do not fit in `precision` digits.
unfoldable pub excess_digits : ℕ → ℕ → ℕ → ℕ
excess_digits zero precision n = 0
excess_digits (suc fuel) precision n = elim (ltb n (10 ^ precision)) [
  | true ↦ 0
  | false ↦ suc (excess_digits fuel precision (n / 10))
]

-- `n` over ten to the `k`, rounded half to even and half up.
unfoldable pub half_even : ℕ → ℕ → ℕ
half_even n k =
    let q = n / 10 ^ k in
    let r = n % 10 ^ k in
    if ltb (10 ^ k) (r + r)
    then q + 1
    else if nat_beq (r + r) (10 ^ k) && nat_beq (q % 2) 1
    then q + 1
    else q

unfoldable pub half_up : ℕ → ℕ → ℕ
half_up n k = let q = n / 10 ^ k in let r = n % 10 ^ k in if leb (10 ^ k) (r + r) then q + 1 else q

-- A result of arithmetic is rounded to the context's 28 digits. A scale that would go below zero
-- is made up by zeros in the coefficient, so the value is Python's.
unfoldable pub in_context : Decimal → Decimal
in_context a =
    let k = excess_digits (magnitude a.coef) 28 (magnitude a.coef) in
    record {
      coef = with_sign a.coef (half_even (magnitude a.coef) k * 10 ^ (k - a.scale));
      scale = a.scale - k;
    }

-- Ten to a scale, as an integer.
abbrev pub tens : ℕ → ℤ
tens k = pos (10 ^ k)

-- `a + b`, `a - b`, `a * b`
unfoldable pub add : Decimal → Decimal → Decimal
add a b =
    in_context (record {
      coef = a.coef *ℤ tens b.scale +ℤ b.coef *ℤ tens a.scale;
      scale = a.scale + b.scale;
    })

unfoldable pub sub : Decimal → Decimal → Decimal
sub a b =
    in_context (record {
      coef = a.coef *ℤ tens b.scale -ℤ b.coef *ℤ tens a.scale;
      scale = a.scale + b.scale;
    })

unfoldable pub mul : Decimal → Decimal → Decimal
mul a b = in_context (record { coef = a.coef *ℤ b.coef; scale = a.scale + b.scale })

-- `a / b`: the quotient with at least one digit too many, and a last digit that records an inexact
-- remainder, is rounded to the context. Python raises at `b = 0`, where this is 0: the program
-- tests for it first.
unfoldable pub div : Decimal → Decimal → Decimal
div a b =
    let n = magnitude a.coef * 10 ^ b.scale in
    let d = magnitude b.coef * 10 ^ a.scale in
    let shift = excess_digits d 0 d + 29 in
    let q = n * 10 ^ shift / d in
    let sticky =
      if nat_beq (n * 10 ^ shift % d) 0 then q else if nat_beq (q % 5) 0 then q + 1 else q in
    in_context (record { coef = with_sign a.coef 1 *ℤ with_sign b.coef sticky; scale = shift })

-- `a % b` is zero: `a` is a whole multiple of `b`. Python raises when the whole quotient has more
-- than 28 digits, which no price and tick size have.
unfoldable pub divides : Decimal → Decimal → Bool
divides b a = nat_beq (magnitude a.coef * 10 ^ b.scale % (magnitude b.coef * 10 ^ a.scale)) 0

-- `a.quantize(Decimal(1).scaleb(-places), rounding=ROUND_HALF_UP)`
unfoldable pub quantize : ℕ → Decimal → Decimal
quantize places a = record {
  coef = with_sign a.coef (half_up (magnitude a.coef * 10 ^ (places - a.scale)) (a.scale - places));
  scale = places;
}

-- `a <= b`, and the other comparisons by it.
unfoldable pub le : Decimal → Decimal → Bool
le a b =
    leb (pos_part a.coef * 10 ^ b.scale + neg_part b.coef * 10 ^ a.scale)
      (pos_part b.coef * 10 ^ a.scale + neg_part a.coef * 10 ^ b.scale)

abbrev pub lt : Decimal → Decimal → Bool
lt a b = if le b a then false else true

abbrev pub same_value : Decimal → Decimal → Bool
same_value a b = le a b && le b a

unfoldable pub max_of : Decimal → Decimal → Decimal
max_of a b = if lt a b then b else a

unfoldable pub min_of : Decimal → Decimal → Decimal
min_of a b = if lt b a then b else a

-- The order that the comparisons decide.
infix 50 ◌≼◌ ◌≺◌
abbrev pub ◌≼◌ : Decimal → Decimal → Type 0
a ≼ b = le a b ≡ true

abbrev pub ◌≺◌ : Decimal → Decimal → Type 0
a ≺ b = le b a ≡ false

-- What an evaluation of decimals unfolds.
unfoldable pub evaluate : Decimal → Decimal
unfolding excess_digits half_even half_up in_context ◌+ℤ◌ ◌-ℤ◌ ◌*ℤ◌ add sub mul div divides quantize
    le max_of min_of
evaluate a = a
