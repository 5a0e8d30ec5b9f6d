-- ===== src/Decimal/Sign.antt =====
-- Which operations keep decimals at or above zero.
use fdv.Base.{ℕ, ◌+◌, ◌*◌, ◌≤◌, leb→le, le→leb, arith}
use fdv.Base.Integer.{
  ℤ, pos, negsuc, pos_part, neg_part, ◌≤ℤ◌, ◌-ℤ◌, ◌*ℤ◌, +ℤ_nonneg, *ℤ_nonneg, with_sign_nonneg,
}
use fdv.Decimal.{Decimal, le, ◌≼◌, of_ℕ, in_context, add, sub, mul, div, quantize, tens}

pub nonneg_of_coef : (a : Decimal) → pos 0 ≤ℤ a.coef → of_ℕ 0 ≼ a
unfolding le
nonneg_of_coef a h = le→leb _ _ (omega arith)

pub coef_of_nonneg : (a : Decimal) → of_ℕ 0 ≼ a → pos 0 ≤ℤ a.coef
unfolding le
coef_of_nonneg a h = let k = leb→le _ _ h in omega arith

tens_nonneg : (k : ℕ) → pos 0 ≤ℤ tens k
tens_nonneg k = omega arith

pub in_context-nonneg : (a : Decimal) → pos 0 ≤ℤ a.coef → of_ℕ 0 ≼ in_context a
unfolding in_context
in_context-nonneg a h = nonneg_of_coef _ (with_sign_nonneg a.coef _ h)

pub add-nonneg : (a b : Decimal) → of_ℕ 0 ≼ a → of_ℕ 0 ≼ b → of_ℕ 0 ≼ add a b
unfolding add
add-nonneg a b h k = in_context-nonneg _ (
    +ℤ_nonneg _ _ (*ℤ_nonneg a.coef (tens b.scale) (coef_of_nonneg a h) (tens_nonneg b.scale))
      (*ℤ_nonneg b.coef (tens a.scale) (coef_of_nonneg b k) (tens_nonneg a.scale)))

pub mul-nonneg : (a b : Decimal) → of_ℕ 0 ≼ a → of_ℕ 0 ≼ b → of_ℕ 0 ≼ mul a b
unfolding mul
mul-nonneg a b h k = in_context-nonneg _ (*ℤ_nonneg _ _ (coef_of_nonneg a h) (coef_of_nonneg b k))

pub div-nonneg : (a b : Decimal) → of_ℕ 0 ≼ a → of_ℕ 0 ≼ b → of_ℕ 0 ≼ div a b
unfolding div
div-nonneg a b h k = in_context-nonneg _ (
    *ℤ_nonneg _ _ (with_sign_nonneg a.coef _ (coef_of_nonneg a h))
      (with_sign_nonneg b.coef _ (coef_of_nonneg b k)))

pub quantize-nonneg : (places : ℕ) (a : Decimal) → of_ℕ 0 ≼ a → of_ℕ 0 ≼ quantize places a
unfolding quantize
quantize-nonneg places a h = nonneg_of_coef _ (with_sign_nonneg a.coef _ (coef_of_nonneg a h))

cross_sub :
    (x y : ℤ) (k l : ℕ)
    → pos_part y * l + neg_part x * k ≤ pos_part x * k + neg_part y * l
    → pos 0 ≤ℤ x *ℤ pos k -ℤ y *ℤ pos l
unfolding ◌*ℤ◌ ◌-ℤ◌
cross_sub (pos m) (pos n) k l h = ground arith
cross_sub (pos m) (negsuc n) k l h = ground arith
cross_sub (negsuc m) (pos n) k l h = ground arith
cross_sub (negsuc m) (negsuc n) k l h = ground arith

pub sub-nonneg : (a b : Decimal) → b ≼ a → of_ℕ 0 ≼ sub a b
unfolding sub le
sub-nonneg a b h = in_context-nonneg _ (cross_sub a.coef b.coef _ _ (leb→le _ _ h))
