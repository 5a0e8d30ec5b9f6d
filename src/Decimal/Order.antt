-- ===== src/Decimal/Order.antt =====
-- The order of decimals is a total preorder.
use native.Mathlib.Nat.{mul-le-mul_right, le_of_mul-le-mul_right, one-le-pow}
use fdv.Base.{ℕ, ◌+◌, ◌*◌, ◌^◌, ◌≤◌, ◌<◌, ◌≡◌, false, leb→le, le→leb, arith}
use fdv.Base.Integer.{pos_part, neg_part}
use fdv.Decimal.{Decimal, le, ◌≼◌, max_of, min_of}

pub ≼_refl : (a : Decimal) → a ≼ a
unfolding le
≼_refl a = ground arith

pub ≼_total : (a b : Decimal) → le a b ≡ false → b ≼ a
unfolding le
≼_total a b h = ground arith

tens_pos : (k : ℕ) → 0 < 10 ^ k
tens_pos k = one-le-pow k 10 (omega arith)

-- Two fractions with a third between them, over positive denominators.
cross :
    (p m q n r o x y z : ℕ)
    → 0 < y
    → p * y + n * x ≤ q * x + m * y
    → q * z + o * y ≤ r * y + n * z
    → p * z + o * x ≤ r * x + m * z
cross p m q n r o x y z hy h k =
    le_of_mul-le-mul_right {k = y} (omega (arith, mul-le-mul_right z h, mul-le-mul_right x k)) hy

pub ≼_trans : (a b c : Decimal) → a ≼ b → b ≼ c → a ≼ c
unfolding le
≼_trans a b c h k = le→leb _ _ (
    cross (pos_part a.coef) (neg_part a.coef) (pos_part b.coef) (neg_part b.coef) (pos_part c.coef)
      (neg_part c.coef) (10 ^ a.scale) (10 ^ b.scale) (10 ^ c.scale) (tens_pos b.scale)
      (leb→le _ _ h) (leb→le _ _ k))

pub max_of-ge : (a b : Decimal) → (a ≼ max_of a b) × (b ≼ max_of a b)
unfolding max_of
max_of-ge a b = ground (arith, ≼_refl a, ≼_refl b, ≼_total b a)

pub min_of-le : (a b : Decimal) → (min_of a b ≼ a) × (min_of a b ≼ b)
unfolding min_of
min_of-le a b = ground (arith, ≼_refl a, ≼_refl b, ≼_total a b)
