-- ===== src/Decimal/Zero.antt =====
-- Zero through arithmetic: what is zero stays exactly zero.
use native.Mathlib.Nat.{one-le-pow, zero-mul}
use fdv.Base.{ℕ, ◌^◌, ◌<◌, ◌≡◌, ap, ◌-◌, arith}
use fdv.Base.Integer.{ℤ, pos, ◌*ℤ◌, magnitude}
use fdv.Decimal.{Decimal, half_even, half_up, excess_digits, in_context, mul, quantize}

abbrev pub IsZero : Decimal → Type 0
IsZero a = a.coef ≡ pos 0

*ℤ_zero_left : (a : ℤ) → pos 0 *ℤ a ≡ pos 0
unfolding ◌*ℤ◌
*ℤ_zero_left a = ground arith

*ℤ_zero_right : (a : ℤ) → a *ℤ pos 0 ≡ pos 0
unfolding ◌*ℤ◌
*ℤ_zero_right a = ground arith

half_up-zero : (k : ℕ) → half_up 0 k ≡ 0
unfolding half_up
half_up-zero k = let p : 0 < 10 ^ k = one-le-pow k 10 (omega arith) in grind arith

half_even-zero : (k : ℕ) → half_even 0 k ≡ 0
unfolding half_even
half_even-zero k = let p : 0 < 10 ^ k = one-le-pow k 10 (omega arith) in grind arith

pub in_context-IsZero : (a : Decimal) → IsZero a → IsZero (in_context a)
unfolding in_context half_even excess_digits
in_context-IsZero a h = rw h (
    ap pos
      (omega (arith, half_even-zero (excess_digits (magnitude (pos 0)) 28 (magnitude (pos 0))))))

pub mul-IsZero_left : (a b : Decimal) → IsZero a → IsZero (mul a b)
unfolding mul
mul-IsZero_left a b h = in_context-IsZero _ (rw h (*ℤ_zero_left b.coef))

pub mul-IsZero_right : (a b : Decimal) → IsZero b → IsZero (mul a b)
unfolding mul
mul-IsZero_right a b h = in_context-IsZero _ (rw h (*ℤ_zero_right a.coef))

pub quantize-IsZero : (k : ℕ) (a : Decimal) → IsZero a → IsZero (quantize k a)
unfolding quantize
quantize-IsZero k a h = rw h (ap pos (rw zero-mul (half_up-zero (a.scale - k))))
