-- ===== src/Decimal/Text.antt =====
-- `str` of a number and of a decimal.
use fdv.Base.{
  ℕ, zero, suc, ◌+◌, ◌-◌, ◌/◌, ◌%◌, String, str_append, List, [], ◌∷◌, ◌++◌, length, ltb, leb,
  if◌then◌else◌,
}
use fdv.Base.Integer.{pos, negsuc, magnitude}
use fdv.Decimal.{Decimal}

abbrev pub text_at : ℕ → List String → String
text_at n [] = ""
text_at zero (t ∷ ts) = t
text_at (suc n) (t ∷ ts) = text_at n ts

abbrev pub digit_text : ℕ → String
digit_text n = text_at n ("0" ∷ "1" ∷ "2" ∷ "3" ∷ "4" ∷ "5" ∷ "6" ∷ "7" ∷ "8" ∷ "9" ∷ [])

-- The decimal digits, the first one first; fuel `n` is enough, as each round divides by ten.
unfoldable pub digits_of : ℕ → ℕ → List ℕ
digits_of zero n = n % 10 ∷ []
digits_of (suc fuel) n =
    let rest = digits_of fuel (n / 10) in if ltb n 10 then n ∷ [] else rest ++ n % 10 ∷ []

abbrev pub digits_text : List ℕ → String
digits_text [] = ""
digits_text (d ∷ ds) = str_append (digit_text d) (digits_text ds)

unfoldable pub ℕ_text : ℕ → String
unfolding digits_of
ℕ_text n = digits_text (digits_of n n)

abbrev pub zeros : ℕ → String
zeros zero = ""
zeros (suc n) = str_append "0" (zeros n)

-- The digits with a point after the first `n` of them.
abbrev pub pointed : ℕ → List ℕ → String
pointed n [] = ""
pointed zero (d ∷ ds) = str_append "." (digits_text (d ∷ ds))
pointed (suc n) (d ∷ ds) = str_append (digit_text d) (pointed n ds)

-- Plain, unless more than five zeros would stand after the point before the first digit.
unfoldable pub unsigned_text : List ℕ → ℕ → String
unfolding ℕ_text
unsigned_text ds scale =
    if leb scale (length ds + 5)
    then (if ltb scale (length ds)
        then pointed (length ds - scale) ds
        else str_append "0." (str_append (zeros (scale - length ds)) (digits_text ds)))
    else str_append (pointed 1 ds) (str_append "E-" (ℕ_text (scale + 1 - length ds)))

unfoldable pub decimal_text : Decimal → String
unfolding unsigned_text digits_of
decimal_text d =
    let n = magnitude d.coef in
    let text = unsigned_text (digits_of n n) d.scale in
    elim d.coef [ pos n ↦ text | negsuc n ↦ str_append "-" text ]
