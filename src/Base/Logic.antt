-- ===== src/Base/Logic.antt =====
-- Equivalences that the specifications are put together from.
use mathlib.Core.Path.{◌≡◌, refl, subst}
use mathlib.Core.Logic.{◌↔◌}
use mathlib.Core.Option.{some}

pub iff_trans {ℓ κ ι} : {A : Type ℓ} {B : Type κ} {C : Type ι} → A ↔ B → B ↔ C → A ↔ C
iff_trans e f = ((λ a. f.0 (e.0 a)), (λ c. e.1 (f.1 c)))

-- What holds of the value that an optional argument has, said of every value that it may be.
pub some_iff {ℓ κ} : {A : Type ℓ} (P : A → Type κ) (a : A) → P a ↔ ((m : A) → some a ≡ some m → P m)
some_iff P a = ((λ p m e. let q : a ≡ m = cc in subst P q p), (λ h. h a refl))
