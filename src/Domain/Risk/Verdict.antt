-- ===== src/Domain/Risk/Verdict.antt =====
-- A gate goes on exactly when its condition holds, and how such facts combine along a chain.
use fdv.Base.{Bool, true, false, String, ◌≡◌, refl, ◌↔◌, List, if◌then◌else◌}
use fdv.Domain.Risk.Types.{RiskCheck, RiskDecision, Gate, go, stop, ◌>>=◌, Failure}
use fdv.Domain.Risk.Gates.{fail}

pub data Verdict (C : Type 0) : Gate → Type 0 where
  clears : (checks : List RiskCheck) → C → Verdict C (go checks)
  refuses : (d : RiskDecision) → ¬ C → d.passed ≡ false → Verdict C (stop d)

module _ {C : Type 0} where
  pub Verdict-iff : {D : Type 0} {g : Gate} → C ↔ D → Verdict C g → Verdict D g
  Verdict-iff e (clears checks c) = clears checks (e.0 c)
  Verdict-iff e (refuses d n failed) = refuses d (λ x. n (e.1 x)) failed

  and_then : {D : Type 0} {g : Gate} → C → Verdict D g → Verdict (C × D) g
  and_then c (clears checks x) = clears checks (c, x)
  and_then c (refuses d n failed) = refuses d (λ p. n p.1) failed

  pub Verdict-bind :
      {D : Type 0} {g : Gate} (f : List RiskCheck → Gate)
      → Verdict C g
      → ((checks : List RiskCheck) → Verdict D (f checks))
      → Verdict (C × D) (g >>= f)
  Verdict-bind f (clears checks c) k = and_then c (k checks)
  Verdict-bind f (refuses d n failed) k = refuses d (λ p. n p.0) failed

pub Verdict-fail :
    {C : Type 0} (t : String) (checks : List RiskCheck) (f : Failure)
    → ¬ C
    → Verdict C (fail t checks f)
unfolding fail
Verdict-fail t checks f n = refuses _ n refl

module _ (t : String) (checks noted : List RiskCheck) (f : Failure) where
  pub Verdict-unless : (b : Bool) → Verdict (b ≡ false) (if b then fail t checks f else go noted)
  Verdict-unless true = Verdict-fail t checks f (λ e. cc)
  Verdict-unless false = clears noted refl

  pub Verdict-when : (b : Bool) → Verdict (b ≡ true) (if b then go noted else fail t checks f)
  Verdict-when true = clears noted refl
  Verdict-when false = Verdict-fail t checks f (λ e. cc)
