-- ===== src/Domain/Risk/Trail.antt =====
-- What a decision's list of checks shows to an auditor.
use fdv.Base.{
  Bool, true, false, String, some, ◌≡◌, refl, ◌⊎◌, inl, inr, List, [], ◌∷◌, ◌++◌, All, All-append,
  if◌then◌else◌,
}
use fdv.Domain.Risk.Types.{RiskCheck, RiskDecision, Gate, go, stop, ◌>>=◌, Failure}
use fdv.Domain.Risk.Gates.{failed_check, fail}

abbrev pub Passed : RiskCheck → Type 0
Passed c = c.passed ≡ true

-- A check before the failing one passed, or is the first of the two notes of a failed market flag.
abbrev pub Earlier : Failure → RiskCheck → Type 0
Earlier f c = (c.passed ≡ true) ⊎ ((c.name ≡ f.name) × (c.field_name ≡ some f.field_name))

-- The decision that reports a failure after the given checks.
abbrev pub failed_decision : String → List RiskCheck → Failure → RiskDecision
failed_decision trace_id earlier f = record {
  passed = false;
  reason = f.reason;
  trace_id = trace_id;
  failed_field = some f.field_name;
  suggested_action = f.suggested_action;
  retryable = f.retryable;
  checks = earlier ++ failed_check f ∷ [];
}

-- Only a lack of liquidity may be tried again.
abbrev pub RetryIsLiquidity : Failure → Type 0
RetryIsLiquidity f = f.retryable ≡ true → f.name ≡ "liquidity_gate"

pub data Trail (t : String) : Gate → Type 0 where
  passing : (checks : List RiskCheck) → All Passed checks → Trail t (go checks)
  failing :
      (d : RiskDecision) (earlier : List RiskCheck) (f : Failure)
      → d ≡ failed_decision t earlier f
      → All (Earlier f) earlier
      → RetryIsLiquidity f
      → Trail t (stop d)

pub Trail-bind :
    {t : String} {g : Gate} (f : List RiskCheck → Gate)
    → Trail t g
    → ((checks : List RiskCheck) → All Passed checks → Trail t (f checks))
    → Trail t (g >>= f)
Trail-bind f (passing checks p) k = k checks p
Trail-bind f (failing d earlier x e p q) k = failing d earlier x e p q

Earlier-of_Passed :
    (f : Failure) (checks : List RiskCheck) → All Passed checks → All (Earlier f) checks
Earlier-of_Passed f [] p = tt
Earlier-of_Passed f (c ∷ checks) p = (inl p.0, Earlier-of_Passed f checks p.1)

pub All-snoc :
    (P : RiskCheck → Type 0) (checks : List RiskCheck) (c : RiskCheck)
    → All P checks
    → P c
    → All P (checks ++ c ∷ [])
All-snoc P checks c p q = All-append P checks (c ∷ []) p (q, tt)

module _ (t : String) (checks : List RiskCheck) (f : Failure) where
  pub Trail-fail : All Passed checks → RetryIsLiquidity f → Trail t (fail t checks f)
  unfolding fail
  Trail-fail p q = failing _ checks f refl (Earlier-of_Passed f checks p) q

  -- The failure of a row that was noted once already.
  pub Trail-fail_row :
      (c : RiskCheck)
      → All Passed checks
      → (c.name ≡ f.name) × (c.field_name ≡ some f.field_name)
      → RetryIsLiquidity f
      → Trail t (fail t (checks ++ c ∷ []) f)
  unfolding fail
  Trail-fail_row c p n q =
      failing _ (checks ++ c ∷ []) f refl
        (All-snoc _ checks c (Earlier-of_Passed f checks p) (inr n)) q

  module _ (p : All Passed checks) (q : RetryIsLiquidity f) where
    pub Trail-unless : (b : Bool) → Trail t (if b then fail t checks f else go checks)
    Trail-unless true = Trail-fail p q
    Trail-unless false = passing checks p

    pub Trail-when : (b : Bool) → Trail t (if b then go checks else fail t checks f)
    Trail-when true = passing checks p
    Trail-when false = Trail-fail p q

    pub Trail-unless_note :
        (c : RiskCheck) (b : Bool)
        → c.passed ≡ true
        → Trail t (if b then fail t checks f else go (checks ++ c ∷ []))
    Trail-unless_note c true n = Trail-fail p q
    Trail-unless_note c false n = passing _ (All-snoc _ checks c p n)

    pub Trail-when_note :
        (c : RiskCheck) (b : Bool)
        → c.passed ≡ true
        → Trail t (if b then go (checks ++ c ∷ []) else fail t checks f)
    Trail-when_note c true n = passing _ (All-snoc _ checks c p n)
    Trail-when_note c false n = Trail-fail p q
