-- ===== src/Infra/Executor/Phases.antt =====
-- infra/polymarket/order_executor.py: what the index promises of one key, without the index: the phases
-- of a key, and what starts and drops between them.
use mathlib.Core.Path.{subst}
use fdv.Base.{
  arith, ◌≡◌, refl, sym, ap, ℕ, ◌+◌, String, List, [], ◌∷◌, ◌++◌, length, length-append, All,
  All-append, Option, none, some,
}
use fdv.Domain.Order.{OrderResult}
use fdv.Infra.Executor.{OrderExecutionRequest, request_signature}

-- No request was seen; an operation runs; it ended; its result was dropped.
pub data Phase : Type 0 where
  fresh : Phase
  running : String → Phase
  settled : String → OrderResult → Phase
  faded : String → Phase

-- Operations start on a fresh or a faded key only, and with the signature that the key has.
pub data Move : Phase → List OrderExecutionRequest → ℕ → Phase → Type 0 where
  begin : (q : OrderExecutionRequest) → Move fresh (q ∷ []) 0 (running (request_signature q))
  begin_again :
      (q : OrderExecutionRequest)
      → Move (faded (request_signature q)) (q ∷ []) 0 (running (request_signature q))
  end : (s : String) (r : OrderResult) → Move (running s) [] 0 (settled s r)
  fade : (s : String) (r : OrderResult) → Move (settled s r) [] 1 (faded s)

pub data Moves : Phase → List OrderExecutionRequest → ℕ → Phase → Type 0 where
  stay : {p : Phase} → Moves p [] 0 p
  next :
      {p q r : Phase} {a b : List OrderExecutionRequest} {m n : ℕ}
      → Move p a m q
      → Moves q b n r
      → Moves p (a ++ b) (m + n) r

append_assoc : (a b c : List OrderExecutionRequest) → (a ++ b) ++ c ≡ a ++ (b ++ c)
append_assoc [] b c = refl
append_assoc (x ∷ a) b c = ap (λ l. x ∷ l) (append_assoc a b c)

pub Moves-trans :
    {p q r : Phase} {a b : List OrderExecutionRequest} {m n : ℕ}
    → Moves p a m q
    → Moves q b n r
    → Moves p (a ++ b) (m + n) r
Moves-trans {r = r} {b = b} {n = n} (stay {p}) h = subst (λ z. Moves p b z r) (omega arith) h
Moves-trans {r = r} {b = b} {n = n} (next {p} {a = c} {b = d} {m = k} {n = l} one more) h =
    subst (λ z. Moves p z (k + l + n) r) (sym (append_assoc c d b))
      (subst (λ z. Moves p (c ++ (d ++ b)) z r) (omega arith) (next one (Moves-trans more h)))

-- Moves that start and drop nothing come first.
pub Moves-quiet :
    {p q r : Phase} {b : List OrderExecutionRequest} {n : ℕ}
    → Moves p [] 0 q
    → Moves q b n r
    → Moves p b n r
Moves-quiet {p} {r = r} {b = b} {n = n} h k =
    subst (λ z. Moves p b z r) (omega arith) (Moves-trans h k)

-- Whether an operation of the key runs, or its result is kept.
abbrev pub alive : Phase → ℕ
alive fresh = 0
alive (running s) = 1
alive (settled s r) = 1
alive (faded s) = 0

Move-alive :
    {p r : Phase} {a : List OrderExecutionRequest} {n : ℕ}
    → Move p a n r
    → length a + alive p ≡ n + alive r
Move-alive (begin q) = omega arith
Move-alive (begin_again q) = omega arith
Move-alive (end s r) = omega arith
Move-alive (fade s r) = omega arith

pub Moves-alive :
    {p r : Phase} {a : List OrderExecutionRequest} {n : ℕ}
    → Moves p a n r
    → length a + alive p ≡ n + alive r
Moves-alive stay = omega arith
Moves-alive (next {a = a} {b = b} one more) =
    omega (arith, Move-alive one, Moves-alive more, length-append a b)

abbrev pub signature_of : Phase → Option String
signature_of fresh = none
signature_of (running s) = some s
signature_of (settled s r) = some s
signature_of (faded s) = some s

-- A signature that the key has stays.
abbrev pub Keeps : Phase → Phase → Type 0
Keeps p r = (s : String) → signature_of p ≡ some s → signature_of r ≡ some s

-- A request that the key's signature is that of.
abbrev pub SignedBy : Phase → OrderExecutionRequest → Type 0
SignedBy r q = signature_of r ≡ some (request_signature q)

Move-Keeps :
    {p r : Phase} {a : List OrderExecutionRequest} {n : ℕ}
    → Move p a n r
    → Keeps p r × All (SignedBy r) a
Move-Keeps (begin q) = (λ s h. cc, (refl, tt))
Move-Keeps (begin_again q) = (λ s h. h, (refl, tt))
Move-Keeps (end s r) = (λ s h. h, tt)
Move-Keeps (fade s r) = (λ s h. h, tt)

later_signed :
    (q r : Phase) (a : List OrderExecutionRequest)
    → Keeps q r
    → All (SignedBy q) a
    → All (SignedBy r) a
later_signed q r [] k h = tt
later_signed q r (x ∷ a) k h = (k (request_signature x) h.0, later_signed q r a k h.1)

pub Moves-Keeps :
    {p r : Phase} {a : List OrderExecutionRequest} {n : ℕ}
    → Moves p a n r
    → Keeps p r × All (SignedBy r) a
Moves-Keeps stay = (λ s h. h, tt)
Moves-Keeps (next {q = q} {r = r} {a = a} {b = b} one more) =
    let first = Move-Keeps one in
    let later = Moves-Keeps more in
    (
      λ s h. later.0 s (first.0 s h),
      All-append (SignedBy r) a b (later_signed q r a later.0 first.1) later.1,
    )
