-- ===== src/Infra/Executor/Refinement.antt =====
-- infra/polymarket/order_executor.py: the index keeps what the phases of a key promise.
use mathlib.Core.Path.{subst}
use fdv.Base.{
  arith, ◌≡◌, refl, ◌≢◌, ap, ◌∙◌, ◌⊎◌, inl, inr, ℕ, ◌+◌, String, false, Option, none, some, List,
  [], ◌∷◌, ◌++◌, length, filter_by, ltb, if◌then◌else◌, ◌==◌, string_eq, Bool-cases,
}
use fdv.Base.Dict.{Dict, lookup, insert, lookup-insert, lookup-insert_ne, Distinct}
use fdv.Domain.Order.{OrderResult}
use fdv.Infra.Executor.{OrderExecutionRequest, request_signature}
use fdv.Infra.Executor.Index.{
  IdempotencyEntry, OrderExecutor, new_executor, Stepped, start_operation, Trimmed, trim_completed,
}
use fdv.Infra.Executor.Phases.{
  Phase, fresh, running, settled, faded, begin, begin_again, fade, Moves, stay, next, Moves-trans,
}

abbrev pub result_phase : String → Option ℕ → Option OrderResult → Phase
result_phase s task (some r) = settled s r
result_phase s (some t) none = running s
result_phase s none none = faded s

abbrev pub entry_phase : Option IdempotencyEntry → Phase
entry_phase none = fresh
entry_phase (some e) = result_phase e.signature e.task e.order_result

abbrev pub phase_of : String → Dict String IdempotencyEntry → Phase
phase_of key index = entry_phase (lookup key index)

abbrev pub drops_for : String → List String → ℕ
drops_for key [] = 0
drops_for key (k ∷ ks) = (if k == key then 1 else 0) + drops_for key ks

pub drops_for-append :
    (key : String) (a b : List String) → drops_for key (a ++ b) ≡ drops_for key a + drops_for key b
drops_for-append key [] b = omega arith
drops_for-append key (k ∷ a) b = omega (arith, drops_for-append key a b)

abbrev pub starts_for : String → List OrderExecutionRequest → List OrderExecutionRequest
starts_for key = filter_by (λ q. q.idempotency_key == key)

pub starts_for-append :
    (key : String) (a b : List OrderExecutionRequest)
    → starts_for key (a ++ b) ≡ starts_for key a ++ starts_for key b
starts_for-append key [] b = refl
starts_for-append key (q ∷ a) b = elim (Bool-cases (q.idempotency_key == key)) [
  | inl h ↦ rw h (ap (λ l. q ∷ l) (starts_for-append key a b))
  | inr h ↦ rw h (starts_for-append key a b)
]

-- A key in flight has an entry that waits for its task.
abbrev pub Awaited : Dict String ℕ → Dict String IdempotencyEntry → Type 0
Awaited inflight index =
    (k : String) (t : ℕ)
    → lookup k inflight ≡ some t
    → (s : String) × (n : ℕ) × (lookup k index
        ≡ some (record { signature = s; task = some n; order_result = none }))

-- A key in the cache has an entry that holds the same result.
abbrev pub Ended : Dict String OrderResult → Dict String IdempotencyEntry → Type 0
Ended completed index =
    (k : String) (r : OrderResult)
    → lookup k completed ≡ some r
    → (s : String) × (lookup k index
        ≡ some (record { signature = s; task = none; order_result = some r }))

pub record ExecutorSound (s : OrderExecutor) : Type 0 where
  pub awaited : Awaited s.inflight s.idempotency_index
  pub ended : Ended s.completed s.idempotency_index
  pub distinct : Distinct s.completed

pub new_executor-ExecutorSound : (n : ℕ) → ExecutorSound (new_executor n)
unfolding lookup
new_executor-ExecutorSound n = record { awaited = λ k t h. cc; ended = λ k r h. cc; distinct = tt }

-- What a trim leaves, of a key and of the invariant.
pub record TrimmedWell (j : String) (index : Dict String IdempotencyEntry) (t : Trimmed)
    : Type 0 where
  pub moves : Moves (phase_of j index) [] (drops_for j t.dropped) (phase_of j t.idempotency_index)
  pub ended : Ended t.completed t.idempotency_index
  pub distinct : Distinct t.completed
  pub running_kept :
      (k s : String) (n : ℕ)
      → lookup k index ≡ some (record { signature = s; task = some n; order_result = none })
      → lookup k t.idempotency_index
        ≡ some (record { signature = s; task = some n; order_result = none })

-- The first of the cache is dropped.
drop-Ended :
    (key : String) (r : OrderResult) (rest : Dict String OrderResult)
    (index : Dict String IdempotencyEntry) (e : IdempotencyEntry)
    → lookup key rest ≡ none
    → Ended ((key, r) ∷ rest) index
    → Ended rest (insert key e index)
unfolding lookup
drop-Ended key r rest index e d h k x q =
    let other : (key == k) ≡ false = ground (arith, string_eq.same_iff key k) in
    let (s, found) = h k x (rw other q) in (s, lookup-insert key k e index ∙ rw other found)

-- What dropping a key does to a key.
drop-Moves :
    (j key s : String) (r : OrderResult) (index : Dict String IdempotencyEntry)
    → lookup key index ≡ some (record { signature = s; task = none; order_result = some r })
    → Moves
        (phase_of j index)
        []
        (if key == j then 1 else 0)
        (phase_of j (insert key (record { signature = s; task = none; order_result = none }) index))
drop-Moves j key s r index found =
    rw (lookup-insert key j (record { signature = s; task = none; order_result = none }) index)
      (elim (Bool-cases (key == j)) [
        | inr other ↦ rw other stay
        | inl same ↦ rw same (
            rw (← (string_eq.same_iff key j).0 same) (
              rw found (
                subst (λ n. Moves (settled s r) [] n (faded s)) (omega arith)
                  (next (fade s r) stay))))
      ])

drop-running :
    (k key s : String) (n : ℕ) (r : OrderResult) (t : String) (index : Dict String IdempotencyEntry)
    (e : IdempotencyEntry)
    → lookup key index ≡ some (record { signature = t; task = none; order_result = some r })
    → lookup k index ≡ some (record { signature = s; task = some n; order_result = none })
    → lookup k (insert key e index)
      ≡ some (record { signature = s; task = some n; order_result = none })
drop-running k key s n r t index e found h =
    lookup-insert_ne key k e index (λ same. cc (ap (λ x. lookup x index) same)) ∙ h

lookup_first :
    (key : String) (r : OrderResult) (c : Dict String OrderResult)
    → lookup key ((key, r) ∷ c) ≡ some r
unfolding lookup
lookup_first key r c = rw ((string_eq.same_iff key key).1 refl) refl

pub trim_completed-TrimmedWell :
    (j : String) (max : ℕ) (c : Dict String OrderResult) (index : Dict String IdempotencyEntry)
    → Ended c index
    → Distinct c
    → TrimmedWell j index (trim_completed max c index)
unfolding trim_completed
trim_completed-TrimmedWell j max [] index h d = record {
  moves = stay;
  ended = h;
  distinct = tt;
  running_kept = λ k s n q. q;
}
trim_completed-TrimmedWell j max ((key, r) ∷ rest) index h d =
    elim (Bool-cases (ltb max (length ((key, r) ∷ rest)))) [
      | inr fits ↦
          rw fits (record { moves = stay; ended = h; distinct = d; running_kept = λ k s n q. q })
      | inl full ↦
          let (s, found) = h key r (lookup_first key r rest) in
          let faded_entry : IdempotencyEntry = record {
            signature = s;
            task = none;
            order_result = none;
          } in
          let more =
            trim_completed-TrimmedWell j max rest (insert key faded_entry index)
              (drop-Ended key r rest index faded_entry d.0 h) d.1 in
          rw full (
            rw found (record {
              moves = Moves-trans (drop-Moves j key s r index found) more.moves;
              ended = more.ended;
              distinct = more.distinct;
              running_kept = λ k t n q.
                  more.running_kept k t n (drop-running k key t n r s index faded_entry found q);
            }))
    ]

-- What a step comes to for one key, and the invariant after it.
abbrev pub StepsWell : String → OrderExecutor → Stepped → Type 0
StepsWell key s t =
    Moves (phase_of key s.idempotency_index) (starts_for key t.started) (drops_for key t.dropped)
      (phase_of key t.executor.idempotency_index)
    × ExecutorSound t.executor

-- An operation that starts for a key that is fresh or faded.
pub start_operation-StepsWell :
    (j : String) (s : OrderExecutor) (q : OrderExecutionRequest)
    → (phase_of q.idempotency_key s.idempotency_index ≡ fresh)
      ⊎ (phase_of q.idempotency_key s.idempotency_index ≡ faded (request_signature q))
    → ExecutorSound s
    → StepsWell j s (start_operation s q)
unfolding start_operation
start_operation-StepsWell j s q p h = (
  rw (lookup-insert q.idempotency_key j entry s.idempotency_index)
      (elim (Bool-cases (q.idempotency_key == j)) [
        | inr other ↦ rw other stay
        | inl same ↦ rw same (rw (← (string_eq.same_iff q.idempotency_key j).0 same) (starts p))
      ]),
  record { awaited = λ k t. awaited k t; ended = λ k r. ended k r; distinct = h.distinct },
)
  where
    entry : IdempotencyEntry
    entry = record { signature = request_signature q; task = some s.next_task; order_result = none }

    starts :
        (phase_of q.idempotency_key s.idempotency_index ≡ fresh)
          ⊎ (phase_of q.idempotency_key s.idempotency_index ≡ faded (request_signature q))
        → Moves
            (phase_of q.idempotency_key s.idempotency_index)
            (q ∷ [])
            0
            (running (request_signature q))
    starts (inl e) = rw e (next (begin q) stay)
    starts (inr e) = rw e (next (begin_again q) stay)

    awaited :
        (k : String) (t : ℕ)
        → lookup k (insert q.idempotency_key s.next_task s.inflight) ≡ some t
        → (u : String) × (n : ℕ) × (lookup k (insert q.idempotency_key entry s.idempotency_index)
            ≡ some (record { signature = u; task = some n; order_result = none }))
    awaited k t = elim (Bool-cases (q.idempotency_key == k)) [
      | inl same ↦
          rw
            (
              lookup-insert q.idempotency_key k s.next_task s.inflight,
              lookup-insert q.idempotency_key k entry s.idempotency_index,
            )
            (rw same (λ x. (request_signature q, s.next_task, refl)))
      | inr other ↦
          rw
            (
              lookup-insert q.idempotency_key k s.next_task s.inflight,
              lookup-insert q.idempotency_key k entry s.idempotency_index,
            )
            (rw other (h.awaited k t))
    ]

    unsettled :
        (r : OrderResult) (u : String)
        → phase_of q.idempotency_key s.idempotency_index ≢ settled u r
    unsettled r u e = elim p [ inl f ↦ cc | inr f ↦ cc ]

    ended :
        (k : String) (r : OrderResult)
        → lookup k s.completed ≡ some r
        → (u : String) × (lookup k (insert q.idempotency_key entry s.idempotency_index)
            ≡ some (record { signature = u; task = none; order_result = some r }))
    ended k r x =
        let (u, found) = h.ended k r x in
        (
          u,
          lookup-insert_ne q.idempotency_key k entry s.idempotency_index (λ same.
                unsettled r u
                  (ap (λ y. phase_of y s.idempotency_index) same ∙ ap entry_phase found))
              ∙ found,
        )
