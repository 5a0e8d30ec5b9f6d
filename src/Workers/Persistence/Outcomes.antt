-- ===== src/Workers/Persistence/Outcomes.antt =====
-- workers/persistence_worker.py: what the outcomes of a batch say of its events' records.
use mathlib.Core.Path.{subst}
use mathlib.Core.Bool.{false≢true}
use fdv.Base.{
  arith, ◌≡◌, refl, ◌≢◌, inl, inr, sym, ◌∙◌, ap, ℕ, ◌≤◌, String, Bool, true, false, ◌&&◌, Option,
  none, some, List, [], ◌∷◌, ◌++◌, length, any_by, ltb, leb, is_none, ◌==◌, string_eq,
  if◌then◌else◌, Bool-cases, All,
}
use fdv.Base.Dict.{lookup}
use fdv.Outbox.{OutboxEvent}
use fdv.Workers.Persistence.{
  Kind, audit, market, account, orderbook, order, fill, position, allocation, outbox, same_kind,
  PayloadParts, PlannedRecord, plan_records, Plan, when, of_kind, of_kind?, plan_event, plan_events,
  route_event, is_one_of, market_event_types, account_event_types,
}
use fdv.Workers.Persistence.Writing.{Written, count_of, route_order, of_that_kind}
use fdv.Workers.Persistence.Finishing.{
  acknowledged, is_complete, failed_reason, retry_or_dead_letter, outcome_of,
}
use fdv.Workers.Persistence.Counting.{matching, length-matching}
use fdv.Workers.Persistence.Saving.{In, Saved, OfKinds}

All-append :
    (P : PlannedRecord → Type 0) (ps qs : List PlannedRecord)
    → All P (ps ++ qs)
    → All P ps × All P qs
All-append P [] qs h = (tt, h)
All-append P (p ∷ ps) qs h = let rest = All-append P ps qs h.1 in ((h.0, rest.0), rest.1)

module _ (parts : OutboxEvent → PayloadParts) (P : PlannedRecord → Type 0) where
  plan_events-starts :
      (es : List OutboxEvent) (p : Plan) → All P (plan_events parts p es).planned → All P p.planned
  unfolding plan_events plan_event
  plan_events-starts [] p h = h
  plan_events-starts (e ∷ es) p h =
      (All-append P p.planned (plan_records e (route_event parts e))
        (plan_events-starts es (plan_event parts p e) h)).0

  -- What holds of all that is planned holds of the records of each event.
  pub plan_events-each :
      (es : List OutboxEvent) (p : Plan)
      → All P (plan_events parts p es).planned
      → All (λ e. All P (plan_records e (route_event parts e))) es
  unfolding plan_events plan_event
  plan_events-each [] p h = tt
  plan_events-each (e ∷ es) p h = (
    (All-append P p.planned (plan_records e (route_event parts e))
        (plan_events-starts es (plan_event parts p e) h)).1,
    plan_events-each es (plan_event parts p e) h,
  )

retry_or_dead_letter-unacknowledged :
    (max : ℕ) (e : OutboxEvent) (reason : String) → retry_or_dead_letter max e reason ≢ acknowledged
unfolding retry_or_dead_letter
retry_or_dead_letter-unacknowledged max e reason = ground arith

pub outcome_of_complete :
    (max : ℕ) (plan : Plan) (w : Written) (e : OutboxEvent)
    → outcome_of max plan w e ≡ acknowledged
    → is_complete plan w e ≡ true
unfolding outcome_of
outcome_of_complete max plan w e h = elim (Bool-cases (is_complete plan w e)) [
  | inl q ↦ q
  | inr q ↦ absurd (
      retry_or_dead_letter-unacknowledged max e (failed_reason w e) (
        ap (λ b. if b then acknowledged else retry_or_dead_letter max e (failed_reason w e)) (sym q)
        ∙ h))
]

-- No record of the event is one of an account.
abbrev Unaccounted : String → PlannedRecord → Type 0
Unaccounted id p = (p.event.event_id == id) ≡ true → same_kind p.kind account ≡ false

pub account_free :
    (id : String) (ps : List PlannedRecord)
    → length (matching id (of_that_kind account ps)) ≡ 0
    → All (Unaccounted id) ps
account_free id [] h = tt
account_free id (p ∷ ps) h = elim (Bool-cases (same_kind p.kind account)) [
  | inl q ↦ (
    (λ hit. ground (arith, length-matching id p (of_that_kind account ps))),
    account_free id ps (ground (arith, length-matching id p (of_that_kind account ps))),
  )
  | inr q ↦ ((λ hit. q), account_free id ps (ground arith))
]

-- A kind that is not that of the accounts is in the route order.
routes : (k : Kind) → same_kind k account ≡ false → any_by (λ j. same_kind k j) route_order ≡ true
routes audit h = refl
routes market h = refl
routes account h = absurd (false≢true (sym h))
routes orderbook h = refl
routes order h = refl
routes fill h = refl
routes position h = refl
routes allocation h = refl
routes outbox h = refl

-- A record that is saved, and that is none of an account.
abbrev pub Stored : Written → PlannedRecord → Type 0
Stored w p = In p w.saved × (same_kind p.kind account ≡ false)

pub kinds_covered :
    (id : String) (w : Written) (ps : List PlannedRecord)
    → All (Unaccounted id) ps
    → All (OfKinds route_order (Saved id w)) ps
    → All (λ p. (p.event.event_id == id) ≡ true → Stored w p) ps
kinds_covered id w [] f g = tt
kinds_covered id w (p ∷ ps) f g =
    ((λ hit. (g.0 (routes p.kind (f.0 hit)) hit, f.0 hit)), kinds_covered id w ps f.1 g.1)

complete_parts : (a b c : Bool) → (a && (b && c)) ≡ true → (a ≡ true) × (b ≡ true) × (c ≡ true)
complete_parts true true true h = (refl, refl, refl)
complete_parts true true false h = absurd (false≢true h)
complete_parts true false c h = absurd (false≢true h)
complete_parts false b c h = absurd (false≢true h)

absent : (o : Option String) → is_none o ≡ true → o ≡ none
absent none h = refl
absent (some x) h = absurd (false≢true h)

pub is_complete-parts :
    (p : Plan) (w : Written) (e : OutboxEvent)
    → is_complete p w e ≡ true
    → (count_of e.event_id p.required ≤ count_of e.event_id w.success)
      × (lookup e.event_id w.failed ≡ none)
is_complete-parts p w e h =
    let c =
      complete_parts (ltb 0 (count_of e.event_id p.required))
        (leb (count_of e.event_id p.required) (count_of e.event_id w.success))
        (is_none (lookup e.event_id w.failed)) h in
    (ground (arith, c.1), absent (lookup e.event_id w.failed) c.2)

pub own_records :
    (C : OutboxEvent → Type 0) (Q : PlannedRecord → Type 0) (e : OutboxEvent)
    (rs : List (Kind × String))
    → C e
    → All (λ p. C p.event → Q p) (plan_records e rs)
    → All Q (plan_records e rs)
own_records C Q e [] c h = tt
own_records C Q e ((k, content) ∷ rs) c h = (h.0 c, own_records C Q e rs c h.1)

pub All-In :
    (P : PlannedRecord → Type 0) (p : PlannedRecord) (ps : List PlannedRecord)
    → All P ps
    → In p ps
    → P p
All-In P p [] h q = absurd q
All-In P p (x ∷ ps) h (inl q) = subst P (sym q) h.0
All-In P p (x ∷ ps) h (inr q) = All-In P p ps h.1 q

pub In-All :
    (P : PlannedRecord → Type 0) (ps : List PlannedRecord)
    → ((p : PlannedRecord) → In p ps → P p)
    → All P ps
In-All P [] f = tt
In-All P (p ∷ ps) f = (f p (inl refl), In-All P ps (λ x h. f x (inr h)))

-- What a list has for each event, used.
pub each_event :
    (P Q : OutboxEvent → Type 0) (es : List OutboxEvent)
    → ((e : OutboxEvent) → P e → Q e)
    → All P es
    → All Q es
each_event P Q [] f h = tt
each_event P Q (e ∷ es) f h = (f e h.0, each_event P Q es f h.1)

pub split_pairs :
    (P Q : PlannedRecord → Type 0) (ps : List PlannedRecord)
    → All (λ p. P p × Q p) ps
    → All P ps × All Q ps
split_pairs P Q [] h = (tt, tt)
split_pairs P Q (p ∷ ps) h = let rest = split_pairs P Q ps h.1 in ((h.0.0, rest.0), (h.0.1, rest.1))

dropping :
    (P : PlannedRecord → Type 0) (e : OutboxEvent) (xs ys : List (Kind × String))
    → All P (plan_records e (xs ++ ys))
    → All P (plan_records e ys)
dropping P e [] ys h = h
dropping P e ((k, content) ∷ xs) ys h = dropping P e xs ys h.1

account_when :
    (b : Bool) (content : String) (e : OutboxEvent) (rest : List (Kind × String))
    → All
        (λ p. same_kind p.kind account ≡ false)
        (plan_records e (when b ((account, content) ∷ []) ++ rest))
    → b ≡ false
account_when true content e rest h = absurd (false≢true (sym h.0))
account_when false content e rest h = refl

pub no_account :
    (parts : OutboxEvent → PayloadParts) (e : OutboxEvent)
    → All (λ p. same_kind p.kind account ≡ false) (plan_records e (route_event parts e))
    → is_one_of account_event_types e.event_type ≡ false
unfolding route_event
no_account parts e h =
    let NoAccount : PlannedRecord → Type 0 = λ p. same_kind p.kind account ≡ false in
    account_when (is_one_of account_event_types e.event_type) (parts e).account_record e _ (
      dropping NoAccount e
        (when (is_one_of market_event_types e.event_type) (of_kind? market (parts e).market_record))
        _ (dropping NoAccount e (of_kind allocation (parts e).allocation_records) _ h.1))
