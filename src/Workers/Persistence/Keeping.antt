-- ===== src/Workers/Persistence/Keeping.antt =====
-- workers/persistence_worker.py: what a batch leaves of the critical events.
use fdv.Base.{
  arith, ◌≡◌, refl, ◌⊎◌, inl, inr, ℕ, String, List, [], ◌∷◌, ◌==◌, string_eq, Bool-cases, All,
}
use fdv.Outbox.{OutboxEvent, LocalOutbox}
use fdv.Outbox.Steps.{outbox_step}
use fdv.Outbox.Guards.{HoldsCritical}
use fdv.Outbox.Critical.{OutboxValid, outbox_step-OutboxValid, outbox_step-HoldsCritical}
use fdv.Workers.Persistence.{
  PayloadParts, PlannedRecord, plan_records, Plan, build_planned_records, route_event,
}
use fdv.Workers.Persistence.Writing.{Repository, Written, write_batch}
use fdv.Workers.Persistence.Finishing.{
  Outcome, acknowledged, retried, buried, outcome_of, call_of, is_known, Tally, tally_one, no_tally,
  finalize, persist_batch,
}
use fdv.Workers.Persistence.Planning.{DistinctIds}
use fdv.Workers.Persistence.Saving.{In}
use fdv.Workers.Persistence.Acknowledged.{persist_batch-acknowledged_saved}

-- Some event of the list.
abbrev pub AnyEvent : (OutboxEvent → Type 0) → List OutboxEvent → Type 0
AnyEvent P [] = ⊥
AnyEvent P (e ∷ es) = P e ⊎ AnyEvent P es

module _ (max : ℕ) (plan : Plan) (w : Written) (id : String) where
  -- The event has the id and is taken out of the outbox.
  abbrev Settled : OutboxEvent → Type 0
  Settled e =
      (e.event_id ≡ id)
      × ((outcome_of max plan w e ≡ acknowledged)
          ⊎ ((reason : String) × (outcome_of max plan w e ≡ buried reason)))

  settle-HoldsCritical :
      (e : OutboxEvent) (o : Outcome) (s : LocalOutbox)
      → outcome_of max plan w e ≡ o
      → OutboxValid s
      → HoldsCritical id s.events_by_id
      → HoldsCritical id (outbox_step (call_of e.event_id o) s).events_by_id ⊎ Settled e
  settle-HoldsCritical e acknowledged s q v h = elim (Bool-cases (e.event_id == id)) [
    | inl hit ↦ inr ((string_eq.same_iff e.event_id id).0 hit, inl q)
    | inr miss ↦ inl (
        outbox_step-HoldsCritical (call_of e.event_id acknowledged) s id v
          (λ same. ground (arith, string_eq.same_iff e.event_id id)) h)
  ]
  settle-HoldsCritical e (retried reason) s q v h =
      inl (outbox_step-HoldsCritical (call_of e.event_id (retried reason)) s id v tt h)
  settle-HoldsCritical e (buried reason) s q v h = elim (Bool-cases (e.event_id == id)) [
    | inl hit ↦ inr ((string_eq.same_iff e.event_id id).0 hit, inr (reason, q))
    | inr miss ↦ inl (
        outbox_step-HoldsCritical (call_of e.event_id (buried reason)) s id v
          (λ same. ground (arith, string_eq.same_iff e.event_id id)) h)
  ]

  finalize-HoldsCritical :
      (es : List OutboxEvent) (s : LocalOutbox) (t : Tally)
      → OutboxValid s
      → HoldsCritical id s.events_by_id
      → HoldsCritical id (finalize max plan w s t es).outbox.events_by_id ⊎ AnyEvent Settled es
  unfolding finalize
  finalize-HoldsCritical [] s t v h = inl h
  finalize-HoldsCritical (e ∷ es) s t v h =
      let o = outcome_of max plan w e in
      let u = outbox_step (call_of e.event_id o) s in
      elim (Bool-cases (is_known s e.event_id o)) [
        | inr stops ↦ rw stops (inl h)
        | inl goes ↦ rw goes (elim (settle-HoldsCritical e o s refl v h) [
          | inr settled ↦ inr (inl settled)
          | inl held ↦
              elim (finalize-HoldsCritical es u (tally_one plan w e o t)
                (outbox_step-OutboxValid (call_of e.event_id o) s v) held) [
                  | inl kept ↦ inl kept
                  | inr later ↦ inr (inr later)
                ]
        ])
      ]

pub finalize-OutboxValid :
    (max : ℕ) (plan : Plan) (w : Written) (es : List OutboxEvent) (s : LocalOutbox) (t : Tally)
    → OutboxValid s
    → OutboxValid (finalize max plan w s t es).outbox
unfolding finalize
finalize-OutboxValid max plan w [] s t v = v
finalize-OutboxValid max plan w (e ∷ es) s t v =
    let o = outcome_of max plan w e in
    let u = outbox_step (call_of e.event_id o) s in
    elim (Bool-cases (is_known s e.event_id o)) [
      | inr stops ↦ rw stops v
      | inl goes ↦ rw goes (
          finalize-OutboxValid max plan w es u (tally_one plan w e o t)
            (outbox_step-OutboxValid (call_of e.event_id o) s v))
    ]

-- What some event has, with what all have.
some_and_each :
    (P Q R : OutboxEvent → Type 0) (es : List OutboxEvent)
    → ((e : OutboxEvent) → P e → Q e → R e)
    → AnyEvent P es
    → All Q es
    → AnyEvent R es
some_and_each P Q R [] f x h = absurd x
some_and_each P Q R (e ∷ es) f (inl p) h = inl (f e p h.0)
some_and_each P Q R (e ∷ es) f (inr x) h = inr (some_and_each P Q R es f x h.1)

module _ (parts : OutboxEvent → PayloadParts) (r : Repository) (max : ℕ)
    (saved : List PlannedRecord) (s : LocalOutbox) (es : List OutboxEvent) where
  -- The event was acknowledged, and all that is routed for it has been saved, or it was buried.
  abbrev pub Settles : String → OutboxEvent → Type 0
  Settles id e =
      let plan = build_planned_records parts es in
      let w = (persist_batch parts r max saved s es).0 in
      (e.event_id ≡ id)
      × (All (λ p. In p w.saved) (plan_records e (route_event parts e))
          ⊎ ((reason : String) × (outcome_of max plan w e ≡ buried reason)))

  -- A batch of distinct events leaves a valid outbox valid, and a critical event that it holds it still
  -- holds afterwards as a critical one, unless an event of the batch with its id was buried or had each
  -- record that is routed for it saved.
  pub persist_batch-HoldsCritical :
      (id : String)
      → DistinctIds es
      → OutboxValid s
      → HoldsCritical id s.events_by_id
      → let after = (persist_batch parts r max saved s es).1.outbox in
        OutboxValid after × (HoldsCritical id after.events_by_id ⊎ AnyEvent (Settles id) es)
  unfolding persist_batch
  persist_batch-HoldsCritical id d v h =
      let plan = build_planned_records parts es in
      let w = write_batch r saved plan.planned in
      (
        finalize-OutboxValid max plan w es s no_tally v,
        elim (finalize-HoldsCritical max plan w id es s no_tally v h) [
          | inl kept ↦ inl kept
          | inr out ↦ inr (
              some_and_each (Settled max plan w id)
                (λ e.
                  outcome_of max plan w e ≡ acknowledged
                  → All (λ p. In p w.saved) (plan_records e (route_event parts e)))
                (Settles id) es settles out
                (persist_batch-acknowledged_saved parts r saved es max d))
        ],
      )
    where
      settles :
          (e : OutboxEvent)
          → Settled max
              (build_planned_records parts es)
              (write_batch r saved (build_planned_records parts es).planned)
              id
              e
          → (outcome_of max
                  (build_planned_records parts es)
                  (write_batch r saved (build_planned_records parts es).planned)
                  e
                ≡ acknowledged
              → All
                  (λ p. In p (write_batch r saved (build_planned_records parts es).planned).saved)
                  (plan_records e (route_event parts e)))
          → Settles id e
      settles e (same, inl q) f = (same, inl (f q))
      settles e (same, inr q) f = (same, inr q)
