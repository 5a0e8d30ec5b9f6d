-- ===== src/Workers/Persistence/Acknowledged.antt =====
-- workers/persistence_worker.py: which events of a batch are acknowledged.
use mathlib.Core.Bool.{false≢true}
use fdv.Base.{
  arith, ◌≡◌, refl, ◌≢◌, sym, ◌∙◌, ℕ, true, false, List, [], length, ◌==◌, string_eq, All,
}
use fdv.Base.Dict.{lookup}
use fdv.Outbox.{OutboxEvent}
use fdv.Workers.Persistence.{
  account, same_kind, PayloadParts, PlannedRecord, plan_records, Plan, build_planned_records,
  route_event, is_one_of, account_event_types,
}
use fdv.Workers.Persistence.Writing.{Repository, Written, route_order, of_that_kind, write_batch}
use fdv.Workers.Persistence.Finishing.{acknowledged, is_complete, outcome_of}
use fdv.Workers.Persistence.Counting.{matching, routed-total, write_kinds-count}
use fdv.Workers.Persistence.Planning.{DistinctIds, build_planned_records-Agrees}
use fdv.Workers.Persistence.Saving.{In, write_kinds-Writes}
use fdv.Workers.Persistence.Outcomes.{
  plan_events-each, outcome_of_complete, account_free, Stored, kinds_covered, is_complete-parts,
  own_records, All-In, In-All, each_event, split_pairs, no_account,
}

module _ (parts : OutboxEvent → PayloadParts) (r : Repository) (saved : List PlannedRecord)
    (es : List OutboxEvent) where
  abbrev plan : Plan
  plan = build_planned_records parts es

  abbrev written : Written
  written = write_batch r saved plan.planned

  complete_unaccounted :
      (e : OutboxEvent)
      → DistinctIds es
      → is_complete plan written e ≡ true
      → length (matching e.event_id (of_that_kind account plan.planned)) ≡ 0
  unfolding write_batch lookup
  complete_unaccounted e d h =
      let c = is_complete-parts plan written e h in
      omega (
        arith,
        c.0,
        build_planned_records-Agrees parts e.event_id es d,
        routed-total e.event_id plan.planned,
        write_kinds-count r e.event_id route_order
            (record { saved = saved; success = []; failed = []; route_counts = [] }) plan.planned,
      )

  complete-Stored :
      (e : OutboxEvent)
      → DistinctIds es
      → is_complete plan written e ≡ true
      → All (λ p. (p.event.event_id == e.event_id) ≡ true → Stored written p) plan.planned
  unfolding write_batch
  complete-Stored e d h =
      kinds_covered e.event_id written plan.planned
        (account_free e.event_id plan.planned (complete_unaccounted e d h))
        ((write_kinds-Writes r e.event_id route_order
            (record { saved = saved; success = []; failed = []; route_counts = [] }) plan.planned).1
          (is_complete-parts plan written e h).1)

  acknowledged-Stored :
      (max : ℕ)
      → DistinctIds es
      → All
          (λ e.
            outcome_of max plan written e ≡ acknowledged
            → All (Stored written) (plan_records e (route_event parts e)))
          es
  unfolding build_planned_records
  acknowledged-Stored max d =
      let Acked : OutboxEvent → Type 0 = λ e. outcome_of max plan written e ≡ acknowledged in
      each_event
        (λ e. All (λ p. Acked p.event → Stored written p) (plan_records e (route_event parts e)))
        (λ e. Acked e → All (Stored written) (plan_records e (route_event parts e))) es
        (λ e h c. own_records Acked (Stored written) e (route_event parts e) c h)
        (plan_events-each parts (λ p. Acked p.event → Stored written p) es
          (record { planned = []; required = [] })
          (In-All (λ p. Acked p.event → Stored written p) plan.planned
            (λ p q c.
              All-In (λ x. (x.event.event_id == p.event.event_id) ≡ true → Stored written x) p
                plan.planned
                (complete-Stored p.event d (outcome_of_complete max plan written p.event c)) q
                ((string_eq.same_iff p.event.event_id p.event.event_id).1 refl))))

  -- An event of a batch of distinct events is acknowledged only if each record that is routed for it
  -- has been saved.
  pub persist_batch-acknowledged_saved :
      (max : ℕ)
      → DistinctIds es
      → All
          (λ e.
            outcome_of max plan written e ≡ acknowledged
            → All (λ p. In p written.saved) (plan_records e (route_event parts e)))
          es
  persist_batch-acknowledged_saved max d =
      each_event
        (λ e.
          outcome_of max plan written e ≡ acknowledged
          → All (Stored written) (plan_records e (route_event parts e)))
        (λ e.
          outcome_of max plan written e ≡ acknowledged
          → All (λ p. In p written.saved) (plan_records e (route_event parts e)))
        es
        (λ e h c.
          (split_pairs (λ p. In p written.saved) (λ p. same_kind p.kind account ≡ false)
            (plan_records e (route_event parts e)) (h c)).0)
        (acknowledged-Stored max d)

  -- In a batch of events with distinct ids, an event that is routed to an account record is not
  -- acknowledged, whatever the repository saves.
  pub account_event-unacknowledged :
      (max : ℕ)
      → DistinctIds es
      → All
          (λ e.
            is_one_of account_event_types e.event_type ≡ true
            → outcome_of max plan written e ≢ acknowledged)
          es
  account_event-unacknowledged max d =
      each_event
        (λ e.
          outcome_of max plan written e ≡ acknowledged
          → All (Stored written) (plan_records e (route_event parts e)))
        (λ e.
          is_one_of account_event_types e.event_type ≡ true
          → outcome_of max plan written e ≢ acknowledged)
        es
        (λ e h t c. false≢true (
          sym (
            no_account parts e
              (split_pairs (λ p. In p written.saved) (λ p. same_kind p.kind account ≡ false)
                (plan_records e (route_event parts e)) (h c)).1)
          ∙ t))
        (acknowledged-Stored max d)
