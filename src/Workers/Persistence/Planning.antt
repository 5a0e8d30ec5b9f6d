-- ===== src/Workers/Persistence/Planning.antt =====
-- workers/persistence_records.py: the plan says how many records of each event it holds.
use mathlib.Core.Path.{subst}
use fdv.Base.{
  arith, ◌≡◌, refl, ◌⊎◌, inl, inr, sym, ◌∙◌, ◌+◌, String, true, false, List, [], ◌∷◌, ◌++◌, length,
  ◌==◌, string_eq, Bool-cases,
}
use fdv.Base.Dict.{lookup, lookup-insert}
use fdv.Outbox.{OutboxEvent}
use fdv.Workers.Persistence.{
  Kind, PayloadParts, PlannedRecord, plan_records, Plan, plan_event, plan_events,
  build_planned_records, route_event,
}
use fdv.Workers.Persistence.Writing.{count_of}
use fdv.Workers.Persistence.Counting.{matching, length-matching}

-- No event of the list has the id.
abbrev pub Absent : String → List OutboxEvent → Type 0
Absent id [] = Unit {0}
Absent id (e ∷ es) = ((e.event_id == id) ≡ false) × Absent id es

abbrev pub DistinctIds : List OutboxEvent → Type 0
DistinctIds [] = Unit {0}
DistinctIds (e ∷ es) = Absent e.event_id es × DistinctIds es

matching-append :
    (id : String) (ps qs : List PlannedRecord)
    → length (matching id (ps ++ qs)) ≡ length (matching id ps) + length (matching id qs)
matching-append id [] qs = omega arith
matching-append id (p ∷ ps) qs =
    omega
      (arith, matching-append id ps qs, length-matching id p ps, length-matching id p (ps ++ qs))

plan_records-hit :
    (id : String) (e : OutboxEvent) (rs : List (Kind × String))
    → (e.event_id == id) ≡ true
    → length (matching id (plan_records e rs)) ≡ length rs
plan_records-hit id e [] h = refl
plan_records-hit id e ((k, content) ∷ rest) h = ground (arith, plan_records-hit id e rest)

plan_records-miss :
    (id : String) (e : OutboxEvent) (rs : List (Kind × String))
    → (e.event_id == id) ≡ false
    → length (matching id (plan_records e rs)) ≡ 0
plan_records-miss id e [] h = refl
plan_records-miss id e ((k, content) ∷ rest) h = ground (arith, plan_records-miss id e rest)

module _ (parts : OutboxEvent → PayloadParts) (id : String) where
  -- The plan says of the event with the id how many of its records are planned.
  abbrev Agrees : Plan → Type 0
  Agrees p = count_of id p.required ≡ length (matching id p.planned)

  plan_event-hit :
      (p : Plan) (e : OutboxEvent)
      → (e.event_id == id) ≡ true
      → length (matching id p.planned) ≡ 0
      → Agrees (plan_event parts p e)
  unfolding plan_event
  plan_event-hit p e h z =
      let n = length (route_event parts e) in
      ground (
        arith,
        lookup-insert e.event_id id n p.required,
        matching-append id p.planned (plan_records e (route_event parts e)),
        plan_records-hit id e (route_event parts e),
      )

  plan_event-miss :
      (p : Plan) (e : OutboxEvent)
      → (e.event_id == id) ≡ false
      → (count_of id (plan_event parts p e).required ≡ count_of id p.required)
        × (length (matching id (plan_event parts p e).planned) ≡ length (matching id p.planned))
  unfolding plan_event
  plan_event-miss p e h =
      let n = length (route_event parts e) in
      (
        ground (arith, lookup-insert e.event_id id n p.required),
        ground (
          arith,
          matching-append id p.planned (plan_records e (route_event parts e)),
          plan_records-miss id e (route_event parts e),
        ),
      )

  Absent-same : (k : String) (es : List OutboxEvent) → (k == id) ≡ true → Absent k es → Absent id es
  Absent-same k es h a = subst (λ x. Absent x es) ((string_eq.same_iff k id).0 h) a

  plan_events-Agrees :
      (es : List OutboxEvent) (p : Plan)
      → DistinctIds es
      → Agrees p
      → (length (matching id p.planned) ≡ 0) ⊎ Absent id es
      → Agrees (plan_events parts p es)
  unfolding plan_events
  plan_events-Agrees [] p d a f = a
  plan_events-Agrees (e ∷ es) p d a (inl z) = elim (Bool-cases (e.event_id == id)) [
    | inl hit ↦
        plan_events-Agrees es (plan_event parts p e) d.1 (plan_event-hit p e hit z)
          (inr (Absent-same e.event_id es hit d.0))
    | inr miss ↦
        let m = plan_event-miss p e miss in
        plan_events-Agrees es (plan_event parts p e) d.1 (m.0 ∙ a ∙ sym m.1) (inl (m.1 ∙ z))
  ]
  plan_events-Agrees (e ∷ es) p d a (inr f) =
      let m = plan_event-miss p e f.0 in
      plan_events-Agrees es (plan_event parts p e) d.1 (m.0 ∙ a ∙ sym m.1) (inr f.1)

  pub build_planned_records-Agrees :
      (es : List OutboxEvent)
      → DistinctIds es
      → let p = build_planned_records parts es in
        count_of id p.required ≡ length (matching id p.planned)
  unfolding build_planned_records lookup
  build_planned_records-Agrees es d =
      plan_events-Agrees es (record { planned = []; required = [] }) d refl (inl refl)
