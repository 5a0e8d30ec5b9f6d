-- ===== src/Workers/Persistence/Merging.antt =====
-- workers/persistence_worker.py: what `_coalesce_low_priority` keeps.
use fdv.Base.{
  arith, ◌≡◌, refl, inl, inr, sym, ◌∙◌, ap, ℕ, suc, ◌+◌, String, false, List, [], ◌∷◌, ◌++◌,
  filter_by, length, length-append, ◌==◌, string_eq, if◌then◌else◌, Bool-cases, Option-cases, All,
}
use fdv.Base.Dict.{Dict, lookup, insert, values, length-insert_old, length-insert_new}
use fdv.Outbox.{OutboxEvent, is_critical}
use fdv.Workers.Persistence.{
  route_key, Coalesced, coalesce_into, coalesce_from, coalesce_low_priority, older, insert_event,
  sort_events,
}

-- The critical events of a list, in its order.
abbrev pub critical_of : List OutboxEvent → List OutboxEvent
critical_of = filter_by is_critical

critical_of-append :
    (xs ys : List OutboxEvent) → critical_of (xs ++ ys) ≡ critical_of xs ++ critical_of ys
critical_of-append [] ys = refl
critical_of-append (x ∷ xs) ys = elim (Bool-cases (is_critical x)) [
  | inl q ↦ rw q (ap (λ zs. x ∷ zs) (critical_of-append xs ys))
  | inr q ↦ rw q (critical_of-append xs ys)
]

append_nil : (xs : List OutboxEvent) → xs ++ [] ≡ xs
append_nil [] = refl
append_nil (x ∷ xs) = ap (λ zs. x ∷ zs) (append_nil xs)

append_one :
    (xs : List OutboxEvent) (x : OutboxEvent) (ys : List OutboxEvent)
    → (xs ++ x ∷ []) ++ ys ≡ xs ++ x ∷ ys
append_one [] x ys = refl
append_one (z ∷ xs) x ys = ap (λ zs. z ∷ zs) (append_one xs x ys)

critical_of-twice : (es : List OutboxEvent) → critical_of (critical_of es) ≡ critical_of es
critical_of-twice [] = refl
critical_of-twice (e ∷ es) = elim (Bool-cases (is_critical e)) [
  | inl q ↦ rw q (rw q (ap (λ zs. e ∷ zs) (critical_of-twice es)))
  | inr q ↦ rw q (critical_of-twice es)
]

-- None of the events is critical.
abbrev Lesser : List OutboxEvent → Type 0
Lesser = All (λ e. is_critical e ≡ false)

Lesser-none : (es : List OutboxEvent) → Lesser es → critical_of es ≡ []
Lesser-none [] h = refl
Lesser-none (e ∷ es) h = rw h.0 (Lesser-none es h.1)

insert-Lesser :
    (k : String) (e : OutboxEvent) (d : Dict String OutboxEvent)
    → is_critical e ≡ false
    → Lesser (values d)
    → Lesser (values (insert k e d))
unfolding insert
insert-Lesser k e [] c h = (c, tt)
insert-Lesser k e ((j, w) ∷ d) c h = elim (Bool-cases (j == k)) [
  | inl hit ↦ rw hit (c, h.1)
  | inr miss ↦ rw miss (h.0, insert-Lesser k e d c h.1)
]

insert_event-Lesser :
    (x : OutboxEvent) (es : List OutboxEvent)
    → is_critical x ≡ false
    → Lesser es
    → Lesser (insert_event x es)
unfolding insert_event
insert_event-Lesser x [] c h = (c, tt)
insert_event-Lesser x (y ∷ ys) c h = elim (Bool-cases (older x y)) [
  | inl q ↦ rw q (c, h)
  | inr q ↦ rw q (h.0, insert_event-Lesser x ys c h.1)
]

sort_events-Lesser : (es : List OutboxEvent) → Lesser es → Lesser (sort_events es)
unfolding sort_events
sort_events-Lesser [] h = tt
sort_events-Lesser (e ∷ es) h =
    insert_event-Lesser e (sort_events es) h.0 (sort_events-Lesser es h.1)

length-insert_event :
    (x : OutboxEvent) (es : List OutboxEvent) → length (insert_event x es) ≡ suc (length es)
unfolding insert_event
length-insert_event x [] = refl
length-insert_event x (y ∷ ys) = ground (arith, length-insert_event x ys)

length-sort_events : (es : List OutboxEvent) → length (sort_events es) ≡ length es
unfolding sort_events
length-sort_events [] = refl
length-sort_events (e ∷ es) =
    omega (arith, length-insert_event e (sort_events es), length-sort_events es)

length-values : (d : Dict String OutboxEvent) → length (values d) ≡ length d
length-values [] = refl
length-values (p ∷ d) = omega (arith, length-values d)

coalesce_into-critical :
    (c : Coalesced) (e : OutboxEvent) (zs : List OutboxEvent)
    → Lesser (values c.latest)
    → ((coalesce_into c e).critical ++ zs ≡ c.critical ++ (if is_critical e then e ∷ zs else zs))
      × Lesser (values (coalesce_into c e).latest)
unfolding coalesce_into
coalesce_into-critical c e zs h = elim (Bool-cases (is_critical e)) [
  | inl q ↦ rw q (append_one c.critical e zs, h)
  | inr q ↦ rw q (refl, insert-Lesser (route_key e) e c.latest q h)
]

coalesce_from-critical :
    (c : Coalesced) (es : List OutboxEvent)
    → Lesser (values c.latest)
    → ((coalesce_from c es).critical ≡ c.critical ++ critical_of es)
      × Lesser (values (coalesce_from c es).latest)
unfolding coalesce_from
coalesce_from-critical c [] h = (sym (append_nil c.critical), h)
coalesce_from-critical c (e ∷ es) h =
    let one = coalesce_into-critical c e (critical_of es) h in
    let rest = coalesce_from-critical (coalesce_into c e) es one.1 in (rest.0 ∙ one.0, rest.1)

-- The events that are kept, and how many were merged.
abbrev kept_or_merged : Coalesced → ℕ
kept_or_merged c = length c.critical + length c.latest + c.merged

coalesce_into-count :
    (c : Coalesced) (e : OutboxEvent) → kept_or_merged (coalesce_into c e) ≡ suc (kept_or_merged c)
unfolding coalesce_into
coalesce_into-count c e = elim (Bool-cases (is_critical e)) [
  | inl q ↦ rw q (omega (arith, length-append c.critical (e ∷ [])))
  | inr q ↦ rw q (elim (Option-cases (lookup (route_key e) c.latest)) [
    | inl missing ↦ rw missing (omega (arith, length-insert_new (route_key e) e c.latest missing))
    | inr (x, found) ↦ rw found (omega (arith, length-insert_old (route_key e) e c.latest found))
  ])
]

coalesce_from-count :
    (c : Coalesced) (es : List OutboxEvent)
    → kept_or_merged (coalesce_from c es) ≡ kept_or_merged c + length es
unfolding coalesce_from
coalesce_from-count c [] = omega arith
coalesce_from-count c (e ∷ es) =
    omega (arith, coalesce_from-count (coalesce_into c e) es, coalesce_into-count c e)

coalesced_critical :
    (es : List OutboxEvent) → critical_of (coalesce_low_priority es).0 ≡ critical_of es
unfolding coalesce_low_priority
coalesced_critical es =
    let c = coalesce_from (record { critical = []; latest = []; merged = 0 }) es in
    let k = coalesce_from-critical (record { critical = []; latest = []; merged = 0 }) es tt in
    critical_of-append c.critical (sort_events (values c.latest))
    ∙ ap (λ zs. critical_of c.critical ++ zs)
        (Lesser-none (sort_events (values c.latest)) (sort_events-Lesser (values c.latest) k.1))
    ∙ append_nil (critical_of c.critical)
    ∙ ap critical_of k.0
    ∙ critical_of-twice es

coalesced_count :
    (es : List OutboxEvent)
    → length (coalesce_low_priority es).0 + (coalesce_low_priority es).1 ≡ length es
unfolding coalesce_low_priority
coalesced_count es =
    let c = coalesce_from (record { critical = []; latest = []; merged = 0 }) es in
    omega (
      arith,
      coalesce_from-count (record { critical = []; latest = []; merged = 0 }) es,
      length-append c.critical (sort_events (values c.latest)),
      length-sort_events (values c.latest),
      length-values c.latest,
    )

-- Coalescing keeps all critical events and their order, and each event is kept or counted as merged.
pub coalesce_low_priority-critical :
    (es : List OutboxEvent)
    → let (kept, merged) = coalesce_low_priority es in
      (critical_of kept ≡ critical_of es) × (length kept + merged ≡ length es)
coalesce_low_priority-critical es = (coalesced_critical es, coalesced_count es)
