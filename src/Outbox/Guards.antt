-- ===== src/Outbox/Guards.antt =====
-- The invariant of the outbox together with a critical event that it holds, through its stores.
use mathlib.Core.Path.{subst}
use fdv.Base.{
  ◌⊎◌, ◌≤◌, ℕ, zero, suc, sym, ◌∙◌, ap, String, true, false, ◌≡◌, ◌≢◌, inl, inr, Option, none, some,
  arith, ◌==◌, string_eq, if◌then◌else◌, Bool-cases, Option-cases, length, ltb,
}
use fdv.Base.Dict.{Dict, lookup, insert, erase, lookup-insert, lookup-erase, lookup-KeyedBy}
use fdv.Outbox.{
  OutboxEvent, is_critical, LocalOutbox, is_queued, may_evict, evict, evict_next, evict_rounds,
  enforce_retained_capacity, retain, store_pending, store_retained, with_retry,
}
use fdv.Outbox.Calls.{current_of, mergeable, merged, store}
use fdv.Outbox.Sound.{
  OutboxSound, erase_retained-SoundDicts, erase_held-SoundDicts, insert_both-SoundDicts,
  insert_held-SoundDicts,
}
use fdv.Outbox.Eviction.{evict_next-one, evict_rounds-last, evict_rounds-next}

abbrev pub HoldsCritical : String → Dict String OutboxEvent → Type 0
HoldsCritical id held = (e : OutboxEvent) × (lookup id held ≡ some e) × (is_critical e ≡ true)

-- The id of a critical event that is watched, if one is.
abbrev pub Watched : Option String → Dict String OutboxEvent → Type 0
Watched none held = Unit {0}
Watched (some id) held = HoldsCritical id held

-- An event that may be stored: under the watched id it is critical.
abbrev pub Fits : Option String → OutboxEvent → Type 0
Fits none e = Unit {0}
Fits (some id) e = e.event_id ≡ id → is_critical e ≡ true

-- An id that may be taken out.
abbrev pub Free : Option String → String → Type 0
Free none k = Unit {0}
Free (some id) k = k ≢ id

-- The ready queue is within its bound, if it has one.
abbrev pub ReadyFits : LocalOutbox → Type 0
ReadyFits s = (s.max_size ≡ 0) ⊎ (length s.ready ≤ s.max_size)

abbrev pub Guards : Option String → LocalOutbox → Type 0
Guards who s = OutboxSound s × Watched who s.events_by_id × ReadyFits s

insert-Watched :
    (who : Option String) (e : OutboxEvent) (held : Dict String OutboxEvent)
    → Fits who e
    → Watched who held
    → Watched who (insert e.event_id e held)
insert-Watched none e held f w = tt
insert-Watched (some id) e held f (c, found, crit) = elim (Bool-cases (e.event_id == id)) [
  | inl hit ↦ (
    e,
    ground (arith, lookup-insert e.event_id id e held),
    f ((string_eq.same_iff e.event_id id).0 hit),
  )
  | inr miss ↦ (c, ground (arith, lookup-insert e.event_id id e held), crit)
]

pub erase-Watched :
    (who : Option String) (k : String) (held : Dict String OutboxEvent)
    → Free who k
    → Watched who held
    → Watched who (erase k held)
erase-Watched none k held f w = tt
erase-Watched (some id) k held f (c, found, crit) =
    (c, ground (arith, lookup-erase k id held, string_eq.same_iff k id), crit)

-- What eviction takes out is not critical, so it is not the watched event.
evictable-Free :
    (who : Option String) (s : LocalOutbox) (k : String) (e : OutboxEvent)
    → Guards who s
    → lookup k s.retained ≡ some e
    → may_evict s (k, e) ≡ true
    → Free who k
evictable-Free none s k e g led may = tt
evictable-Free (some id) s k e (sound, (c, found, crit), fits) led may = λ q.
    let there : lookup k s.events_by_id ≡ some c = ap (λ x. lookup x s.events_by_id) q ∙ found in
    let same : e ≡ c = sound.agree k e c led there in
    let no : is_critical e ≡ false = ground arith in cc

evict-Guards :
    (who : Option String) (s : LocalOutbox) (x : String × OutboxEvent)
    → Guards who s
    → lookup x.0 s.retained ≡ some x.1
    → may_evict s x ≡ true
    → Guards who (evict s x)
evict-Guards who s (k, e) g led may = (
  erase_retained-SoundDicts (erase_held-SoundDicts g.0 k) k,
  erase-Watched who k s.events_by_id (evictable-Free who s k e g led may) g.1,
  g.2,
)

evict_rounds-Guards :
    (who : Option String) (n : ℕ) (s : LocalOutbox) → Guards who s → Guards who (evict_rounds n s)
unfolding evict_rounds
evict_rounds-Guards who zero s g = g
evict_rounds-Guards who (suc n) s g = elim (Option-cases (evict_next s)) [
  | inl e ↦ subst (Guards who) (sym (evict_rounds-last n s e)) g
  | inr (t, e) ↦
      let (x, (led, may), q) = evict_next-one s t g.0.distinct e in
      subst (Guards who) (sym (evict_rounds-next n s t e ∙ ap (evict_rounds n) q))
        (evict_rounds-Guards who n (evict s x) (evict-Guards who s x g led may))
]

enforce-Guards :
    (who : Option String) (s : LocalOutbox)
    → Guards who s
    → Guards who (enforce_retained_capacity s)
unfolding enforce_retained_capacity
enforce-Guards who s g =
    elim (ltb 0 s.retained_max_size)
      as (λ b. Guards who (if b then evict_rounds (length s.retained) s else s)) [
        | true ↦ evict_rounds-Guards who (length s.retained) s g
        | false ↦ g
      ]

pub store_pending-Guards :
    (who : Option String) (s : LocalOutbox) (e : OutboxEvent)
    → Fits who e
    → Guards who s
    → Guards who (store_pending s e)
unfolding store_pending
store_pending-Guards who s e f g =
    (insert_held-SoundDicts g.0 e, insert-Watched who e s.events_by_id f g.1, g.2)

pub store_retained-Guards :
    (who : Option String) (s : LocalOutbox) (e : OutboxEvent)
    → Fits who e
    → Guards who s
    → Guards who (store_retained s e)
unfolding store_retained
store_retained-Guards who s e f g =
    enforce-Guards who (retain s e)
      (insert_both-SoundDicts g.0 e, insert-Watched who e s.events_by_id f g.1, g.2)

pub store-Guards :
    (who : Option String) (s : LocalOutbox) (e : OutboxEvent)
    → Fits who e
    → Guards who s
    → Guards who (store s e)
unfolding store
store-Guards who s e f g = elim (Bool-cases (is_queued s e.event_id)) [
  | inl k ↦ rw k (store_pending-Guards who s e f g)
  | inr k ↦ rw k (store_retained-Guards who s e f g)
]

-- What is known under an id is critical if its event's id is the watched one.
pub current_of-Fits :
    (who : Option String) (s : LocalOutbox) (k : String) (c : OutboxEvent)
    → Guards who s
    → current_of s k ≡ some c
    → Fits who c
current_of-Fits none s k c g h = tt
current_of-Fits (some id) s k c (sound, (e, found, crit), fits) h = λ q.
    elim (Option-cases (lookup k s.events_by_id)) [
      | inl gone ↦
          let kept : lookup k s.retained ≡ some c = rw gone at h in
          let key : c.event_id ≡ k =
            lookup-KeyedBy (λ x. x.event_id) k s.retained sound.retained_keyed kept in
          let there : lookup k s.events_by_id ≡ some e =
            ap (λ x. lookup x s.events_by_id) (sym key ∙ q) ∙ found in
          cc
      | inr (d, held) ↦
          let same : some d ≡ some c = rw held at h in
          let key : d.event_id ≡ k =
            lookup-KeyedBy (λ x. x.event_id) k s.events_by_id sound.held_keyed held in
          let eq : d ≡ c = cc in
          let there : lookup k s.events_by_id ≡ some e =
            ap (λ x. lookup x s.events_by_id) (sym key ∙ ap (λ x. x.event_id) eq ∙ q) ∙ found in
          cc
    ]

pub with_retry-Fits :
    (who : Option String) (c : OutboxEvent) (last_error : Option String)
    → Fits who c
    → Fits who (with_retry c last_error)
unfolding is_critical
with_retry-Fits none c last_error f = tt
with_retry-Fits (some id) c last_error f = f

merged-Fits : (who : Option String) (c e : OutboxEvent) → Fits who c → Fits who (merged c e)
unfolding is_critical
merged-Fits none c e f = tt
merged-Fits (some id) c e f = λ q. let crit = f q in ground arith

pub mergeable-Fits :
    (who : Option String) (s : LocalOutbox) (k : Option String) (c e : OutboxEvent)
    → Guards who s
    → mergeable s k ≡ some c
    → Fits who (merged c e)
mergeable-Fits who s none c e g h = cc
mergeable-Fits who s (some k) c e g h = elim (Option-cases (lookup k s.merge_index)) [
  | inl gone ↦
      let bad : ◌≡◌ {A = Option OutboxEvent} none (some c) = rw (gone, mergeable) at h in cc
  | inr (id, led) ↦ merged-Fits who c e (current_of-Fits who s id c g (rw (led, mergeable) at h))
]
