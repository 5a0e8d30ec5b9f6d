-- ===== src/Outbox/Eviction.antt =====
-- The eviction of retained events: it ends within the bound or with nothing left that may go.
use mathlib.Core.Path.{subst}
use fdv.Base.{
  sym, ap, ◌∙◌, ℕ, zero, suc, ◌≤◌, ◌<◌, ◌≡◌, refl, ◌⊎◌, inl, inr, ◌+◌, ◌==◌, any_by, String, Bool,
  true, false, Option, none, some, [], ◌∷◌, All, All-filter_by, filter_by, length, length-append,
  arith, ltb, if◌then◌else◌, Bool-cases, Option-cases, string_eq,
}
use fdv.Base.Dict.{Dict, Distinct, lookup, erase, lookup-erase}
use fdv.Base.Integer.{pos, ◌≤ℤ◌}
use fdv.Base.Entries.{Led, lookup-entry, length-erase_old, length-erase_one, erase-Distinct}
use fdv.Outbox.{
  OutboxEvent, is_critical, overflow_error, LocalOutbox, entry_leb, greatest, may_evict, evict,
  evict_last, evict_next, evict_rounds, enforce_retained_capacity,
}

module _ (P : String × OutboxEvent → Type 0) where
  greatest-one :
      (x : String × OutboxEvent) (xs : Dict String OutboxEvent) → P x → All P xs → P (greatest x xs)
  unfolding greatest
  greatest-one x [] h hs = h
  greatest-one x (y ∷ ys) h hs =
      greatest-one (if entry_leb y x then x else y) ys
        (elim (entry_leb y x) as (λ b. P (if b then x else y)) [ true ↦ h | false ↦ hs.0 ]) hs.1

  evict_last-one :
      (s t : LocalOutbox) (xs : Dict String OutboxEvent)
      → All P xs
      → evict_last s xs ≡ some t
      → (x : String × OutboxEvent) × P x × (t ≡ evict s x)
  unfolding evict_last
  evict_last-one s t [] hs h = cc
  evict_last-one s t (x ∷ xs) hs h = (greatest x xs, greatest-one x xs hs.0 hs.1, cc)

filter_by-kept :
    (keep : String × OutboxEvent → Bool) (xs : Dict String OutboxEvent)
    → All (λ x. keep x ≡ true) (filter_by keep xs)
filter_by-kept keep [] = tt
filter_by-kept keep (x ∷ xs) = elim (Bool-cases (keep x)) [
  | inl k ↦ rw k (k, filter_by-kept keep xs)
  | inr k ↦ rw k (filter_by-kept keep xs)
]

module _ (P Q : String × OutboxEvent → Type 0) where
  both : (xs : Dict String OutboxEvent) → All P xs → All Q xs → All (λ x. P x × Q x) xs
  both [] hs ks = tt
  both (x ∷ xs) hs ks = ((hs.0, ks.0), both xs hs.1 ks.1)

-- A round of the eviction takes out a retained event that may go.
pub evict_next-one :
    (s t : LocalOutbox)
    → Distinct s.retained
    → evict_next s ≡ some t
    → (x : String × OutboxEvent) × (Led s.retained x × (may_evict s x ≡ true)) × (t ≡ evict s x)
unfolding evict_next
evict_next-one s t d h = elim (Bool-cases (ltb s.retained_max_size (length s.retained))) [
  | inr fits ↦ let bad : ◌≡◌ {A = Option LocalOutbox} none (some t) = rw fits at h in cc
  | inl over ↦
      evict_last-one (λ x. Led s.retained x × (may_evict s x ≡ true)) s t
        (filter_by (may_evict s) s.retained)
        (both (Led s.retained) (λ x. may_evict s x ≡ true) _
          (All-filter_by (Led s.retained) (may_evict s) s.retained (lookup-entry s.retained d))
          (filter_by-kept (may_evict s) s.retained))
        (rw over at h)
]

evict_last-none :
    (s : LocalOutbox) (xs : Dict String OutboxEvent) → evict_last s xs ≡ none → xs ≡ []
unfolding evict_last
evict_last-none s [] h = refl
evict_last-none s (x ∷ xs) h = cc

pub evict_rounds-last : (n : ℕ) (s : LocalOutbox) → evict_next s ≡ none → evict_rounds (suc n) s ≡ s
unfolding evict_rounds
evict_rounds-last n s e = ap (λ o. elim o [ none ↦ s | some t ↦ evict_rounds n t ]) e

pub evict_rounds-next :
    (n : ℕ) (s t : LocalOutbox) → evict_next s ≡ some t → evict_rounds (suc n) s ≡ evict_rounds n t
unfolding evict_rounds
evict_rounds-next n s t e = ap (λ o. elim o [ none ↦ s | some u ↦ evict_rounds n u ]) e

evict_next-over :
    (s t : LocalOutbox) → evict_next s ≡ some t → s.retained_max_size < length s.retained
unfolding evict_next
evict_next-over s t h = elim (Bool-cases (ltb s.retained_max_size (length s.retained))) [
  | inr fits ↦ let bad : ◌≡◌ {A = Option LocalOutbox} none (some t) = rw fits at h in cc
  | inl over ↦ ground arith
]

-- A retained event that an eviction must leave: a critical one, or one that is queued.
abbrev Stays : LocalOutbox → String × OutboxEvent → Type 0
Stays s (k, e) = (e.priority ≤ℤ pos 1) ⊎ (any_by (λ id. id == k) s.queued_event_ids ≡ true)

stays_or_may : (s : LocalOutbox) (x : String × OutboxEvent) → may_evict s x ≡ false → Stays s x
unfolding is_critical
stays_or_may s (k, e) h = ground arith

stays_not_may : (s : LocalOutbox) (x : String × OutboxEvent) → Stays s x → may_evict s x ≡ true → ⊥
unfolding is_critical
stays_not_may s (k, e) h may = ground arith

none_may :
    (s : LocalOutbox) (xs : Dict String OutboxEvent)
    → filter_by (may_evict s) xs ≡ []
    → All (Stays s) xs
none_may s [] h = tt
none_may s (x ∷ xs) h = elim (Bool-cases (may_evict s x)) [
  | inl may ↦
      let bad : ◌≡◌ {A = Dict String OutboxEvent} (x ∷ filter_by (may_evict s) xs) [] =
        rw may at h in
      cc
  | inr stays ↦ (stays_or_may s x stays, none_may s xs (rw stays at h))
]

-- What an eviction comes to. It is within the bound or only events that must stay are left; it takes
-- none out, or not so many that fewer are left than the bound; the events that must stay are there as
-- before; and as many are dead letters as were taken out.
pub record Settled (s t : LocalOutbox) : Type 0 where
  pub within : (length t.retained ≤ s.retained_max_size) ⊎ All (Stays s) t.retained
  pub sparing : (t.retained ≡ s.retained) ⊎ (s.retained_max_size ≤ length t.retained)
  pub keeps :
      (k : String) (e : OutboxEvent)
      → lookup k s.retained ≡ some e
      → Stays s (k, e)
      → lookup k t.retained ≡ some e
  pub buries : length t.dead_letters + length t.retained ≡ length s.dead_letters + length s.retained

unmoved :
    (s : LocalOutbox)
    → (length s.retained ≤ s.retained_max_size) ⊎ All (Stays s) s.retained
    → Settled s s
unmoved s h = record { within = h; sparing = inl refl; keeps = λ k e f y. f; buries = refl }

evict_next-done :
    (s : LocalOutbox)
    → evict_next s ≡ none
    → (length s.retained ≤ s.retained_max_size) ⊎ All (Stays s) s.retained
unfolding evict_next
evict_next-done s h = elim (Bool-cases (ltb s.retained_max_size (length s.retained))) [
  | inr fits ↦ inl (ground arith)
  | inl over ↦ inr (
      none_may s s.retained (evict_last-none s (filter_by (may_evict s) s.retained) (rw over at h)))
]

module _ (s : LocalOutbox) (x : String × OutboxEvent) (d : Distinct s.retained)
    (led : Led s.retained x) (may : may_evict s x ≡ true) where
  keeps_others :
      (k : String) (e : OutboxEvent)
      → lookup k s.retained ≡ some e
      → Stays s (k, e)
      → lookup k (erase x.0 s.retained) ≡ some e
  keeps_others k e found stays = elim (Bool-cases (x.0 == k)) [
    | inr other ↦ ground (arith, lookup-erase x.0 k s.retained)
    | inl same ↦
        let q : x.0 ≡ k = (string_eq.same_iff x.0 k).0 same in
        let found' : lookup x.0 s.retained ≡ some e = rw q found in
        let w : x.1 ≡ e = cc in absurd (stays_not_may s x (rw (q, w) stays) may)
  ]

  after_round :
      (t : LocalOutbox)
      → s.retained_max_size < length s.retained
      → Settled (evict s x) t
      → Settled s t
  after_round t over r =
      let one = length-erase_one x.0 s.retained d led in
      record {
        within = r.within;
        sparing = inr (elim r.sparing [
          | inl same ↦ let l = ap (λ z. length z) same in omega (arith, l, one, over)
          | inr h ↦ h
        ]);
        keeps = λ k e found stays. r.keeps k e (keeps_others k e found stays) stays;
        buries =
            let one_more =
              length-append s.dead_letters
                ((record x.1 { last_error = some (overflow_error x.1.last_error) }) ∷ []) in
            omega (arith, r.buries, one, one_more);
      }

evict_rounds-Settled :
    (n : ℕ) (s : LocalOutbox)
    → Distinct s.retained
    → length s.retained ≤ n
    → Settled s (evict_rounds n s)
unfolding evict_rounds
evict_rounds-Settled zero s d h = unmoved s (inl (omega arith))
evict_rounds-Settled (suc n) s d h = elim (Option-cases (evict_next s)) [
  | inl e ↦ subst (Settled s) (sym (evict_rounds-last n s e)) (unmoved s (evict_next-done s e))
  | inr (t, e) ↦
      let (x, (led, may), q) = evict_next-one s t d e in
      subst (Settled s) (sym (evict_rounds-next n s t e ∙ ap (evict_rounds n) q)) (
        after_round s x d led may (evict_rounds n (evict s x)) (evict_next-over s t e) (
          evict_rounds-Settled n (evict s x) (erase-Distinct x.0 s.retained d)
            (omega (arith, length-erase_old x.0 s.retained led))))
]

-- Once `_enforce_retained_capacity` is done with a bound above zero, on an outbox where no retained key
-- stands twice, the retained events are within the bound or each of them has a priority of at most 1
-- or is queued. It has taken nothing out, or has left at least as many as the bound. No event with such
-- a priority or queued is taken out, and there are as many new dead letters as events that are gone.
pub enforce_retained_capacity-Settled :
    (s : LocalOutbox)
    → Distinct s.retained
    → 0 < s.retained_max_size
    → Settled s (enforce_retained_capacity s)
unfolding enforce_retained_capacity
enforce_retained_capacity-Settled s d h =
    subst (Settled s) (sym (bounded s h))
      (evict_rounds-Settled (length s.retained) s d (omega arith))
  where
    bounded :
        (s : LocalOutbox)
        → 0 < s.retained_max_size
        → (if ltb 0 s.retained_max_size then evict_rounds (length s.retained) s else s)
          ≡ evict_rounds (length s.retained) s
    bounded s h = ground arith
