-- ===== src/Outbox/Queueing.antt =====
-- What storing, promoting and merging keep of the outbox: its dicts, the watched event and the bound
-- of the ready queue.
use mathlib.Core.Path.{subst}
use fdv.Base.{
  arith, suc, length, length-append, sym, String, Bool, true, false, ◌≡◌, refl, inl, inr, Option,
  List, [], ◌∷◌, string_eq, if◌then◌else◌, Bool-cases, Option-cases,
}
use fdv.Base.Dict.{Dict}
use fdv.Outbox.{
  OutboxEvent, merge_key, ReadyEntry, LocalOutbox, is_queued, has_capacity, store_retained,
}
use fdv.Outbox.Calls.{
  push_ready, enqueue_ready, sorted_entries, forget_retained, promote, promote_retained, mergeable,
  merged, pending_or_retained, enqueue_new, put_new, enqueue_with, enqueue, put_with, put_nowait,
  take_least, keep_least, push_ready,
}
use fdv.Outbox.Sound.{erase_retained-SoundDicts}
use fdv.Outbox.Guards.{
  Fits, Guards, ReadyFits, store_pending-Guards, store_retained-Guards, store-Guards,
  mergeable-Fits,
}

length-keep_least :
    (x : ReadyEntry) (r : ReadyEntry × List ReadyEntry) (all : List ReadyEntry)
    → length all ≡ suc (length r.1)
    → length (keep_least x r all).1 ≡ length all
length-keep_least x (least, rest) all h = ground arith

pub length-take_least :
    (x : ReadyEntry) (ys : List ReadyEntry) → length (take_least x ys).1 ≡ length ys
unfolding take_least
length-take_least x [] = refl
length-take_least x (y ∷ ys) =
    length-keep_least x (take_least y ys) (y ∷ ys) (omega (arith, length-take_least y ys))

push_ready-ReadyFits :
    (s : LocalOutbox) (e : OutboxEvent)
    → has_capacity s ≡ true
    → ReadyFits s
    → ReadyFits (push_ready s e)
unfolding has_capacity
push_ready-ReadyFits s e room fits =
    ground (arith, length-append s.ready ((e.priority, s.sequence, e.event_id) ∷ []))

module _ (who : Option String) where
  pub enqueue_ready-Guards :
      (s : LocalOutbox) (e : OutboxEvent) → Guards who s → Guards who (enqueue_ready s e).1
  unfolding enqueue_ready
  enqueue_ready-Guards s e g = elim (Bool-cases (has_capacity s)) [
    | inl k ↦ rw k (g.0, g.1, push_ready-ReadyFits s e k g.2)
    | inr k ↦ rw k g
  ]

  forget_retained-Guards :
      (id : String) (r : Bool × LocalOutbox) → Guards who r.1 → Guards who (forget_retained id r)
  forget_retained-Guards id (true, s) g = (erase_retained-SoundDicts g.0 id, g.1, g.2)
  forget_retained-Guards id (false, s) g = g

  promote-Guards :
      (s : LocalOutbox) (d : Dict String OutboxEvent) → Guards who s → Guards who (promote s d)
  unfolding promote
  promote-Guards s [] g = g
  promote-Guards s ((id, e) ∷ rest) g =
      promote-Guards (if is_queued s id then s else forget_retained id (enqueue_ready s e)) rest
        (elim (is_queued s id)
          as (λ b. Guards who (if b then s else forget_retained id (enqueue_ready s e))) [
            | true ↦ g
            | false ↦ forget_retained-Guards id (enqueue_ready s e) (enqueue_ready-Guards s e g)
          ])

  pub promote_retained-Guards : (s : LocalOutbox) → Guards who s → Guards who (promote_retained s)
  unfolding promote_retained
  promote_retained-Guards s g = promote-Guards s (sorted_entries s.retained) g

  pending_or_retained-Guards :
      (e : OutboxEvent) (r : Bool × LocalOutbox)
      → Fits who e
      → Guards who r.1
      → Guards who (pending_or_retained e r)
  pending_or_retained-Guards e (true, s) f g = store_pending-Guards who s e f g
  pending_or_retained-Guards e (false, s) f g = store_retained-Guards who s e f g

  enqueue_new-Guards :
      (s : LocalOutbox) (e : OutboxEvent) → Fits who e → Guards who s → Guards who (enqueue_new s e)
  unfolding enqueue_new
  enqueue_new-Guards s e f g =
      elim (has_capacity s)
        as (λ b.
          Guards who
            (if b then pending_or_retained e (enqueue_ready s e) else store_retained s e)) [
              | true ↦
                  pending_or_retained-Guards e (enqueue_ready s e) f (enqueue_ready-Guards s e g)
              | false ↦ store_retained-Guards who s e f g
            ]

  put_new-Guards :
      (s : LocalOutbox) (e : OutboxEvent) → Fits who e → Guards who s → Guards who (put_new s e)
  unfolding put_new
  put_new-Guards s e f g = elim (Bool-cases (has_capacity s)) [
    | inl k ↦
        rw k
          (store_pending-Guards who (push_ready s e) e f (g.0, g.1, push_ready-ReadyFits s e k g.2))
    | inr k ↦ rw k (store_retained-Guards who s e f g)
  ]

  pub enqueue-Guards :
      (s : LocalOutbox) (e : OutboxEvent) → Fits who e → Guards who s → Guards who (enqueue s e)
  unfolding enqueue enqueue_with
  enqueue-Guards s e f g = elim (Option-cases (mergeable s (merge_key e))) [
    | inl k ↦ subst (λ o. Guards who (enqueue_with s e o)) (sym k) (enqueue_new-Guards s e f g)
    | inr (c, k) ↦
        subst (λ o. Guards who (enqueue_with s e o)) (sym k)
          (store-Guards who s (merged c e) (mergeable-Fits who s (merge_key e) c e g k) g)
  ]

  pub put_nowait-Guards :
      (s : LocalOutbox) (e : OutboxEvent) → Fits who e → Guards who s → Guards who (put_nowait s e)
  unfolding put_nowait put_with
  put_nowait-Guards s e f g = elim (Option-cases (mergeable s (merge_key e))) [
    | inl k ↦ subst (λ o. Guards who (put_with s e o)) (sym k) (put_new-Guards s e f g)
    | inr (c, k) ↦
        subst (λ o. Guards who (put_with s e o)) (sym k)
          (store-Guards who s (merged c e) (mergeable-Fits who s (merge_key e) c e g k) g)
  ]
