-- ===== src/Outbox/Critical.antt =====
-- A critical event that the outbox holds stays, and stays critical, until it is acknowledged or
-- buried.
use fdv.Base.{
  arith, ◌⊎◌, ◌≤◌, length, ℕ, String, Bool, true, false, ◌≡◌, refl, inl, inr, Option, none, some,
  List, [], ◌∷◌, string_eq, if◌then◌else◌,
}
use fdv.Base.Dict.{lookup}
use fdv.Outbox.{
  OutboxEvent, ReadyEntry, LocalOutbox, is_queued, store_pending, store_retained, with_retry,
  new_outbox,
}
use fdv.Outbox.Calls.{
  enqueue_ready, promote_retained, current_of, found_round, serve, take_ready, take_least,
  get_round, ack, forget_or_retain, retry_with, retry_found, retry, bury, dead_letter_found,
  dead_letter,
}
use fdv.Outbox.Steps.{
  OutboxCall, enqueuing, putting, getting, acking, retrying, burying, after_round, after_call,
  outbox_step,
}
use fdv.Outbox.Sound.{OutboxSound, erase_retained-SoundDicts, erase_held-SoundDicts}
use fdv.Outbox.Guards.{
  HoldsCritical, Fits, Free, Guards, ReadyFits, erase-Watched, store_pending-Guards,
  store_retained-Guards, current_of-Fits, with_retry-Fits,
}
use fdv.Outbox.Queueing.{
  length-take_least, enqueue_ready-Guards, promote_retained-Guards, enqueue-Guards,
  put_nowait-Guards,
}

module _ (who : Option String) where
  found_round-Guards :
      (t : LocalOutbox) (o : Option OutboxEvent)
      → Guards who t
      → Guards who (after_round (found_round t o))
  found_round-Guards t none g = g
  found_round-Guards t (some e) g = g

  serve-Guards :
      (s : LocalOutbox) (r : ReadyEntry × List ReadyEntry)
      → Guards who s
      → length r.1 ≤ length s.ready
      → Guards who (after_round (serve s r))
  unfolding serve
  serve-Guards s ((p, n, id), rest) g short =
      found_round-Guards _ (lookup id s.events_by_id) (g.0, g.1, shorter g.2)
    where
      shorter : ReadyFits s → (s.max_size ≡ 0) ⊎ (length rest ≤ s.max_size)
      shorter (inl z) = inl z
      shorter (inr f) = inr (omega (arith, f, short))

  take_ready-Guards :
      (s : LocalOutbox) (r : List ReadyEntry)
      → Guards who s
      → length r ≤ length s.ready
      → Guards who (after_round (take_ready s r))
  unfolding take_ready
  take_ready-Guards s [] g short = g
  take_ready-Guards s (x ∷ xs) g short =
      serve-Guards s (take_least x xs) g (omega (arith, length-take_least x xs))

  ack-Guards : (s : LocalOutbox) (id : String) → Free who id → Guards who s → Guards who (ack s id)
  unfolding ack
  ack-Guards s id f g = promote_retained-Guards who _ (
    erase_retained-SoundDicts (erase_held-SoundDicts g.0 id) id,
    erase-Watched who id s.events_by_id f g.1,
    g.2,
  )

  forget_or_retain-Guards :
      (id : String) (e : OutboxEvent) (r : Bool × LocalOutbox)
      → Fits who e
      → Guards who r.1
      → Guards who (forget_or_retain id e r)
  forget_or_retain-Guards id e (true, s) f g = (erase_retained-SoundDicts g.0 id, g.1, g.2)
  forget_or_retain-Guards id e (false, s) f g = store_retained-Guards who s e f g

  retry_with-Guards :
      (s : LocalOutbox) (id : String) (e : OutboxEvent)
      → Fits who e
      → Guards who s
      → Guards who (retry_with s id e)
  unfolding retry_with
  retry_with-Guards s id e f g =
      elim (is_queued s id)
        as (λ b. Guards who (
          if b
          then store_pending s e
          else forget_or_retain id e (enqueue_ready (store_retained s e) e))) [
            | true ↦ store_pending-Guards who s e f g
            | false ↦ forget_or_retain-Guards id e (enqueue_ready (store_retained s e) e) f (
                enqueue_ready-Guards who (store_retained s e) e (store_retained-Guards who s e f g))
          ]

  retry_found-Guards :
      (s : LocalOutbox) (id : String) (last_error : Option String) (o : Option OutboxEvent)
      → current_of s id ≡ o
      → Guards who s
      → Guards who (after_call s (retry_found s id last_error o))
  unfolding retry_found
  retry_found-Guards s id last_error none k g = g
  retry_found-Guards s id last_error (some c) k g =
      retry_with-Guards s id (with_retry c last_error)
        (with_retry-Fits who c last_error (current_of-Fits who s id c g k)) g

  dead_letter_found-Guards :
      (s : LocalOutbox) (id : String) (last_error : Option String) (held kept : Option OutboxEvent)
      → Free who id
      → Guards who s
      → Guards who (after_call s (dead_letter_found s id last_error held kept))
  unfolding dead_letter_found bury
  dead_letter_found-Guards s id last_error (some e) kept f g =
      (erase_held-SoundDicts g.0 id, erase-Watched who id s.events_by_id f g.1, g.2)
  dead_letter_found-Guards s id last_error none (some e) f g =
      (erase_retained-SoundDicts g.0 id, g.1, g.2)
  dead_letter_found-Guards s id last_error none none f g = g

  -- A call that neither takes the watched event out nor puts a lesser one in its place.
  abbrev pub Spares : OutboxCall → Type 0
  Spares (enqueuing e) = Fits who e
  Spares (putting e) = Fits who e
  Spares getting = Unit {0}
  Spares (acking id) = Free who id
  Spares (retrying id last_error) = Unit {0}
  Spares (burying id last_error) = Free who id

  outbox_step-Guards :
      (c : OutboxCall) (s : LocalOutbox) → Spares c → Guards who s → Guards who (outbox_step c s)
  unfolding outbox_step get_round retry dead_letter
  outbox_step-Guards (enqueuing e) s f g = enqueue-Guards who s e f g
  outbox_step-Guards (putting e) s f g = put_nowait-Guards who s e f g
  outbox_step-Guards getting s f g =
      take_ready-Guards (promote_retained s) (promote_retained s).ready
        (promote_retained-Guards who s g) (omega arith)
  outbox_step-Guards (acking id) s f g = ack-Guards s id f g
  outbox_step-Guards (retrying id last_error) s f g =
      retry_found-Guards s id last_error (current_of s id) refl g
  outbox_step-Guards (burying id last_error) s f g =
      dead_letter_found-Guards s id last_error (lookup id s.events_by_id) (lookup id s.retained) f g

-- The invariant of the outbox.
abbrev pub OutboxValid : LocalOutbox → Type 0
OutboxValid s = OutboxSound s × ReadyFits s

pub new_outbox-OutboxValid : (n : ℕ) (m : Option ℕ) → OutboxValid (new_outbox n m)
unfolding lookup
new_outbox-OutboxValid n m = (
  record { distinct = tt; held_keyed = tt; retained_keyed = tt; agree = λ k v w p q. cc },
  inr (omega arith),
)

Spares-none : (c : OutboxCall) → Spares none c
Spares-none (enqueuing e) = tt
Spares-none (putting e) = tt
Spares-none getting = tt
Spares-none (acking id) = tt
Spares-none (retrying id last_error) = tt
Spares-none (burying id last_error) = tt

-- Every call keeps the outbox valid: both dicts are keyed by the events' ids, no retained key stands
-- twice, an event that is retained is the one that is held under its id, if one is held, and the
-- ready queue is within its bound, if it has one.
pub outbox_step-OutboxValid :
    (c : OutboxCall) (s : LocalOutbox) → OutboxValid s → OutboxValid (outbox_step c s)
outbox_step-OutboxValid c s v =
    let g = outbox_step-Guards none c s (Spares-none c) (v.0, tt, v.1) in (g.0, g.2)

-- A critical event that a valid outbox holds is held after any call, still critical, whatever is
-- evicted, merged or retried, unless the call acknowledges or buries it or stores an event that is not
-- critical under the same id.
pub outbox_step-HoldsCritical :
    (c : OutboxCall) (s : LocalOutbox) (id : String)
    → OutboxValid s
    → Spares (some id) c
    → HoldsCritical id s.events_by_id
    → HoldsCritical id (outbox_step c s).events_by_id
outbox_step-HoldsCritical c s id v f k = (outbox_step-Guards (some id) c s f (v.0, k, v.1)).1
