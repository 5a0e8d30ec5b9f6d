-- ===== src/Outbox/Service.antt =====
-- Which event a round of `get` serves.
use mathlib.Core.List.{Perm}
use mathlib.Core.List.Perm
use mathlib.Core.Path.{subst}
use fdv.Base.{
  String, ◌≤◌, ◌≢◌, ◌==◌, any_by, true, false, ◌≡◌, refl, inl, inr, Option, none, some, List, [],
  ◌∷◌, All, arith, if◌then◌else◌, Bool-cases, string_eq, sym,
}
use fdv.Base.Entries.{All-map}
use fdv.Base.Dict.{lookup}
use fdv.Base.Integer.{◌≤ℤ◌}
use fdv.Outbox.{OutboxEvent, ReadyEntry, LocalOutbox, is_queued, unqueue}
use fdv.Outbox.Calls.{
  ready_leb, keep_least, take_least, Round, served, passed, waits, serve, found_round, take_ready,
  promote_retained, get_round,
}

ready_leb_refl : (x : ReadyEntry) → ready_leb x x ≡ true
unfolding ready_leb
ready_leb_refl (p, n, a) = ground arith

ready_leb_total : (x y : ReadyEntry) → ready_leb x y ≡ false → ready_leb y x ≡ true
unfolding ready_leb
ready_leb_total (p, n, a) (q, m, b) h = ground arith

ready_leb_trans :
    (x y z : ReadyEntry) → ready_leb x y ≡ true → ready_leb y z ≡ true → ready_leb x z ≡ true
unfolding ready_leb
ready_leb_trans (p, n, a) (q, m, b) (r, o, c) h k = ground arith

abbrev LeastOf : List ReadyEntry → ReadyEntry × List ReadyEntry → Type 0
LeastOf all (x, rest) = All (λ y. ready_leb x y ≡ true) all × Perm all (x ∷ rest)

take_least-LeastOf : (x : ReadyEntry) (ys : List ReadyEntry) → LeastOf (x ∷ ys) (take_least x ys)
unfolding take_least
take_least-LeastOf x [] = ((ready_leb_refl x, tt), Perm.refl _)
take_least-LeastOf x (y ∷ ys) = step (take_least y ys) (take_least-LeastOf y ys)
  where
    step :
        (r : ReadyEntry × List ReadyEntry)
        → LeastOf (y ∷ ys) r
        → LeastOf (x ∷ y ∷ ys) (keep_least x r (y ∷ ys))
    step (least, rest) (low, perm) = elim (Bool-cases (ready_leb x least)) [
      | inl k ↦
          subst (λ b. LeastOf (x ∷ y ∷ ys) (if b then (x, y ∷ ys) else (least, x ∷ rest))) (sym k)
            (
              (ready_leb_refl x, All-map (y ∷ ys) (λ z h. ready_leb_trans x least z k h) low),
              Perm.refl _,
            )
      | inr k ↦
          subst (λ b. LeastOf (x ∷ y ∷ ys) (if b then (x, y ∷ ys) else (least, x ∷ rest))) (sym k)
            (
              (ready_leb_total x least k, low),
              Perm.trans (Perm.cons x perm) (Perm.swap least x rest),
            )
    ]

-- The first entry comes before the second one or with it: its priority number is not greater, and
-- where the two are equal it was put in no later.
abbrev Before : ReadyEntry → ReadyEntry → Type 0
Before (p, n, a) (q, m, b) = (p ≤ℤ q) × (q ≤ℤ p → n ≤ m)

ready_leb-Before : (x y : ReadyEntry) → ready_leb x y ≡ true → Before x y
unfolding ready_leb
ready_leb-Before (p, n, a) (q, m, b) h = (ground arith, λ k. ground arith)

-- The entry comes before all of them, and the others are those that are left.
abbrev pub FirstOf : List ReadyEntry → ReadyEntry → List ReadyEntry → Type 0
FirstOf all x rest = All (λ y. Before x y) all × Perm all (x ∷ rest)

-- The id is queued no more, and every other id is if it was.
abbrev pub Unqueues : String → LocalOutbox → LocalOutbox → Type 0
Unqueues id s t =
    All (λ j. j ≢ id) t.queued_event_ids × ((j : String) → j ≢ id → is_queued t j ≡ is_queued s j)

-- What a round does with the ready queue: it takes the first entry out, whose id is queued no more,
-- and serves the event that is held under its id, or passes over the entry where none is held, or
-- waits on an empty queue.
abbrev pub RoundOf : LocalOutbox → Round → Type 0
RoundOf s (served e t) =
    (x : ReadyEntry) × FirstOf s.ready x t.ready
    × Unqueues x.2 s t
    × (lookup x.2 s.events_by_id ≡ some e)
RoundOf s (passed t) =
    (x : ReadyEntry) × FirstOf s.ready x t.ready
    × Unqueues x.2 s t
    × (lookup x.2 s.events_by_id ≡ none)
RoundOf s (waits t) = (s.ready ≡ []) × (t ≡ s)

unqueue-gone : (id : String) (ids : List String) → All (λ j. j ≢ id) (unqueue id ids)
unqueue-gone id [] = tt
unqueue-gone id (j ∷ ids) = elim (Bool-cases (j == id)) [
  | inl hit ↦ rw hit (unqueue-gone id ids)
  | inr miss ↦ rw miss (ground (arith, string_eq.same_iff j id), unqueue-gone id ids)
]

unqueue-others :
    (id j : String) (ids : List String)
    → j ≢ id
    → any_by (λ x. x == j) (unqueue id ids) ≡ any_by (λ x. x == j) ids
unqueue-others id j [] h = refl
unqueue-others id j (i ∷ ids) h = ground (
  arith,
  unqueue-others id j ids h,
  string_eq.same_iff i id,
  string_eq.same_iff i j,
  string_eq.same_iff j id,
)

found_round-RoundOf :
    (s t : LocalOutbox) (x : ReadyEntry) (o : Option OutboxEvent)
    → FirstOf s.ready x t.ready
    → Unqueues x.2 s t
    → lookup x.2 s.events_by_id ≡ o
    → RoundOf s (found_round t o)
found_round-RoundOf s t x none h u k = (x, h, u, k)
found_round-RoundOf s t x (some e) h u k = (x, h, u, k)

serve-RoundOf :
    (s : LocalOutbox) (r : ReadyEntry × List ReadyEntry) → LeastOf s.ready r → RoundOf s (serve s r)
unfolding serve
serve-RoundOf s ((p, n, id), rest) (low, perm) =
    found_round-RoundOf s _ (p, n, id) _ (All-map s.ready (ready_leb-Before (p, n, id)) low, perm)
      (unqueue-gone id s.queued_event_ids, λ j other. unqueue-others id j s.queued_event_ids other)
      refl

take_ready-RoundOf :
    (s : LocalOutbox) (r : List ReadyEntry) → s.ready ≡ r → RoundOf s (take_ready s r)
unfolding take_ready
take_ready-RoundOf s [] h = (h, refl)
take_ready-RoundOf s (x ∷ xs) h =
    serve-RoundOf s (take_least x xs)
      (subst (λ all. LeastOf all (take_least x xs)) (sym h) (take_least-LeastOf x xs))

-- A round of `get` first promotes retained events. It then takes an entry of the least priority
-- number, and among those one that was put in first, leaves the others in the ready queue and takes
-- just the entry's id out of the queued ids. It serves the event that is held under that id; where
-- none is held the entry is passed over, and it waits just when the ready queue is empty.
pub get_round-RoundOf : (s : LocalOutbox) → RoundOf (promote_retained s) (get_round s)
unfolding get_round
get_round-RoundOf s = take_ready-RoundOf (promote_retained s) (promote_retained s).ready refl
